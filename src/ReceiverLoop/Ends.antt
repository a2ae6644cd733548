-- ===== src/ReceiverLoop/Ends.antt =====
-- A round of the loop, and enough fuel for all of them.
use printdrop.Prelude.{
  ℕ, ◌≡◌, refl, Bool, true, false, if_cases, Option, none, some, not, ◌==◌, List,
}
use printdrop.Protocol.{msg_file_begin, msg_chunk, msg_file_end}
use printdrop.Ack.{AckResult, ack_payload_size, ack_ok}
use printdrop.ReceiverProtocol.{ReceiverProtocol, ReceiverProtocolOps, Outcome, protocol_abort}
use printdrop.ReceiverLoop.{
  LoopEvent, LoopResult, LoopIoOps, ReceiverLoop, Received, Round, received_bytes, total_bytes,
  emit, send_encoded, send_ack, give_up, after_ack, after_handle, after_receive, is_ok, should_ack,
  error_status,
}
use printdrop.ReceiverLoop.Keeps.{Keeps, Stays, protocol_handle-Stays, protocol_abort-Stays}

module _ {W : Type 0} (P : W → Type 0) (ops : ReceiverProtocolOps W) (loop : ReceiverLoop W)
    (io : LoopIoOps W) (k : Keeps P ops loop io) where
  progress_stays :
      (t : Option (W → ℕ × W)) (w : W)
      → loop.progress ≡ t
      → P w
      → P (elim t as (λ x. ℕ × W) [ none ↦ (0, w) | some progress ↦ progress w ]).1
  progress_stays none w e h = h
  progress_stays (some f) w e h = k.progresses f w e h

  received_bytes_stays : (w : W) → P w → P (received_bytes loop w).1
  unfolding received_bytes
  received_bytes_stays w h = progress_stays loop.progress w refl h

  pub emit_stays :
      (event : LoopEvent) (p : Option (ReceiverProtocol W)) (w : W) → P w → P (emit loop event p w)
  unfolding emit
  emit_stays event p w h = reported loop.event_callback refl
    where
      reported :
          (t : Option (LoopEvent → ℕ → ℕ → W → W))
          → loop.event_callback ≡ t
          → P (elim t [
            | none ↦ w
            | some callback ↦
                let (received, w') = received_bytes loop w in
                callback event received (total_bytes p) w'
          ])
      reported none e = h
      reported (some f) e =
          k.reports f event (received_bytes loop w).0 (total_bytes p) (received_bytes loop w).1 e
            (received_bytes_stays w h)

  send_encoded_stays : (x : AckResult × Option (List ℕ)) (w : W) → P w → P (send_encoded io x w).1
  unfolding send_encoded
  send_encoded_stays (AckResult.ok, some payload) w h = k.sends _ payload ack_payload_size w h
  send_encoded_stays (AckResult.ok, none) w h = h
  send_encoded_stays (_, x) w h = h

  send_ack_stays : (type status : ℕ) (w : W) → P w → P (send_ack loop io type status w).1
  unfolding send_ack
  send_ack_stays type status w h =
      send_encoded_stays _ (received_bytes loop w).1 (received_bytes_stays w h)

  -- What a round leaves.
  abbrev StaysAfter : Round W → Type 0
  StaysAfter x = Stays P ops loop io k (x.1, x.2)

  give_up-Stays :
      (result : LoopResult) (p : Option (ReceiverProtocol W)) (w : W)
      → Stays P ops loop io k (p, w)
      → StaysAfter (give_up loop result p w)
  unfolding give_up Stays
  give_up-Stays result none w h = absurd h
  give_up-Stays result (some p) w (e, h) =
      emitted (protocol_abort (some p) w) (protocol_abort-Stays P ops loop io k p w e h)
    where
      emitted :
          (x : Option (ReceiverProtocol W) × W)
          → Stays P ops loop io k x
          → Stays P ops loop io k (x.0, emit loop LoopEvent.failed x.0 x.1)
      emitted (none, w) h = h
      emitted (some q, w) (e, h) = (e, emit_stays LoopEvent.failed (some q) w h)

  after_ack-Stays :
      (type : ℕ) (p : Option (ReceiverProtocol W)) (x : Bool × W)
      → Stays P ops loop io k (p, x.1)
      → StaysAfter (after_ack loop type p x)
  unfolding after_ack Stays
  after_ack-Stays type p (false, w) h = give_up-Stays LoopResult.send_error p w h
  after_ack-Stays type none (true, w) h = absurd h
  after_ack-Stays type (some p) (true, w) (e, h) =
      if_cases StaysAfter (type == msg_file_begin) _ _
        (λ _. (e, emit_stays LoopEvent.file_started (some p) w h))
        (λ _.
          if_cases StaysAfter (type == msg_chunk) _ _
            (λ _. (e, emit_stays LoopEvent.progress_made (some p) w h))
            (λ _.
              if_cases StaysAfter (type == msg_file_end) _ _
                (λ _. (e, emit_stays LoopEvent.complete (some p) w h)) (λ _. (e, h))))

  after_handle-Stays :
      (type : ℕ) (o : Outcome W)
      → Stays P ops loop io k (o.1, o.2)
      → StaysAfter (after_handle loop io type o)
  unfolding after_handle Stays
  after_handle-Stays type (result, none, w) h = absurd h
  after_handle-Stays type (result, some p, w) (e, h) =
      if_cases StaysAfter (not (is_ok result)) _ _
        (λ _. give_up-Stays LoopResult.protocol_error (some p) _ (
          e,
          if_cases P (should_ack type) _ _ (λ _. send_ack_stays type (error_status result) w h)
              (λ _. h),
        ))
        (λ _. after_ack-Stays type (some p) _ (
          e,
          if_cases (λ (y : Bool × W). P y.1) (should_ack type) _ _
              (λ _. send_ack_stays type ack_ok w h) (λ _. h),
        ))

  pub received_stays :
      (p : ReceiverProtocol W) (x : Option Received × W)
      → p.ops ≡ some ops
      → P x.1
      → StaysAfter (after_receive loop io (some p) x)
  unfolding after_receive Stays
  received_stays p (none, w) e h = give_up-Stays LoopResult.receive_error (some p) w (e, h)
  received_stays p (some frame, w) e h = after_handle-Stays frame.header.type _ (
      protocol_handle-Stays P ops loop io k p frame.header frame.payload frame.payload_size _ e (
        if_cases P (frame.header.type == msg_file_end) _ _
          (λ _. emit_stays LoopEvent.verifying (some p) w h) (λ _. h)))
