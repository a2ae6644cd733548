-- ===== src/ReceiverLoop/Round.antt =====
-- One round of the loop: where it returns, the protocol is over and no file is open; where it goes
-- on, the protocol is not over.
use printdrop.Prelude.{
  ℕ, ◌≡◌, ◌≢◌, ◌⊎◌, inl, inr, refl, sym, subst, ap, ◌∙◌, Bool, true, false, not, ◌==◌, if_cases,
  true_of_not, Option, none, some, List, if◌then◌else◌, arith,
}
use printdrop.Protocol.{msg_file_begin, msg_chunk, msg_file_end}
use printdrop.Frame.{FrameHeader}
use printdrop.Ack.{AckResult, ack_payload_size, ack_ok}
use printdrop.ReceiverProtocol.{
  ReceiverProtocol, ReceiverProtocolOps, ProtocolState, ProtocolResult, Outcome, is_over,
  protocol_handle, protocol_abort,
}
use printdrop.ReceiverProtocol.Invariant.{
  HandlerLaws, is_receiving, IsSound, Accepts, announced, continued, ended,
}
use printdrop.ReceiverProtocol.Handle.{
  protocol_handle-IsSound, protocol_abort-IsSound, protocol_handle-some, protocol_abort-some,
}
use printdrop.ReceiverLoop.{
  LoopEvent, LoopResult, Received, LoopIoOps, ReceiverLoop, Round, should_ack, error_status, is_ok,
  received_bytes, total_bytes, emit, send_encoded, send_ack, give_up, after_ack, after_handle,
  after_receive,
}

-- The connection, the progress function and the event callback neither open nor close the file of
-- the handler.
pub record KeepsFile {W : Type 0} (is_open : W → Bool) (loop : ReceiverLoop W) (io : LoopIoOps W)
    : Type 0 where
  pub receives : (w : W) → is_open (io.receive_frame w).1 ≡ is_open w
  pub sends :
      (h : FrameHeader) (xs : List ℕ) (n : ℕ) (w : W)
      → is_open (io.send_frame h xs n w).1 ≡ is_open w
  pub progresses : (f : W → ℕ × W) (w : W) → loop.progress ≡ some f → is_open (f w).1 ≡ is_open w
  pub reports :
      (f : LoopEvent → ℕ → ℕ → W → W) (e : LoopEvent) (m n : ℕ) (w : W)
      → loop.event_callback ≡ some f
      → is_open (f e m n w) ≡ is_open w

ok_of : (result : ProtocolResult) → is_ok result ≡ true → result ≡ ProtocolResult.ok
ok_of result e = ground (arith, e)

module _ {W : Type 0} (is_open : W → Bool) (ops : ReceiverProtocolOps W) (loop : ReceiverLoop W)
    (io : LoopIoOps W) (laws : HandlerLaws is_open ops) (keeps : KeepsFile is_open loop io) where
  progress_keeps :
      (o : Option (W → ℕ × W)) (w : W)
      → loop.progress ≡ o
      → is_open (let x : ℕ × W = elim o [ none ↦ (0, w) | some f ↦ f w ] in x.1) ≡ is_open w
  progress_keeps none w e = refl
  progress_keeps (some f) w e = keeps.progresses f w e

  received_bytes_keeps : (w : W) → is_open (received_bytes loop w).1 ≡ is_open w
  unfolding received_bytes
  received_bytes_keeps w = progress_keeps loop.progress w refl

  event_keeps :
      (o : Option (LoopEvent → ℕ → ℕ → W → W)) (e : LoopEvent) (p : Option (ReceiverProtocol W))
      (w : W)
      → loop.event_callback ≡ o
      → is_open (elim o [
        | none ↦ w
        | some f ↦ f e (received_bytes loop w).0 (total_bytes p) (received_bytes loop w).1
      ])
        ≡ is_open w
  event_keeps none e p w q = refl
  event_keeps (some f) e p w q =
      keeps.reports f e (received_bytes loop w).0 (total_bytes p) (received_bytes loop w).1 q
      ∙ received_bytes_keeps w

  pub emit_keeps :
      (e : LoopEvent) (p : Option (ReceiverProtocol W)) (w : W)
      → is_open (emit loop e p w) ≡ is_open w
  unfolding emit
  emit_keeps e p w = event_keeps loop.event_callback e p w refl

  send_encoded_keeps :
      (x : AckResult × Option (List ℕ)) (w : W) → is_open (send_encoded io x w).1 ≡ is_open w
  unfolding send_encoded
  send_encoded_keeps (AckResult.ok, some xs) w = keeps.sends _ xs ack_payload_size w
  send_encoded_keeps (AckResult.ok, none) w = refl
  send_encoded_keeps (_, o) w = refl

  send_ack_keeps :
      (type status : ℕ) (w : W) → is_open (send_ack loop io type status w).1 ≡ is_open w
  unfolding send_ack
  send_ack_keeps type status w =
      send_encoded_keeps _ (received_bytes loop w).1 ∙ received_bytes_keeps w

  pub moved :
      (p : ReceiverProtocol W) (w w' : W)
      → is_open w' ≡ is_open w
      → IsSound is_open ops p w
      → IsSound is_open ops p w'
  moved p w w' e i = record { table = i.table; flag = e ∙ i.flag; at_state = i.at_state }

  -- What a round leaves.
  unfoldable Leaves : Round W → Type 0
  Leaves (result, none, w) = ⊥
  Leaves (none, some q, w) = IsSound is_open ops q w × (is_over q.state ≡ false)
  Leaves (some r, some q, w) =
      IsSound is_open ops q w × (is_over q.state ≡ true) × (is_open w ≡ false)

  aborted-Leaves :
      (result : LoopResult) (x : Option (ReceiverProtocol W) × W) (p : ReceiverProtocol W) (w : W)
      → IsSound is_open ops p w
      → protocol_abort (some p) w ≡ x
      → Leaves (some result, x.0, emit loop LoopEvent.failed x.0 x.1)
  unfolding Leaves
  aborted-Leaves result (some q, w') p w i e =
      let (j, over, closed) = protocol_abort-IsSound is_open ops laws p q w w' i e in
      let same = emit_keeps LoopEvent.failed (some q) w' in
      (moved q w' _ same j, over, same ∙ closed)
  aborted-Leaves result (none, w') p w i e =
      absurd (protocol_abort-some is_open ops laws p w w' i e)

  give_up-Leaves :
      (result : LoopResult) (p : ReceiverProtocol W) (w : W)
      → IsSound is_open ops p w
      → Leaves (give_up loop result (some p) w)
  unfolding give_up
  give_up-Leaves result p w i = aborted-Leaves result (protocol_abort (some p) w) p w i refl

  goes_on :
      (q : ReceiverProtocol W) (w w' : W)
      → IsSound is_open ops q w
      → is_open w' ≡ is_open w
      → is_over q.state ≡ false
      → Leaves (none, some q, w')
  unfolding Leaves
  goes_on q w w' i e o = (moved q w w' e i, o)

  returns :
      (q : ReceiverProtocol W) (w w' : W)
      → IsSound is_open ops q w
      → is_open w' ≡ is_open w
      → q.state ≡ ProtocolState.complete
      → Leaves (some LoopResult.ok, some q, w')
  unfolding Leaves
  returns q w w' i e c =
      (moved q w w' e i, ap is_over c, e ∙ i.flag ∙ i.at_state ∙ ap is_receiving c)

  abbrev next_of : ℕ → ReceiverProtocol W → W → Round W
  next_of type q w =
      if type == msg_file_begin
      then (none, some q, emit loop LoopEvent.file_started (some q) w)
      else if type == msg_chunk
      then (none, some q, emit loop LoopEvent.progress_made (some q) w)
      else if type == msg_file_end
      then (some LoopResult.ok, some q, emit loop LoopEvent.complete (some q) w)
      else (none, some q, w)

  next_of-Leaves :
      (type : ℕ) (p q : ReceiverProtocol W) (w : W)
      → IsSound is_open ops q w
      → Accepts p type q
      → Leaves (next_of type q w)
  next_of-Leaves type p q w i (announced s m r) =
      subst (λ t. Leaves (next_of t q w)) (sym m)
        (goes_on q w _ i (emit_keeps LoopEvent.file_started (some q) w) (ap is_over r))
  next_of-Leaves type p q w i (continued s m r) =
      subst (λ t. Leaves (next_of t q w)) (sym m)
        (goes_on q w _ i (emit_keeps LoopEvent.progress_made (some q) w)
          (ap (λ x. is_over x.state) r ∙ ap is_over s))
  next_of-Leaves type p q w i (ended s m r) =
      subst (λ t. Leaves (next_of t q w)) (sym m)
        (returns q w _ i (emit_keeps LoopEvent.complete (some q) w) r)

  after_ack-Leaves :
      (type : ℕ) (p q : ReceiverProtocol W) (x : Bool × W)
      → IsSound is_open ops q x.1
      → Accepts p type q
      → Leaves (after_ack loop type (some q) x)
  unfolding after_ack
  after_ack-Leaves type p q (false, w) i a = give_up-Leaves LoopResult.send_error q w i
  after_ack-Leaves type p q (true, w) i a = next_of-Leaves type p q w i a

  after_handle-Leaves :
      (p : ReceiverProtocol W) (header : FrameHeader) (payload : Option (List ℕ)) (n : ℕ) (w : W)
      (x : Outcome W)
      → IsSound is_open ops p w
      → protocol_handle (some p) (some header) payload n w ≡ x
      → Leaves (after_handle loop io header.type x)
  unfolding after_handle
  after_handle-Leaves p header payload n w (result, none, w') i e =
      absurd (protocol_handle-some is_open ops laws p header payload n w w' result i e)
  after_handle-Leaves p header payload n w (result, some q, w') i e =
      let (j, accepts) =
        protocol_handle-IsSound is_open ops laws p q header payload n w w' result i e in
      let asked =
        if should_ack header.type
        then (send_ack loop io header.type (error_status result) w').1
        else w' in
      let answer : Bool × W =
        if should_ack header.type then send_ack loop io header.type ack_ok w' else (true, w') in
      let same : is_open asked ≡ is_open w' =
        if_cases (λ y. is_open y ≡ is_open w') (should_ack header.type) _ _
          (λ _. send_ack_keeps header.type (error_status result) w') (λ _. refl) in
      let same' : is_open answer.1 ≡ is_open w' =
        if_cases (λ (y : Bool × W). is_open y.1 ≡ is_open w') (should_ack header.type) _ _
          (λ _. send_ack_keeps header.type ack_ok w') (λ _. refl) in
      if_cases Leaves (not (is_ok result)) _ _
        (λ _. give_up-Leaves LoopResult.protocol_error q asked (moved q w' asked same j))
        (λ ok.
          after_ack-Leaves header.type p q answer (moved q w' answer.1 same' j)
            (accepts (ok_of result (true_of_not (is_ok result) ok))))

  received-Leaves :
      (p : ReceiverProtocol W) (x : Option Received × W)
      → IsSound is_open ops p x.1
      → Leaves (after_receive loop io (some p) x)
  unfolding after_receive
  received-Leaves p (none, w) i = give_up-Leaves LoopResult.receive_error p w i
  received-Leaves p (some frame, w) i =
      let w' =
        if frame.header.type == msg_file_end then emit loop LoopEvent.verifying (some p) w else w in
      let same : is_open w' ≡ is_open w =
        if_cases (λ y. is_open y ≡ is_open w) (frame.header.type == msg_file_end) _ _
          (λ _. emit_keeps LoopEvent.verifying (some p) w) (λ _. refl) in
      after_handle-Leaves p frame.header frame.payload frame.payload_size w'
        (protocol_handle (some p) (some frame.header) frame.payload frame.payload_size w')
        (moved p w w' same i) refl

  -- Where the handler keeps to its laws, and the connection, the progress function and the callback
  -- leave its file alone: a round of the loop from a sound protocol keeps the invariant. Where the
  -- loop returns after it, with whatever result, the protocol is over and no file is open; where
  -- the loop goes on, the protocol is not over.
  pub after_receive-IsSound :
      (p q : ReceiverProtocol W) (result : Option LoopResult) (w w' : W)
      → IsSound is_open ops p w
      → after_receive loop io (some p) (io.receive_frame w) ≡ (result, some q, w')
      → IsSound is_open ops q w'
        × (((result ≡ none) × (is_over q.state ≡ false))
            ⊎ ((result ≢ none) × (is_over q.state ≡ true) × (is_open w' ≡ false)))
  unfolding Leaves
  after_receive-IsSound p q result w w' i e = round_end result (
      subst (λ x. Leaves x) e
        (received-Leaves p (io.receive_frame w) (moved p w _ (keeps.receives w) i)))
    where
      round_end :
          (r : Option LoopResult)
          → Leaves (r, some q, w')
          → IsSound is_open ops q w'
            × (((r ≡ none) × (is_over q.state ≡ false))
                ⊎ ((r ≢ none) × (is_over q.state ≡ true) × (is_open w' ≡ false)))
      round_end none (j, o) = (j, inl (refl, o))
      round_end (some r) (j, o, c) = (j, inr (λ z. cc, o, c))
