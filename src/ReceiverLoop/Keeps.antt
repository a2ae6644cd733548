-- ===== src/ReceiverLoop/Keeps.antt =====
-- What no call but `receive_frame` changes of the world, a round changes by that call alone.
use printdrop.Prelude.{
  ℕ, ◌≡◌, sym, subst, Bool, true, false, if_cases, Option, none, some, not, ◌||◌, ltb, ◌==◌, List,
  if◌then◌else◌,
}
use printdrop.Protocol.{msg_file_begin, msg_chunk, msg_file_end, to_u8, message_type_is_valid}
use printdrop.Frame.{FrameHeader, frame_max_payload}
use printdrop.FileBegin.{FileBegin, FileBeginResult}
use printdrop.Filename.{FilenameResult}
use printdrop.ReceiverProtocol.{
  ProtocolResult, ReceiverProtocol, ReceiverProtocolOps, Outcome, abort_of, is_over, is_waiting,
  payload_missing, protocol_fail, after_begin, after_sanitize, after_decode, begin_file,
  after_write, write_chunk, after_finish, finish_file, handle_message, protocol_handle,
  protocol_abort,
}
use printdrop.ReceiverLoop.{LoopEvent, LoopIoOps, ReceiverLoop}

-- What holds of a world still holds after each call of the handler and of the connection's sender,
-- the progress function and the callback.
pub record Keeps {W : Type 0} (P : W → Type 0) (ops : ReceiverProtocolOps W) (loop : ReceiverLoop W)
    (io : LoopIoOps W) : Type 0 where
  pub begins : (f : FileBegin) (name : List ℕ) (w : W) → P w → P (ops.begin_file f name w).1
  pub writes : (xs : List ℕ) (n : ℕ) (w : W) → P w → P (ops.write_chunk xs n w).1
  pub finishes : (w : W) → P w → P (ops.finish_file w).1
  pub aborts : (w : W) → P w → P (ops.abort_file w)
  pub sends :
      (header : FrameHeader) (xs : List ℕ) (n : ℕ) (w : W) → P w → P (io.send_frame header xs n w).1
  pub progresses : (f : W → ℕ × W) (w : W) → loop.progress ≡ some f → P w → P (f w).1
  pub reports :
      (f : LoopEvent → ℕ → ℕ → W → W) (event : LoopEvent) (a b : ℕ) (w : W)
      → loop.event_callback ≡ some f
      → P w
      → P (f event a b w)

module _ {W : Type 0} (P : W → Type 0) (ops : ReceiverProtocolOps W) (loop : ReceiverLoop W)
    (io : LoopIoOps W) (k : Keeps P ops loop io) where
  -- A protocol on this handler, in a world where `P` holds.
  unfoldable pub Stays : Option (ReceiverProtocol W) × W → Type 0
  Stays (none, w) = ⊥
  Stays (some p, w) = (p.ops ≡ some ops) × P w

  abbrev StaysIn : Outcome W → Type 0
  StaysIn o = Stays (o.1, o.2)

  aborted :
      (b : Bool) (t : Option (ReceiverProtocolOps W)) (w : W)
      → t ≡ some ops
      → P w
      → P (if b then abort_of t w else w)
  aborted true t w e h = subst (λ o. P (abort_of o w)) (sym e) (k.aborts w h)
  aborted false t w e h = h

  fail-Stays :
      (p : ReceiverProtocol W) (result : ProtocolResult) (w : W)
      → p.ops ≡ some ops
      → P w
      → StaysIn (protocol_fail p result w)
  unfolding protocol_fail Stays
  fail-Stays p result w e h = (e, aborted p.file_active p.ops w e h)

  after_begin-Stays :
      (p : ReceiverProtocol W) (f : FileBegin) (name : List ℕ) (x : Bool × W)
      → p.ops ≡ some ops
      → P x.1
      → StaysIn (after_begin p f name x)
  unfolding after_begin Stays
  after_begin-Stays p f name (true, w) e h = (e, h)
  after_begin-Stays p f name (false, w) e h = fail-Stays p ProtocolResult.handler_error w e h

  after_sanitize-Stays :
      (p : ReceiverProtocol W) (f : FileBegin) (x : FilenameResult × Option (List ℕ) × Option ℕ)
      (w : W)
      → p.ops ≡ some ops
      → P w
      → StaysIn (after_sanitize p ops f x w)
  unfolding after_sanitize
  after_sanitize-Stays p f (FilenameResult.ok, some name, r) w e h =
      after_begin-Stays p f name (ops.begin_file f name w) e (k.begins f name w h)
  after_sanitize-Stays p f (FilenameResult.ok, none, r) w e h = fail-Stays p _ w e h
  after_sanitize-Stays p f (_, o, r) w e h = fail-Stays p _ w e h

  after_decode-Stays :
      (p : ReceiverProtocol W) (x : FileBeginResult × Option FileBegin) (w : W)
      → p.ops ≡ some ops
      → P w
      → StaysIn (after_decode p ops x w)
  unfolding after_decode
  after_decode-Stays p (FileBeginResult.ok, some f) w e h = after_sanitize-Stays p f _ w e h
  after_decode-Stays p (FileBeginResult.ok, none) w e h = fail-Stays p _ w e h
  after_decode-Stays p (_, o) w e h = fail-Stays p _ w e h

  after_write-Stays :
      (p : ReceiverProtocol W) (x : Bool × W) → p.ops ≡ some ops → P x.1 → StaysIn (after_write p x)
  unfolding after_write Stays
  after_write-Stays p (true, w) e h = (e, h)
  after_write-Stays p (false, w) e h = fail-Stays p ProtocolResult.handler_error w e h

  write_chunk-Stays :
      (p : ReceiverProtocol W) (payload : Option (List ℕ)) (n : ℕ) (w : W)
      → p.ops ≡ some ops
      → P w
      → StaysIn (write_chunk p ops payload n w)
  unfolding write_chunk
  write_chunk-Stays p none n w e h = fail-Stays p _ w e h
  write_chunk-Stays p (some payload) n w e h =
      if_cases StaysIn (n == 0 || ltb frame_max_payload n) _ _ (λ _. fail-Stays p _ w e h)
        (λ _. after_write-Stays p (ops.write_chunk payload n w) e (k.writes payload n w h))

  after_finish-Stays :
      (p : ReceiverProtocol W) (x : Bool × W)
      → p.ops ≡ some ops
      → P x.1
      → StaysIn (after_finish p x)
  unfolding after_finish Stays
  after_finish-Stays p (true, w) e h = (e, h)
  after_finish-Stays p (false, w) e h = fail-Stays p ProtocolResult.handler_error w e h

  finish_file-Stays :
      (p : ReceiverProtocol W) (n : ℕ) (w : W)
      → p.ops ≡ some ops
      → P w
      → StaysIn (finish_file p ops n w)
  unfolding finish_file
  finish_file-Stays p n w e h =
      if_cases StaysIn (not (n == 0)) _ _ (λ _. fail-Stays p _ w e h)
        (λ _. after_finish-Stays p (ops.finish_file w) e (k.finishes w h))

  handle_message-Stays :
      (p : ReceiverProtocol W) (header : FrameHeader) (payload : Option (List ℕ)) (n : ℕ) (w : W)
      → p.ops ≡ some ops
      → P w
      → StaysIn (handle_message p ops header payload n w)
  unfolding handle_message begin_file Stays
  handle_message-Stays p header payload n w e h =
      let C = if_cases (λ (o : Outcome W). StaysIn o) in
      C (is_over p.state) _ _ (λ _. (e, h))
        (λ _.
          C
            (not (message_type_is_valid (to_u8 header.type))
              || not (header.flags == 0)
              || ltb frame_max_payload header.payload_length
              || not (header.payload_length == n))
            _ _ (λ _. fail-Stays p _ w e h)
            (λ _.
              C (is_waiting p.state) _ _
                (λ _.
                  C (not (header.type == msg_file_begin)) _ _ (λ _. fail-Stays p _ w e h)
                    (λ _. after_decode-Stays p _ w e h))
                (λ _.
                  C (header.type == msg_chunk) _ _ (λ _. write_chunk-Stays p payload n w e h)
                    (λ _.
                      C (header.type == msg_file_end) _ _ (λ _. finish_file-Stays p n w e h)
                        (λ _. fail-Stays p _ w e h)))))

  pub protocol_handle-Stays :
      (p : ReceiverProtocol W) (header : FrameHeader) (payload : Option (List ℕ)) (n : ℕ) (w : W)
      → p.ops ≡ some ops
      → P w
      → StaysIn (protocol_handle (some p) (some header) payload n w)
  unfolding protocol_handle Stays
  protocol_handle-Stays p header payload n w e h =
      if_cases (λ (o : Outcome W). StaysIn o) (payload_missing payload n) _ _ (λ _. (e, h))
        (λ _.
          subst
            (λ t. StaysIn (elim t [
              | none ↦ (ProtocolResult.invalid_argument, some p, w)
              | some ops ↦ handle_message p ops header payload n w
            ]))
            (sym e) (handle_message-Stays p header payload n w e h))

  pub protocol_abort-Stays :
      (p : ReceiverProtocol W) (w : W) → p.ops ≡ some ops → P w → Stays (protocol_abort (some p) w)
  unfolding protocol_abort Stays
  protocol_abort-Stays p w e h =
      if_cases Stays (is_over p.state) _ _ (λ _. (e, h))
        (λ _. (e, aborted p.file_active p.ops w e h))
