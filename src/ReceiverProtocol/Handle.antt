-- ===== src/ReceiverProtocol/Handle.antt =====
-- Handling any message, and aborting, keep the invariant of the protocol.
use printdrop.Prelude.{
  ℕ, ◌≡◌, ◌≢◌, refl, sym, subst, ◌∙◌, Bool, true, false, not, if_cases, true_of_not, ◌||◌, ltb,
  ◌==◌, ==_iff, Option, none, some, List, arith,
}
use printdrop.Protocol.{to_u8, message_type_is_valid, msg_file_begin, msg_chunk, msg_file_end}
use printdrop.Frame.{FrameHeader, frame_max_payload}
use printdrop.ReceiverProtocol.{
  ProtocolState, ProtocolResult, ReceiverProtocolOps, ReceiverProtocol, is_over, is_waiting,
  payload_missing, protocol_fail, handle_message, protocol_handle, protocol_abort,
}
use printdrop.ReceiverProtocol.Invariant.{HandlerLaws, is_receiving, IsSound, Accepts}
use printdrop.ReceiverProtocol.Messages.{
  Leaves, abort_of-closed, fail-Leaves, kept, begin_file-Leaves, write_chunk-Leaves,
  finish_file-Leaves,
}

waiting_of : (x : ProtocolState) → is_waiting x ≡ true → x ≡ ProtocolState.wait_file
waiting_of x e = ground (arith, e)

receiving_of :
    (x : ProtocolState) → is_over x ≡ false → is_waiting x ≡ false → x ≡ ProtocolState.receiving
receiving_of x e f = ground (arith, e, f)

over_receiving : (x : ProtocolState) → is_over x ≡ true → is_receiving x ≡ false
over_receiving x e = ground (arith, e)

module _ {W : Type 0} (is_open : W → Bool) (ops : ReceiverProtocolOps W)
    (laws : HandlerLaws is_open ops) where
  handle_message-Leaves :
      (p : ReceiverProtocol W) (header : FrameHeader) (payload : Option (List ℕ)) (n : ℕ) (w : W)
      → IsSound is_open ops p w
      → Leaves is_open ops laws p header.type (handle_message p ops header payload n w)
  unfolding handle_message
  handle_message-Leaves p header payload n w i =
      let P = Leaves is_open ops laws p header.type in
      let fails : (r : ProtocolResult) → r ≢ ProtocolResult.ok → P (protocol_fail p r w) =
        λ r ne. fail-Leaves is_open ops laws p header.type r w i.table (λ g. i.flag ∙ g) ne in
      if_cases P (is_over p.state) _ _
        (λ e. kept is_open ops laws p header.type ProtocolResult.invalid_state w i (λ e. cc))
        (λ e₁.
          if_cases P
            (not (message_type_is_valid (to_u8 header.type))
              || not (header.flags == 0)
              || ltb frame_max_payload header.payload_length
              || not (header.payload_length == n))
            _ _ (λ e. fails ProtocolResult.malformed_frame (λ e. cc))
            (λ e₂.
              if_cases P (is_waiting p.state) _ _
                (λ e₃.
                  if_cases P (not (header.type == msg_file_begin)) _ _
                    (λ e. fails ProtocolResult.unexpected_message (λ e. cc))
                    (λ e₄.
                      begin_file-Leaves is_open ops laws p header.type payload n w i
                        (waiting_of p.state e₃)
                        ((==_iff header.type msg_file_begin).0 (true_of_not _ e₄))))
                (λ e₃.
                  if_cases P (header.type == msg_chunk) _ _
                    (λ e₄.
                      write_chunk-Leaves is_open ops laws p header.type payload n w i
                        (receiving_of p.state e₁ e₃) ((==_iff header.type msg_chunk).0 e₄))
                    (λ e₄.
                      if_cases P (header.type == msg_file_end) _ _
                        (λ e₅.
                          finish_file-Leaves is_open ops laws p header.type n w i
                            (receiving_of p.state e₁ e₃) ((==_iff header.type msg_file_end).0 e₅))
                        (λ e₅. fails ProtocolResult.unexpected_message (λ e. cc))))))

  protocol_handle-Leaves :
      (p : ReceiverProtocol W) (header : FrameHeader) (payload : Option (List ℕ)) (n : ℕ) (w : W)
      → IsSound is_open ops p w
      → Leaves is_open ops laws p header.type (protocol_handle (some p) (some header) payload n w)
  unfolding protocol_handle
  protocol_handle-Leaves p header payload n w i =
      if_cases (Leaves is_open ops laws p header.type) (payload_missing payload n) _ _
        (λ e. kept is_open ops laws p header.type ProtocolResult.invalid_argument w i (λ e. cc))
        (λ e.
          subst
            (λ (o : Option (ReceiverProtocolOps W)). Leaves is_open ops laws p header.type (elim o [
              | none ↦ (ProtocolResult.invalid_argument, some p, w)
              | some t ↦ handle_message p t header payload n w
            ]))
            (sym i.table) (handle_message-Leaves p header payload n w i))

  -- Where the handler keeps to its laws, handling a message keeps the invariant, whatever the
  -- handler answers: the handler's file is open exactly while the protocol receives. A message is
  -- accepted in three cases only: FILE_BEGIN while the protocol waits for a file, which then
  -- receives; CHUNK while it receives, which changes nothing; and FILE_END while it receives,
  -- which is then complete.
  pub protocol_handle-IsSound :
      (p q : ReceiverProtocol W) (header : FrameHeader) (payload : Option (List ℕ)) (n : ℕ)
      (w w' : W) (result : ProtocolResult)
      → IsSound is_open ops p w
      → protocol_handle (some p) (some header) payload n w ≡ (result, some q, w')
      → IsSound is_open ops q w' × (result ≡ ProtocolResult.ok → Accepts p header.type q)
  unfolding Leaves
  protocol_handle-IsSound p q header payload n w w' result i e =
      subst (λ x. Leaves is_open ops laws p header.type x) e
        (protocol_handle-Leaves p header payload n w i)

  -- Where an abort ends.
  unfoldable Ends : Option (ReceiverProtocol W) × W → Type 0
  Ends (none, w) = ⊥
  Ends (some q, w) = IsSound is_open ops q w × (is_over q.state ≡ true) × (is_open w ≡ false)

  abort-Ends :
      (p : ReceiverProtocol W) (w : W) → IsSound is_open ops p w → Ends (protocol_abort (some p) w)
  unfolding protocol_abort Ends
  abort-Ends p w i =
      if_cases Ends (is_over p.state) (some p, w) _
        (λ e. (i, e, i.flag ∙ i.at_state ∙ over_receiving p.state e))
        (λ e.
          let c =
            abort_of-closed is_open ops laws p.file_active p.ops w i.table (λ g. i.flag ∙ g) in
          (record { table = i.table; flag = c; at_state = refl }, refl, c))

  -- Where the handler keeps to its laws, aborting keeps the invariant, leaves the protocol over
  -- and leaves no file of the handler open.
  pub protocol_abort-IsSound :
      (p q : ReceiverProtocol W) (w w' : W)
      → IsSound is_open ops p w
      → protocol_abort (some p) w ≡ (some q, w')
      → IsSound is_open ops q w' × (is_over q.state ≡ true) × (is_open w' ≡ false)
  unfolding Ends
  protocol_abort-IsSound p q w w' i e = subst (λ x. Ends x) e (abort-Ends p w i)

  -- The two operations give a protocol back.
  pub protocol_handle-some :
      (p : ReceiverProtocol W) (header : FrameHeader) (payload : Option (List ℕ)) (n : ℕ) (w w' : W)
      (result : ProtocolResult)
      → IsSound is_open ops p w
      → ¬ (protocol_handle (some p) (some header) payload n w ≡ (result, none, w'))
  unfolding Leaves
  protocol_handle-some p header payload n w w' result i e =
      subst (λ x. Leaves is_open ops laws p header.type x) e
        (protocol_handle-Leaves p header payload n w i)

  pub protocol_abort-some :
      (p : ReceiverProtocol W) (w w' : W)
      → IsSound is_open ops p w
      → ¬ (protocol_abort (some p) w ≡ (none, w'))
  unfolding Ends
  protocol_abort-some p w w' i e = subst (λ x. Ends x) e (abort-Ends p w i)
