-- ===== src/Win32ReceiveHandler/EarlyEnd.antt =====
-- A FILE_END that comes before the last byte of the file.
use printdrop.Prelude.{ℕ, ◌≡◌, ◌≢◌, refl, ap, ◌∙◌, Bool, true, false, none, some, List, arith}
use printdrop.Protocol.{msg_file_end, message_type_is_valid}
use printdrop.Frame.{FrameHeader}
use printdrop.FileBegin.{FileBegin}
use printdrop.FileReceive.{FileReceiveState, FileReceiveResult, FileReceiver, receiver_finish}
use printdrop.ReceiverProtocol.{
  ProtocolState, ProtocolResult, ReceiverProtocol, protocol_fail, after_finish, finish_file,
  handle_message, protocol_handle, protocol_abort,
}
use printdrop.Win32ReceiveHandler.{
  Devices, Win32ReceiveHandler, System, report, handler_finish, handler_abort, joined, handler_ops,
}

finish_incomplete :
    {W : Type 0} (r : FileReceiver W) (w : W)
    → r.state ≡ FileReceiveState.receiving
    → r.received_bytes ≢ r.expected_bytes
    → receiver_finish (some r) w ≡ (FileReceiveResult.incomplete, some r, w)
unfolding receiver_finish
finish_incomplete r w e n = ground (arith, e, n)

-- The header of a FILE_END.
abbrev pub file_end_header : FrameHeader
file_end_header = record { type = msg_file_end; flags = 0; payload_length = 0 }

module _ {S : Type 0} (system : System S) where
  finish_early :
      (handler : Win32ReceiveHandler S) (d : Devices S)
      → handler.active ≡ true
      → handler.receiver.state ≡ FileReceiveState.receiving
      → handler.receiver.received_bytes ≢ handler.receiver.expected_bytes
      → handler_finish system handler d ≡ (false, record handler { active = false }, d)
  unfolding handler_finish report
  finish_early handler d a e n = rw (a, finish_incomplete handler.receiver d e n) refl

  abort_inactive :
      (handler : Win32ReceiveHandler S) (d : Devices S)
      → handler.active ≡ false
      → handler_abort system handler d ≡ (handler, d)
  unfolding handler_abort
  abort_inactive handler d a = rw a refl

  -- A protocol on this handler, with a file announced.
  abbrev pub protocol_at :
      ProtocolState
      → Bool
      → FileBegin
      → List ℕ
      → ReceiverProtocol (Win32ReceiveHandler S × Devices S)
  protocol_at state active file name = record {
    ops = some (handler_ops system);
    current_file = file;
    sanitized_filename = name;
    state = state;
    file_active = active;
  }

  -- Where a FILE_END comes while a file is being received whose bytes are not all there, an active
  -- handler leaves it at that: the protocol fails and the handler is inactive, but the devices are as
  -- they were, the file and the hash still open if they were and the staging file still there; and
  -- that the protocol is then aborted changes nothing more.
  pub early_end-keeps_open :
      (file : FileBegin) (name : List ℕ) (handler : Win32ReceiveHandler S) (d : Devices S)
      → handler.active ≡ true
      → handler.receiver.state ≡ FileReceiveState.receiving
      → handler.receiver.received_bytes ≢ handler.receiver.expected_bytes
      → (protocol_handle
            (some (protocol_at ProtocolState.receiving true file name))
            (some file_end_header)
            none
            0
            (handler, d)
          ≡ (
            ProtocolResult.handler_error,
            some (protocol_at ProtocolState.failed false file name),
            (record handler { active = false }, d),
          ))
        × (protocol_abort
              (some (protocol_at ProtocolState.failed false file name))
              (record handler { active = false }, d)
            ≡ (
              some (protocol_at ProtocolState.failed false file name),
              (record handler { active = false }, d),
            ))
  unfolding protocol_handle handle_message finish_file after_finish protocol_fail protocol_abort
      handler_ops message_type_is_valid
  early_end-keeps_open file name handler d a e n =
      let p = protocol_at ProtocolState.receiving true file name in
      (
        ap (λ o. after_finish p (joined o)) (finish_early handler d a e n)
            ∙ ap
                (λ w. (
                  ProtocolResult.handler_error,
                  some (protocol_at ProtocolState.failed false file name),
                  w,
                ))
                (abort_inactive (record handler { active = false }) d refl),
        refl,
      )
