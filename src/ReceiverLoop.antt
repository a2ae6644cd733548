-- ===== src/ReceiverLoop.antt =====
-- src/receiver_loop.c and include/printdrop/receiver_loop.h: frames are received, handled and
-- acknowledged until the file has ended or something fails. The connection, the progress function
-- and the event callback are parameters on the world of the handler. The endless loop runs on fuel,
-- one unit for a frame; `none` says that the fuel was not enough.
pub mod Round
pub mod Keeps
pub mod Ends
pub mod Total
use printdrop.Prelude.{
  ℕ, zero, suc, Bool, true, false, not, ◌||◌, Option, none, some, List, ◌==◌, if◌then◌else◌,
  replicate,
}
use printdrop.Protocol.{msg_file_begin, msg_chunk, msg_file_end, msg_ack}
use printdrop.Frame.{FrameHeader}
use printdrop.Ack.{
  AckResult, ack_encode, ack_payload_size, ack_ok, ack_protocol_error, ack_storage_error,
  ack_rejected,
}
use printdrop.ReceiverProtocol.{
  ReceiverProtocol, ProtocolResult, is_waiting, protocol_handle, protocol_abort,
}

pub data LoopEvent : Type 0 where
  ready file_started progress_made verifying complete failed : LoopEvent

pub data LoopResult : Type 0 where
  ok invalid_argument receive_error protocol_error send_error : LoopResult

-- A frame that was received: its header, and its payload with the size.
pub record Received : Type 0 where
  pub header : FrameHeader
  pub payload : Option (List ℕ)
  pub payload_size : ℕ

-- `receive_frame` gives `none` where the source's gives false.
pub record LoopIoOps (W : Type 0) : Type 0 where
  pub receive_frame : W → Option Received × W
  pub send_frame : FrameHeader → List ℕ → ℕ → W → Bool × W

pub record ReceiverLoop (W : Type 0) : Type 0 where
  pub io_ops : Option (LoopIoOps W)
  pub protocol : Option (ReceiverProtocol W)
  pub progress : Option (W → ℕ × W)
  pub event_callback : Option (LoopEvent → ℕ → ℕ → W → W)

unfoldable pub should_ack : ℕ → Bool
should_ack type = type == msg_file_begin || type == msg_chunk || type == msg_file_end

abbrev pub error_status : ProtocolResult → ℕ
error_status ProtocolResult.handler_error = ack_storage_error
error_status ProtocolResult.invalid_metadata = ack_rejected
error_status _ = ack_protocol_error

abbrev pub is_ok : ProtocolResult → Bool
is_ok ProtocolResult.ok = true
is_ok _ = false

-- What a round of the loop gives: the result of the whole loop where it returns, `none` where it
-- goes on; the protocol and the world.
abbrev pub Round : Type 0 → Type 0
Round W = Option LoopResult × Option (ReceiverProtocol W) × W

module _ {W : Type 0} where
  unfoldable pub received_bytes : ReceiverLoop W → W → ℕ × W
  received_bytes loop w = elim loop.progress [ none ↦ (0, w) | some progress ↦ progress w ]

  unfoldable pub total_bytes : Option (ReceiverProtocol W) → ℕ
  total_bytes none = 0
  total_bytes (some p) = if is_waiting p.state then 0 else p.current_file.file_size

  unfoldable pub emit : ReceiverLoop W → LoopEvent → Option (ReceiverProtocol W) → W → W
  emit loop event protocol w = elim loop.event_callback [
    | none ↦ w
    | some callback ↦
        let (received, w') = received_bytes loop w in
        callback event received (total_bytes protocol) w'
  ]

  unfoldable pub send_encoded : LoopIoOps W → AckResult × Option (List ℕ) → W → Bool × W
  send_encoded io (AckResult.ok, some payload) w =
      io.send_frame (record { type = msg_ack; flags = 0; payload_length = ack_payload_size })
        payload ack_payload_size w
  send_encoded io _ w = (false, w)

  unfoldable pub send_ack : ReceiverLoop W → LoopIoOps W → ℕ → ℕ → W → Bool × W
  send_ack loop io acknowledged_type status w =
      let (received, w') = received_bytes loop w in
      send_encoded io
        (ack_encode
          (some (record {
            acknowledged_type = acknowledged_type;
            status = status;
            received_bytes = received;
          }))
          (some (replicate ack_payload_size 0)))
        w'

  -- The three lines in which the loop gives up.
  unfoldable pub give_up : ReceiverLoop W → LoopResult → Option (ReceiverProtocol W) → W → Round W
  give_up loop result protocol w =
      let (ended, w') = protocol_abort protocol w in
      (some result, ended, emit loop LoopEvent.failed ended w')

  -- The end of a round, with the answer of sending the acknowledgement.
  unfoldable pub after_ack : ReceiverLoop W → ℕ → Option (ReceiverProtocol W) → Bool × W → Round W
  after_ack loop type protocol (false, w) = give_up loop LoopResult.send_error protocol w
  after_ack loop type protocol (true, w) =
      if type == msg_file_begin
      then (none, protocol, emit loop LoopEvent.file_started protocol w)
      else if type == msg_chunk
      then (none, protocol, emit loop LoopEvent.progress_made protocol w)
      else if type == msg_file_end
      then (some LoopResult.ok, protocol, emit loop LoopEvent.complete protocol w)
      else (none, protocol, w)

  -- The round from the answer of the protocol on.
  unfoldable pub after_handle :
      ReceiverLoop W → LoopIoOps W → ℕ → ProtocolResult × Option (ReceiverProtocol W) × W → Round W
  after_handle loop io type (result, protocol, w) =
      if not (is_ok result)
      then give_up loop LoopResult.protocol_error protocol
          (if should_ack type then (send_ack loop io type (error_status result) w).1 else w)
      else after_ack loop type protocol
          (if should_ack type then send_ack loop io type ack_ok w else (true, w))

  -- The round from the received frame on.
  unfoldable pub after_receive :
      ReceiverLoop W → LoopIoOps W → Option (ReceiverProtocol W) → Option Received × W → Round W
  after_receive loop io protocol (none, w) = give_up loop LoopResult.receive_error protocol w
  after_receive loop io protocol (some frame, w) =
      let w' =
        if frame.header.type == msg_file_end then emit loop LoopEvent.verifying protocol w else w in
      after_handle loop io frame.header.type
        (protocol_handle protocol (some frame.header) frame.payload frame.payload_size w')

  unfoldable pub run_rounds :
      ℕ
      → ReceiverLoop W
      → LoopIoOps W
      → Option (ReceiverProtocol W)
      → W
      → Option (LoopResult × Option (ReceiverProtocol W) × W)
  run_rounds zero loop io protocol w = none
  run_rounds (suc fuel) loop io protocol w =
      let (result, protocol', w') = after_receive loop io protocol (io.receive_frame w) in
      elim result [ some r ↦ some (r, protocol', w') | none ↦ run_rounds fuel loop io protocol' w' ]

  unfoldable pub receiver_loop_run :
      ℕ → Option (ReceiverLoop W) → W → Option (LoopResult × Option (ReceiverProtocol W) × W)
  receiver_loop_run fuel none w = some (LoopResult.invalid_argument, none, w)
  receiver_loop_run fuel (some loop) w = elim loop.io_ops [
    | none ↦ some (LoopResult.invalid_argument, loop.protocol, w)
    | some io ↦ elim loop.protocol [
      | none ↦ some (LoopResult.invalid_argument, none, w)
      | some p ↦ run_rounds fuel loop io (some p) (emit loop LoopEvent.ready (some p) w)
    ]
  ]
