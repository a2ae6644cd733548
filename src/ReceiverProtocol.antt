-- ===== src/ReceiverProtocol.antt =====
-- src/receiver_protocol.c and include/printdrop/receiver_protocol.h: the messages of one file, in
-- order. The handler is a parameter, a table of operations on a world `W` that stands for what its
-- context points to; the table is `none` where the source's is NULL or lacks an entry. Pointers are
-- as in Frame.antt; each operation gives back the protocol and the world.
pub mod Invariant
pub mod Messages
pub mod Handle
use printdrop.Prelude.{
  ℕ, ◌+◌, Bool, true, false, not, ◌&&◌, ◌||◌, Option, none, some, List, [], ltb, ◌==◌,
  if◌then◌else◌, take, replicate,
}
use printdrop.Bytes.{store}
use printdrop.Bytes.Text.{strlen}
use printdrop.Protocol.{to_u8, message_type_is_valid, msg_file_begin, msg_chunk, msg_file_end}
use printdrop.Frame.{FrameHeader, frame_max_payload}
use printdrop.FileBegin.{
  FileBegin, FileBeginResult, file_begin_decode, sha256_bytes, filename_capacity,
}
use printdrop.Filename.{FilenameResult, filename_sanitize}

pub data ProtocolState : Type 0 where
  wait_file receiving complete failed : ProtocolState

pub data ProtocolResult : Type 0 where
  ok invalid_argument invalid_state malformed_frame : ProtocolResult
  unexpected_message invalid_metadata handler_error : ProtocolResult

pub record ReceiverProtocolOps (W : Type 0) : Type 0 where
  pub begin_file : FileBegin → List ℕ → W → Bool × W
  pub write_chunk : List ℕ → ℕ → W → Bool × W
  pub finish_file : W → Bool × W
  pub abort_file : W → W

pub record ReceiverProtocol (W : Type 0) : Type 0 where
  pub ops : Option (ReceiverProtocolOps W)
  pub current_file : FileBegin
  pub sanitized_filename : List ℕ
  pub state : ProtocolState
  pub file_active : Bool

abbrev pub Outcome : Type 0 → Type 0
Outcome W = ProtocolResult × Option (ReceiverProtocol W) × W

-- A zeroed `pd_file_begin`, and the local one before it is decoded into.
abbrev pub no_file : FileBegin
no_file = record {
  file_size = 0;
  sha256 = replicate sha256_bytes 0;
  filename = replicate filename_capacity 0;
}

-- COMPLETE or FAILED.
abbrev pub is_over : ProtocolState → Bool
is_over ProtocolState.complete = true
is_over ProtocolState.failed = true
is_over _ = false

abbrev pub is_waiting : ProtocolState → Bool
is_waiting ProtocolState.wait_file = true
is_waiting _ = false

-- The tests of the pointers: `payload == NULL && payload_size != 0`.
abbrev pub payload_missing : Option (List ℕ) → ℕ → Bool
payload_missing none payload_size = not (payload_size == 0)
payload_missing (some payload) payload_size = false

module _ {W : Type 0} where
  abbrev pub ops_valid : Option (ReceiverProtocolOps W) → Bool
  ops_valid none = false
  ops_valid (some ops) = true

  -- The call of `abort_file`, which C does not define through NULL.
  abbrev pub abort_of : Option (ReceiverProtocolOps W) → W → W
  abort_of none w = w
  abort_of (some ops) w = ops.abort_file w

  unfoldable pub protocol_fail : ReceiverProtocol W → ProtocolResult → W → Outcome W
  protocol_fail p result w = (
    result,
    some (record p { file_active = false; state = ProtocolState.failed }),
    (if p.file_active then abort_of p.ops w else w),
  )

  unfoldable pub protocol_init :
      Option (ReceiverProtocol W) → Option (ReceiverProtocolOps W) → W → Outcome W
  protocol_init none ops w = (ProtocolResult.invalid_argument, none, w)
  protocol_init (some p) none w = (ProtocolResult.invalid_argument, some p, w)
  protocol_init (some p) (some ops) w = (
    ProtocolResult.ok,
    some (record {
      ops = some ops;
      current_file = no_file;
      sanitized_filename = replicate filename_capacity 0;
      state = ProtocolState.wait_file;
      file_active = false;
    }),
    w,
  )

  -- `begin_file` with the answer of the handler.
  unfoldable pub after_begin : ReceiverProtocol W → FileBegin → List ℕ → Bool × W → Outcome W
  after_begin p metadata sanitized (false, w) = protocol_fail p ProtocolResult.handler_error w
  after_begin p metadata sanitized (true, w) = (
    ProtocolResult.ok,
    some (record p {
      current_file = metadata;
      sanitized_filename = store 0 (take (strlen sanitized + 1) sanitized) p.sanitized_filename;
      file_active = true;
      state = ProtocolState.receiving;
    }),
    w,
  )

  -- `begin_file` with the sanitized name.
  unfoldable pub after_sanitize :
      ReceiverProtocol W
      → ReceiverProtocolOps W
      → FileBegin
      → FilenameResult × Option (List ℕ) × Option ℕ
      → W
      → Outcome W
  after_sanitize p ops metadata (FilenameResult.ok, some sanitized, required) w =
      after_begin p metadata sanitized (ops.begin_file metadata sanitized w)
  after_sanitize p ops metadata _ w = protocol_fail p ProtocolResult.invalid_metadata w

  -- `begin_file` with the decoded metadata.
  unfoldable pub after_decode :
      ReceiverProtocol W
      → ReceiverProtocolOps W
      → FileBeginResult × Option FileBegin
      → W
      → Outcome W
  after_decode p ops (FileBeginResult.ok, some metadata) w =
      after_sanitize p ops metadata
        (filename_sanitize (some metadata.filename) (some (replicate filename_capacity 0))
          filename_capacity none)
        w
  after_decode p ops _ w = protocol_fail p ProtocolResult.invalid_metadata w

  unfoldable pub begin_file :
      ReceiverProtocol W → ReceiverProtocolOps W → Option (List ℕ) → ℕ → W → Outcome W
  begin_file p ops payload payload_size w =
      after_decode p ops (file_begin_decode payload payload_size (some no_file)) w

  unfoldable pub after_write : ReceiverProtocol W → Bool × W → Outcome W
  after_write p (false, w) = protocol_fail p ProtocolResult.handler_error w
  after_write p (true, w) = (ProtocolResult.ok, some p, w)

  unfoldable pub write_chunk :
      ReceiverProtocol W → ReceiverProtocolOps W → Option (List ℕ) → ℕ → W → Outcome W
  write_chunk p ops none payload_size w = protocol_fail p ProtocolResult.malformed_frame w
  write_chunk p ops (some payload) payload_size w =
      if payload_size == 0 || ltb frame_max_payload payload_size
      then protocol_fail p ProtocolResult.malformed_frame w
      else after_write p (ops.write_chunk payload payload_size w)

  unfoldable pub after_finish : ReceiverProtocol W → Bool × W → Outcome W
  after_finish p (false, w) = protocol_fail p ProtocolResult.handler_error w
  after_finish p (true, w) = (
    ProtocolResult.ok,
    some (record p { file_active = false; state = ProtocolState.complete }),
    w,
  )

  unfoldable pub finish_file : ReceiverProtocol W → ReceiverProtocolOps W → ℕ → W → Outcome W
  finish_file p ops payload_size w =
      if not (payload_size == 0)
      then protocol_fail p ProtocolResult.malformed_frame w
      else after_finish p (ops.finish_file w)

  -- `pd_receiver_protocol_handle` behind the tests of its pointers.
  unfoldable pub handle_message :
      ReceiverProtocol W → ReceiverProtocolOps W → FrameHeader → Option (List ℕ) → ℕ → W → Outcome W
  handle_message p ops header payload payload_size w =
      if is_over p.state
      then (ProtocolResult.invalid_state, some p, w)
      else if not (message_type_is_valid (to_u8 header.type))
          || not (header.flags == 0)
          || ltb frame_max_payload header.payload_length
          || not (header.payload_length == payload_size)
      then protocol_fail p ProtocolResult.malformed_frame w
      else if is_waiting p.state
      then if not (header.type == msg_file_begin)
        then protocol_fail p ProtocolResult.unexpected_message w
        else begin_file p ops payload payload_size w
      else if header.type == msg_chunk
      then write_chunk p ops payload payload_size w
      else if header.type == msg_file_end
      then finish_file p ops payload_size w
      else protocol_fail p ProtocolResult.unexpected_message w

  unfoldable pub protocol_handle :
      Option (ReceiverProtocol W) → Option FrameHeader → Option (List ℕ) → ℕ → W → Outcome W
  protocol_handle none header payload payload_size w = (ProtocolResult.invalid_argument, none, w)
  protocol_handle (some p) none payload payload_size w =
      (ProtocolResult.invalid_argument, some p, w)
  protocol_handle (some p) (some header) payload payload_size w =
      if payload_missing payload payload_size
      then (ProtocolResult.invalid_argument, some p, w)
      else elim p.ops [
        | none ↦ (ProtocolResult.invalid_argument, some p, w)
        | some ops ↦ handle_message p ops header payload payload_size w
      ]

  unfoldable pub protocol_abort : Option (ReceiverProtocol W) → W → Option (ReceiverProtocol W) × W
  protocol_abort none w = (none, w)
  protocol_abort (some p) w = if is_over p.state then (some p, w) else (
    some (record p { file_active = false; state = ProtocolState.failed }),
    (if p.file_active then abort_of p.ops w else w),
  )
