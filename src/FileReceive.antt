-- ===== src/FileReceive.antt =====
-- src/file_receive.c and include/printdrop/file_receive.h: receiving one file into a sink, with an
-- optional digest. The sink and the hash are parameters, tables of operations on a world `W` that
-- stands for what their contexts point to. A table is `none` where the source's is NULL or lacks an
-- entry. A NULL receiver is `none` too; each operation gives back the receiver and the world.
pub mod Laws
pub mod Invariant
pub mod Begin
pub mod Write
pub mod Finish
pub mod Run
pub mod Closing
use printdrop.Prelude.{
  ℕ, ◌+◌, ◌-◌, ◌%◌, ◌^◌, Bool, true, false, not, ◌||◌, Option, none, some, List, ltb, ◌==◌,
  if◌then◌else◌, replicate, take,
}
use printdrop.Frame.{frame_max_payload}
use printdrop.FileBegin.{sha256_bytes}
use printdrop.Integrity.{IntegrityOps, IntegrityStatus, digest_equal}

pub data FileSinkStatus : Type 0 where
  ok io_error : FileSinkStatus

-- `write` also says how many bytes it wrote.
pub record FileSinkOps (W : Type 0) : Type 0 where
  pub begin : ℕ → W → FileSinkStatus × W
  pub write : List ℕ → ℕ → W → FileSinkStatus × ℕ × W
  pub commit : W → FileSinkStatus × W
  pub abort : W → W

pub data FileReceiveState : Type 0 where
  idle receiving complete failed aborted : FileReceiveState

pub data FileReceiveResult : Type 0 where
  ok invalid_argument invalid_state chunk_too_large exceeds_expected_size : FileReceiveResult
  incomplete sink_error integrity_error integrity_mismatch : FileReceiveResult

pub record FileReceiver (W : Type 0) : Type 0 where
  pub sink_ops : Option (FileSinkOps W)
  pub integrity_ops : Option (IntegrityOps W)
  pub expected_sha256 : List ℕ
  pub expected_bytes : ℕ
  pub received_bytes : ℕ
  pub state : FileReceiveState
  pub sink_started : Bool
  pub integrity_configured : Bool
  pub integrity_started : Bool

abbrev pub is_idle : FileReceiveState → Bool
is_idle FileReceiveState.idle = true
is_idle _ = false

abbrev pub is_receiving : FileReceiveState → Bool
is_receiving FileReceiveState.receiving = true
is_receiving _ = false

-- What an operation gives back: its result, the receiver and the world.
abbrev pub Outcome : Type 0 → Type 0
Outcome W = FileReceiveResult × Option (FileReceiver W) × W

module _ {W : Type 0} where
  abbrev pub sink_is_configured : Option (FileSinkOps W) → Bool
  sink_is_configured none = false
  sink_is_configured (some ops) = true

  -- The table behind a pointer. C does not define a call through NULL: no operation here makes one
  -- on a receiver that `init` and the other operations have made.
  abbrev pub sink_of : Option (FileSinkOps W) → FileSinkOps W
  sink_of (some ops) = ops
  sink_of none = record {
    begin = λ n w. (FileSinkStatus.io_error, w);
    write = λ bytes n w. (FileSinkStatus.io_error, 0, w);
    commit = λ w. (FileSinkStatus.io_error, w);
    abort = λ w. w;
  }

  abbrev pub integrity_of : Option (IntegrityOps W) → IntegrityOps W
  integrity_of (some ops) = ops
  integrity_of none = record {
    begin = λ w. (IntegrityStatus.error, w);
    update = λ bytes n w. (IntegrityStatus.error, w);
    finish = λ w. (IntegrityStatus.error, replicate 32 0, w);
    abort = λ w. w;
  }

  unfoldable pub abort_resources : FileReceiver W → W → FileReceiver W × W
  abort_resources r w =
      let hashed = if r.integrity_started then (integrity_of r.integrity_ops).abort w else w in
      let ended = if r.sink_started then (sink_of r.sink_ops).abort hashed else hashed in
      (record r { integrity_started = false; sink_started = false }, ended)

  unfoldable pub receiver_fail : FileReceiver W → FileReceiveResult → W → Outcome W
  receiver_fail r result w =
      let (ended, w') = abort_resources r w in
      (result, some (record ended { state = FileReceiveState.failed }), w')

  unfoldable pub receiver_init :
      Option (FileReceiver W) → Option (FileSinkOps W) → ℕ → W → Outcome W
  receiver_init none sink_ops expected_bytes w = (FileReceiveResult.invalid_argument, none, w)
  receiver_init (some r) none expected_bytes w = (FileReceiveResult.invalid_argument, some r, w)
  receiver_init (some r) (some sink_ops) expected_bytes w = (
    FileReceiveResult.ok,
    some (record {
      sink_ops = some sink_ops;
      integrity_ops = none;
      expected_sha256 = replicate sha256_bytes 0;
      expected_bytes = expected_bytes;
      received_bytes = 0;
      state = FileReceiveState.idle;
      sink_started = false;
      integrity_configured = false;
      integrity_started = false;
    }),
    w,
  )

  unfoldable pub configure_integrity :
      Option (FileReceiver W) → Option (IntegrityOps W) → Option (List ℕ) → W → Outcome W
  configure_integrity none integrity_ops expected w = (FileReceiveResult.invalid_argument, none, w)
  configure_integrity (some r) none expected w = (FileReceiveResult.invalid_argument, some r, w)
  configure_integrity (some r) (some ops) none w = (FileReceiveResult.invalid_argument, some r, w)
  configure_integrity (some r) (some ops) (some expected) w =
      if not (is_idle r.state) || r.sink_started
      then (FileReceiveResult.invalid_state, some r, w)
      else (
        FileReceiveResult.ok,
        some (record r {
          integrity_ops = some ops;
          expected_sha256 = take sha256_bytes expected;
          integrity_configured = true;
        }),
        w,
      )

  -- `pd_file_receiver_begin` with the status of the hash.
  unfoldable pub after_hash_begin : FileReceiver W → IntegrityStatus × W → Outcome W
  after_hash_begin r (IntegrityStatus.error, w) =
      receiver_fail r FileReceiveResult.integrity_error w
  after_hash_begin r (IntegrityStatus.ok, w) = (
    FileReceiveResult.ok,
    some (record r { integrity_started = true; state = FileReceiveState.receiving }),
    w,
  )

  -- `pd_file_receiver_begin` with the status of the sink.
  unfoldable pub after_sink_begin : FileReceiver W → FileSinkStatus × W → Outcome W
  after_sink_begin r (FileSinkStatus.io_error, w) =
      (FileReceiveResult.sink_error, some (record r { state = FileReceiveState.failed }), w)
  after_sink_begin r (FileSinkStatus.ok, w) =
      let started = record r { sink_started = true } in
      if r.integrity_configured
      then after_hash_begin started ((integrity_of r.integrity_ops).begin w)
      else (FileReceiveResult.ok, some (record started { state = FileReceiveState.receiving }), w)

  unfoldable pub receiver_begin : Option (FileReceiver W) → W → Outcome W
  receiver_begin none w = (FileReceiveResult.invalid_argument, none, w)
  receiver_begin (some r) w =
      if not (sink_is_configured r.sink_ops)
      then (FileReceiveResult.invalid_argument, some r, w)
      else if not (is_idle r.state)
      then (FileReceiveResult.invalid_state, some r, w)
      else after_sink_begin r ((sink_of r.sink_ops).begin r.expected_bytes w)

  unfoldable pub after_update : FileReceiver W → ℕ → IntegrityStatus × W → Outcome W
  after_update r data_size (IntegrityStatus.error, w) =
      receiver_fail r FileReceiveResult.integrity_error w
  after_update r data_size (IntegrityStatus.ok, w) = (
    FileReceiveResult.ok,
    some (record r { received_bytes = (r.received_bytes + data_size) % 2 ^ 64 }),
    w,
  )

  unfoldable pub after_sink_write : FileReceiver W → List ℕ → ℕ → FileSinkStatus × ℕ × W → Outcome W
  after_sink_write r bytes data_size (FileSinkStatus.io_error, bytes_written, w) =
      receiver_fail r FileReceiveResult.sink_error w
  after_sink_write r bytes data_size (FileSinkStatus.ok, bytes_written, w) =
      if not (bytes_written == data_size)
      then receiver_fail r FileReceiveResult.sink_error w
      else if r.integrity_configured
      then after_update r data_size ((integrity_of r.integrity_ops).update bytes data_size w)
      else after_update r data_size (IntegrityStatus.ok, w)

  -- The part of `pd_file_receiver_write` behind the test of the pointers.
  unfoldable pub write_chunk : FileReceiver W → List ℕ → ℕ → W → Outcome W
  write_chunk r bytes data_size w =
      if not (is_receiving r.state)
      then (FileReceiveResult.invalid_state, some r, w)
      else if data_size == 0
      then (FileReceiveResult.invalid_argument, some r, w)
      else if ltb frame_max_payload data_size
      then (FileReceiveResult.chunk_too_large, some r, w)
      else if ltb r.expected_bytes r.received_bytes
          || ltb (r.expected_bytes - r.received_bytes) data_size
      then (FileReceiveResult.exceeds_expected_size, some r, w)
      else after_sink_write r bytes data_size ((sink_of r.sink_ops).write bytes data_size w)

  -- A NULL `data` with a size of 0 goes on as no bytes.
  unfoldable pub receiver_write : Option (FileReceiver W) → Option (List ℕ) → ℕ → W → Outcome W
  receiver_write none bytes data_size w = (FileReceiveResult.invalid_argument, none, w)
  receiver_write (some r) none data_size w =
      if not (data_size == 0)
      then (FileReceiveResult.invalid_argument, some r, w)
      else write_chunk r List.[] data_size w
  receiver_write (some r) (some bytes) data_size w = write_chunk r bytes data_size w

  unfoldable pub after_commit : FileReceiver W → FileSinkStatus × W → Outcome W
  after_commit r (FileSinkStatus.io_error, w) = receiver_fail r FileReceiveResult.sink_error w
  after_commit r (FileSinkStatus.ok, w) = (
    FileReceiveResult.ok,
    some (record r { sink_started = false; state = FileReceiveState.complete }),
    w,
  )

  -- `pd_file_receiver_finish` with the digest of the hash.
  unfoldable pub after_digest : FileReceiver W → IntegrityStatus × List ℕ × W → Outcome W
  after_digest r (IntegrityStatus.error, actual, w) =
      receiver_fail r FileReceiveResult.integrity_error w
  after_digest r (IntegrityStatus.ok, actual, w) =
      let hashed = record r { integrity_started = false } in
      if not (digest_equal (some actual) (some r.expected_sha256))
      then (
        FileReceiveResult.integrity_mismatch,
        some (record hashed { sink_started = false; state = FileReceiveState.failed }),
        (if r.sink_started then (sink_of r.sink_ops).abort w else w),
      )
      else after_commit hashed ((sink_of r.sink_ops).commit w)

  unfoldable pub receiver_finish : Option (FileReceiver W) → W → Outcome W
  receiver_finish none w = (FileReceiveResult.invalid_argument, none, w)
  receiver_finish (some r) w =
      if not (is_receiving r.state)
      then (FileReceiveResult.invalid_state, some r, w)
      else if not (r.received_bytes == r.expected_bytes)
      then (FileReceiveResult.incomplete, some r, w)
      else if not r.integrity_configured
      then after_commit r ((sink_of r.sink_ops).commit w)
      else if not r.integrity_started
      then receiver_fail r FileReceiveResult.integrity_error w
      else after_digest r ((integrity_of r.integrity_ops).finish w)

  unfoldable pub receiver_abort : Option (FileReceiver W) → W → Option (FileReceiver W) × W
  receiver_abort none w = (none, w)
  receiver_abort (some r) w =
      let (ended, w') = abort_resources r w in
      if not (is_receiving r.state)
      then (some r, w)
      else (some (record ended { state = FileReceiveState.aborted }), w')
