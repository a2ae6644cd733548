-- ===== src/Win32ReceiveHandler.antt =====
-- src/win32_receive_handler.c and include/printdrop/win32_receive_handler.h: the handler of the
-- receiver protocol, which receives a file with a file receiver into a file sink, with a hash. The
-- sink and the hash, to which the receiver holds pointers, and the system that they call are the
-- devices, the world of the file receiver; a handler and its devices are the world of the protocol.
-- The context of the operations is that handler and not NULL.
pub mod Flag
pub mod DevicesClose
pub mod Closing
pub mod EarlyEnd
use printdrop.Prelude.{
  ℕ, ◌+◌, Bool, true, false, not, ◌||◌, Option, none, some, List, [], ◌∷◌, ◌++◌, ltb, ◌==◌,
  if◌then◌else◌, replicate,
}
use printdrop.Bytes.{store, at}
use printdrop.Bytes.Text.{strlen, text_of}
use printdrop.Integrity.{IntegrityOps, IntegrityStatus}
use printdrop.FileBegin.{FileBegin, sha256_bytes}
use printdrop.FileReceive.{
  FileSinkOps, FileSinkStatus, FileReceiveState, FileReceiveResult, FileReceiver, Outcome,
  receiver_init, configure_integrity, receiver_begin, receiver_write, receiver_finish,
  receiver_abort,
}
use printdrop.JobId.{JobIdResult, job_id_capacity, job_id_create}
use printdrop.ReceiverProtocol.{ReceiverProtocolOps}
use printdrop.Win32FileSink.{
  FileApi, FileSink, Win32SinkResult, win32_path_capacity, null_handle, sink_begin, sink_write,
  sink_commit, sink_abort,
}
use printdrop.Win32FileSink.Init.{sink_init}
use printdrop.Win32Random.{win32_random_fill}
use printdrop.Win32Sha256.{
  CryptoApi, Sha256, sha256_init, sha256_begin, sha256_update, sha256_finish, sha256_abort,
}

pub data Win32ReceiveHandlerResult : Type 0 where
  ok invalid_argument path_too_long : Win32ReceiveHandlerResult

pub record Devices (S : Type 0) : Type 0 where
  pub sink : FileSink
  pub sha256 : Sha256
  pub system : S

pub record Win32ReceiveHandler (S : Type 0) : Type 0 where
  pub root_directory : List ℕ
  pub job_id : List ℕ
  pub receiver : FileReceiver (Devices S)
  pub initialized : Bool
  pub active : Bool

-- `memset(handler, 0, sizeof(*handler))`, the sink and the hash in it included.
abbrev pub zero_handler : {S : Type 0} → Win32ReceiveHandler S
zero_handler = record {
  root_directory = replicate win32_path_capacity 0;
  job_id = replicate job_id_capacity 0;
  receiver = record {
    sink_ops = none;
    integrity_ops = none;
    expected_sha256 = replicate sha256_bytes 0;
    expected_bytes = 0;
    received_bytes = 0;
    state = FileReceiveState.idle;
    sink_started = false;
    integrity_configured = false;
    integrity_started = false;
  };
  initialized = false;
  active = false;
}

abbrev pub zero_sink : FileSink
zero_sink = record {
  file_handle = null_handle;
  job_directory = replicate win32_path_capacity 0;
  staging_path = replicate win32_path_capacity 0;
  final_path = replicate win32_path_capacity 0;
  initialized = false;
}

-- The handler and its devices after the call; a NULL pointer is `none`.
unfoldable pub handler_init :
    {S : Type 0}
    → Option (Win32ReceiveHandler S)
    → Option (List ℕ)
    → Devices S
    → Win32ReceiveHandlerResult × Option (Win32ReceiveHandler S) × Devices S
handler_init none root_directory d = (Win32ReceiveHandlerResult.invalid_argument, none, d)
handler_init (some handler) none d = (Win32ReceiveHandlerResult.invalid_argument, some handler, d)
handler_init (some handler) (some root) d =
    if at root 0 == 0
    then (Win32ReceiveHandlerResult.invalid_argument, some handler, d)
    else if ltb win32_path_capacity (strlen root + 1)
    then (Win32ReceiveHandlerResult.path_too_long, some handler, d)
    else (
      Win32ReceiveHandlerResult.ok,
      some (record zero_handler {
        root_directory = store 0 (text_of root ++ 0 ∷ []) (replicate win32_path_capacity 0);
        initialized = true;
      }),
      record d { sink = zero_sink; sha256 = sha256_init },
    )

unfoldable pub final_path :
    {S : Type 0} → Option (Win32ReceiveHandler S) → Devices S → Option (List ℕ)
final_path none d = none
final_path (some handler) d =
    if not handler.initialized || at d.sink.final_path 0 == 0 then none else some d.sink.final_path

-- The system's calls.
pub record System (S : Type 0) : Type 0 where
  pub files : FileApi S
  pub crypto : CryptoApi S
  pub gen_random : ℕ → S → Bool × List ℕ × S

module _ {S : Type 0} where
  -- What an operation has left in `handler->receiver` and in `handler->job_id`, which are there.
  abbrev pub put_receiver :
      Win32ReceiveHandler S → Option (FileReceiver (Devices S)) → Win32ReceiveHandler S
  put_receiver handler none = handler
  put_receiver handler (some r) = record handler { receiver = r }

  abbrev pub put_job_id : Win32ReceiveHandler S → Option (List ℕ) → Win32ReceiveHandler S
  put_job_id handler none = handler
  put_job_id handler (some id) = record handler { job_id = id }

  -- `pd_win32_receive_begin` with the outcome of `pd_file_receiver_begin`.
  unfoldable pub after_receiver_begin :
      Win32ReceiveHandler S → Outcome (Devices S) → Bool × Win32ReceiveHandler S × Devices S
  after_receiver_begin handler (FileReceiveResult.ok, r, d) =
      (true, record (put_receiver handler r) { active = true }, d)
  after_receiver_begin handler (result, r, d) = (false, put_receiver handler r, d)

  -- Whether a result of the file receiver is `PD_FILE_RECEIVE_OK`, with what it leaves.
  unfoldable pub report :
      Win32ReceiveHandler S → Outcome (Devices S) → Bool × Win32ReceiveHandler S × Devices S
  report handler (FileReceiveResult.ok, r, d) = (true, put_receiver handler r, d)
  report handler (result, r, d) = (false, put_receiver handler r, d)

  -- An answer with the handler and its devices as one world.
  abbrev pub joined :
      Bool × Win32ReceiveHandler S × Devices S → Bool × (Win32ReceiveHandler S × Devices S)
  joined (answer, handler, d) = (answer, (handler, d))

module _ {S : Type 0} (system : System S) where
  -- `pd_win32_file_sink_ops`, on the sink of the devices.
  unfoldable pub device_sink : FileSinkOps (Devices S)
  device_sink = record {
    begin = λ n d.
        let (status, sink, s) = sink_begin system.files d.sink n d.system in
        (status, record d { sink = sink; system = s });
    write = λ xs n d.
        let (status, written, s) = sink_write system.files d.sink xs n d.system in
        (status, written, record d { system = s });
    commit = λ d.
        let (status, sink, s) = sink_commit system.files d.sink d.system in
        (status, record d { sink = sink; system = s });
    abort = λ d.
        let (sink, s) = sink_abort system.files d.sink d.system in
        record d { sink = sink; system = s };
  }

  -- `pd_win32_sha256_ops`, on the hash of the devices.
  unfoldable pub device_hash : IntegrityOps (Devices S)
  device_hash = record {
    begin = λ d.
        let (status, sha256, s) = sha256_begin system.crypto d.sha256 d.system in
        (status, record d { sha256 = sha256; system = s });
    update = λ xs n d.
        let (status, s) = sha256_update system.crypto d.sha256 xs n d.system in
        (status, record d { system = s });
    finish = λ d.
        let (status, digest, sha256, s) =
          sha256_finish system.crypto d.sha256 (replicate sha256_bytes 0) d.system in
        (status, digest, record d { sha256 = sha256; system = s });
    abort = λ d.
        let (sha256, s) = sha256_abort system.crypto d.sha256 d.system in
        record d { sha256 = sha256; system = s };
  }

  -- With the outcomes of `pd_file_receiver_configure_integrity` and `pd_file_receiver_init`.
  unfoldable pub after_configure :
      Win32ReceiveHandler S → Outcome (Devices S) → Bool × Win32ReceiveHandler S × Devices S
  after_configure handler (FileReceiveResult.ok, r, d) =
      after_receiver_begin handler (receiver_begin r d)
  after_configure handler (result, r, d) = (false, put_receiver handler r, d)

  unfoldable pub after_receiver_init :
      Win32ReceiveHandler S
      → FileBegin
      → Outcome (Devices S)
      → Bool × Win32ReceiveHandler S × Devices S
  after_receiver_init handler metadata (FileReceiveResult.ok, r, d) =
      after_configure handler (configure_integrity r (some device_hash) (some metadata.sha256) d)
  after_receiver_init handler metadata (result, r, d) = (false, put_receiver handler r, d)

  -- With the outcome of `pd_win32_file_sink_init`.
  unfoldable pub after_sink_init :
      Win32ReceiveHandler S
      → FileBegin
      → Devices S
      → Win32SinkResult × FileSink × S
      → Bool × Win32ReceiveHandler S × Devices S
  after_sink_init handler metadata d (Win32SinkResult.ok, sink, s) =
      after_receiver_init handler metadata (
        receiver_init (some handler.receiver) (some device_sink) metadata.file_size
          (record { sink = sink; sha256 = sha256_init; system = s }))
  after_sink_init handler metadata d (result, sink, s) =
      (false, handler, record d { sink = sink; system = s })

  -- With the outcome of `pd_job_id_create`.
  unfoldable pub after_job_id :
      Win32ReceiveHandler S
      → FileBegin
      → List ℕ
      → Devices S
      → JobIdResult × Option (List ℕ) × S
      → Bool × Win32ReceiveHandler S × Devices S
  after_job_id handler metadata name d (JobIdResult.ok, id, s) =
      after_sink_init (put_job_id handler id) metadata d
        (sink_init system.files d.sink (some handler.root_directory) id (some name) s)
  after_job_id handler metadata name d (result, id, s) =
      (false, put_job_id handler id, record d { system = s })

  unfoldable pub handler_begin :
      FileBegin
      → List ℕ
      → Win32ReceiveHandler S
      → Devices S
      → Bool × Win32ReceiveHandler S × Devices S
  handler_begin metadata sanitized_filename handler d =
      if not handler.initialized || handler.active
      then (false, handler, d)
      else after_job_id handler metadata sanitized_filename d (
          job_id_create (some handler.job_id) (some (win32_random_fill system.gen_random)) d.system)

  unfoldable pub handler_chunk :
      List ℕ → ℕ → Win32ReceiveHandler S → Devices S → Bool × Win32ReceiveHandler S × Devices S
  handler_chunk data_bytes data_size handler d =
      if not handler.active
      then (false, handler, d)
      else report handler (receiver_write (some handler.receiver) (some data_bytes) data_size d)

  unfoldable pub handler_finish :
      Win32ReceiveHandler S → Devices S → Bool × Win32ReceiveHandler S × Devices S
  handler_finish handler d =
      if not handler.active
      then (false, handler, d)
      else report (record handler { active = false }) (receiver_finish (some handler.receiver) d)

  unfoldable pub handler_abort :
      Win32ReceiveHandler S → Devices S → Win32ReceiveHandler S × Devices S
  handler_abort handler d =
      let (r, d') = receiver_abort (some handler.receiver) d in
      if not handler.active
      then (handler, d)
      else (record (put_receiver handler r) { active = false }, d')

  -- `pd_win32_receive_handler_ops`
  unfoldable pub handler_ops : ReceiverProtocolOps (Win32ReceiveHandler S × Devices S)
  handler_ops = record {
    begin_file = λ metadata name (handler, d). joined (handler_begin metadata name handler d);
    write_chunk = λ xs n (handler, d). joined (handler_chunk xs n handler d);
    finish_file = λ (handler, d). joined (handler_finish handler d);
    abort_file = λ (handler, d). handler_abort handler d;
  }
