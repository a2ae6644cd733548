-- ===== src/Win32FileSink/Files.antt =====
-- What a file sink promises: a machine that knows whether a file is open, what has been written to
-- it and what is stored under the final name, and what the sink relies on from the system's calls.
use printdrop.Prelude.{ℕ, ◌≡◌, ◌≢◌, true, false, List, [], ◌++◌, take}
use printdrop.Bytes.Text.{text_of}
use printdrop.FileReceive.{FileSinkStatus}
use printdrop.Win32FileSink.{
  FileApi, FileSink, null_handle, invalid_handle_value, handle_is_open, sink_begin, sink_write,
  sink_commit, sink_abort,
}

-- `broken`: something has failed since the file was opened, and nothing is known of it.
pub data SinkState : Type 0 where
  closed broken : SinkState
  open_with stored : List ℕ → SinkState

pub data SinkCall : Type 0 where
  begin : ℕ → SinkCall
  write : List ℕ → ℕ → SinkCall
  commit abort : SinkCall

unfoldable pub IsShut : SinkState → Type 0
IsShut SinkState.closed = Unit
IsShut (SinkState.stored c) = Unit
IsShut _ = ⊥

-- Which answers, a status and a number of bytes, a call may have, and the state that it leaves.
pub data Allows : SinkState → SinkCall → FileSinkStatus → ℕ → SinkState → Type 0 where
  begins :
      {a : SinkState} {n : ℕ}
      → IsShut a
      → Allows a (SinkCall.begin n) FileSinkStatus.ok 0 (SinkState.open_with [])
  begin_fails : {a : SinkState} {n : ℕ} → Allows a (SinkCall.begin n) FileSinkStatus.io_error 0 a
  writes :
      {c xs : List ℕ} {n k : ℕ}
      → Allows
          (SinkState.open_with c)
          (SinkCall.write xs n)
          FileSinkStatus.ok
          k
          (SinkState.open_with (c ++ take k xs))
  write_fails :
      {c xs : List ℕ} {n : ℕ}
      → Allows
          (SinkState.open_with c)
          (SinkCall.write xs n)
          FileSinkStatus.io_error
          0
          SinkState.broken
  write_refused :
      {a : SinkState} {xs : List ℕ} {n : ℕ}
      → IsShut a
      → Allows a (SinkCall.write xs n) FileSinkStatus.io_error 0 a
  commits :
      {c : List ℕ}
      → Allows (SinkState.open_with c) SinkCall.commit FileSinkStatus.ok 0 (SinkState.stored c)
  commit_fails :
      {c : List ℕ}
      → Allows (SinkState.open_with c) SinkCall.commit FileSinkStatus.io_error 0 SinkState.broken
  commit_refused : {a : SinkState} → IsShut a → Allows a SinkCall.commit FileSinkStatus.io_error 0 a
  aborts : {a : SinkState} → Allows a SinkCall.abort FileSinkStatus.ok 0 SinkState.closed
  stays_broken :
      {call : SinkCall} {status : FileSinkStatus} {k : ℕ}
      → Allows SinkState.broken call status k SinkState.broken

-- What can be seen of the system: what a path names, and the path that a handle was opened by.
pub record FileView (S : Type 0) : Type 0 where
  pub file : List ℕ → S → List ℕ
  pub opened : ℕ → S → List ℕ

module _ {S : Type 0} where
  -- A new file is empty; a write that succeeds appends what it says it has written; making a
  -- directory, a create that fails, flushing and closing change no file; a move that succeeds puts
  -- the file under its new name.
  pub record FileLaws (api : FileApi S) (v : FileView S) : Type 0 where
    pub directory_keeps :
        (directory path : List ℕ) (s : S)
        → v.file path (api.create_directory directory s).1 ≡ v.file path s
    pub create_failed :
        (path other : List ℕ) (s : S)
        → (api.create_new_file path s).0 ≡ invalid_handle_value
        → v.file other (api.create_new_file path s).1 ≡ v.file other s
    pub create_ok :
        (path : List ℕ) (s : S)
        → (api.create_new_file path s).0 ≢ invalid_handle_value
        → ((api.create_new_file path s).0 ≢ null_handle)
          × (v.opened (api.create_new_file path s).0 (api.create_new_file path s).1 ≡ path)
          × (v.file path (api.create_new_file path s).1 ≡ [])
    pub write_ok :
        (handle : ℕ) (xs : List ℕ) (n : ℕ) (s : S)
        → (api.write_file handle xs n s).0 ≡ true
        → (v.file (v.opened handle s) (api.write_file handle xs n s).2
            ≡ v.file (v.opened handle s) s ++ take (api.write_file handle xs n s).1 xs)
          × (v.opened handle (api.write_file handle xs n s).2 ≡ v.opened handle s)
    pub flush_keeps :
        (handle : ℕ) (path : List ℕ) (s : S)
        → v.file path (api.flush_file_buffers handle s).1 ≡ v.file path s
    pub close_keeps :
        (handle : ℕ) (path : List ℕ) (s : S)
        → v.file path (api.close_handle handle s).1 ≡ v.file path s
    pub move_ok :
        (from to : List ℕ) (s : S)
        → (api.move_file from to s).0 ≡ true
        → v.file to (api.move_file from to s).1 ≡ v.file from s

  -- The sink and the system stand for a state of the machine.
  unfoldable pub Stands : FileView S → SinkState → FileSink → S → Type 0
  Stands v SinkState.closed sink s = handle_is_open sink ≡ false
  Stands v (SinkState.stored c) sink s =
      (handle_is_open sink ≡ false) × (v.file (text_of sink.final_path) s ≡ c)
  Stands v (SinkState.open_with c) sink s =
      (handle_is_open sink ≡ true)
      × (v.opened sink.file_handle s ≡ text_of sink.staging_path)
      × (v.file (text_of sink.staging_path) s ≡ c)
  Stands v SinkState.broken sink s = Unit

  -- A call of the table, as `pd_file_receiver` makes it.
  unfoldable pub sink_call : FileApi S → SinkCall → FileSink → S → FileSinkStatus × ℕ × FileSink × S
  sink_call api (SinkCall.begin n) sink s =
      let (status, sink', s') = sink_begin api sink n s in (status, 0, sink', s')
  sink_call api (SinkCall.write xs n) sink s =
      let (status, written, s') = sink_write api sink xs n s in (status, written, sink, s')
  sink_call api SinkCall.commit sink s =
      let (status, sink', s') = sink_commit api sink s in (status, 0, sink', s')
  sink_call api SinkCall.abort sink s =
      let (sink', s') = sink_abort api sink s in (FileSinkStatus.ok, 0, sink', s')
