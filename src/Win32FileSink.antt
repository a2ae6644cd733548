-- ===== src/Win32FileSink.antt =====
-- src/win32_file_sink.c and include/printdrop/win32_file_sink.h: a file of a job on disk, written
-- under a `.part` name and renamed when it is whole. The system's file calls are a parameter, a
-- table of operations on a state `S` of the system. A handle and a wide character are numbers, a
-- path is the buffer that holds it. The operations are called with the sink of a receive handler and
-- with the bytes of a frame, neither of which is NULL.
pub mod Init
pub mod Paths
pub mod Place
pub mod Names
pub mod Files
pub mod Refine
pub mod Runs
use printdrop.Prelude.{
  ℕ, ◌+◌, ◌-◌, ◌^◌, bit_and, Bool, true, false, not, ◌&&◌, ◌||◌, Option, none, some, List, [], ◌∷◌,
  ◌++◌, ltb, ◌==◌, if◌then◌else◌, replicate, take, length,
}
use printdrop.Bytes.{store, at}
use printdrop.Bytes.Text.{codes, strlen, text_of, strings_equal}
use printdrop.FileReceive.{FileSinkStatus, FileSinkOps}
use printdrop.FileBegin.{filename_capacity}
use printdrop.Filename.{FilenameResult, filename_sanitize}
use printdrop.JobId.{job_id_hex_chars, job_id_capacity, job_id_is_valid}

abbrev pub win32_path_capacity : ℕ
win32_path_capacity = 260

pub data Win32SinkResult : Type 0 where
  ok invalid_argument invalid_filename invalid_job_id invalid_utf8 path_too_long : Win32SinkResult

-- `NULL`, `INVALID_HANDLE_VALUE`, `MAXDWORD`,
-- `ERROR_ALREADY_EXISTS`, `INVALID_FILE_ATTRIBUTES` and `FILE_ATTRIBUTE_DIRECTORY` of the Windows headers.
abbrev pub null_handle : ℕ
null_handle = 0

abbrev pub invalid_handle_value : ℕ
invalid_handle_value = 2 ^ 64 - 1

abbrev pub max_dword : ℕ
max_dword = 2 ^ 32 - 1

abbrev pub error_already_exists : ℕ
error_already_exists = 183

abbrev pub invalid_file_attributes : ℕ
invalid_file_attributes = 2 ^ 32 - 1

abbrev pub file_attribute_directory : ℕ
file_attribute_directory = 0x10

-- The calls of Windows, each with the arguments that vary here. A path is given as its text. A call
-- that is told to fail by a zero gives `false`.
pub record FileApi (S : Type 0) : Type 0 where
  pub get_file_attributes : List ℕ → S → ℕ
  pub create_directory : List ℕ → S → Bool × S
  pub get_last_error : S → ℕ
  pub create_new_file : List ℕ → S → ℕ × S
  pub write_file : ℕ → List ℕ → ℕ → S → Bool × ℕ × S
  pub flush_file_buffers : ℕ → S → Bool × S
  pub close_handle : ℕ → S → Bool × S
  pub move_file : List ℕ → List ℕ → S → Bool × S
  pub delete_file : List ℕ → S → S
  pub multi_byte_to_wide_char : List ℕ → ℕ → ℕ × List ℕ

pub record FileSink : Type 0 where
  pub file_handle : ℕ
  pub job_directory : List ℕ
  pub staging_path : List ℕ
  pub final_path : List ℕ
  pub initialized : Bool

unfoldable pub handle_is_open : FileSink → Bool
handle_is_open sink =
    not (sink.file_handle == null_handle) && not (sink.file_handle == invalid_handle_value)

-- `destination` after the call where it is made, `none` where there is no room.
unfoldable pub append_component : List ℕ → ℕ → List ℕ → Option (List ℕ)
append_component destination capacity component =
    let destination_length = strlen destination in
    let component_length = strlen component in
    let last = at destination (destination_length - 1) in
    let needs_separator = ltb 0 destination_length && not (last == b'\\') && not (last == b'/') in
    let separator_length = if needs_separator then 1 else 0 in
    let required = destination_length + separator_length + component_length + 1 in
    if ltb capacity required
    then none
    else some (
        store (destination_length + separator_length) (text_of component ++ 0 ∷ []) (
          if needs_separator
          then store destination_length (b'\\' ∷ []) destination
          else destination))

unfoldable pub copy_path : List ℕ → ℕ → List ℕ → Option (List ℕ)
copy_path destination capacity source =
    if ltb capacity (strlen source + 1)
    then none
    else some (store 0 (text_of source ++ 0 ∷ []) destination)

-- `output` is not initialized before; the caller reads it up to the NUL that is written.
unfoldable pub job_id_to_wide : List ℕ → Option (List ℕ)
job_id_to_wide job_id =
    if not (job_id_is_valid (some job_id))
    then none
    else some (take job_id_hex_chars job_id ++ 0 ∷ [])

-- `!pd_win32_copy_path(destination, …, source) || !pd_win32_append_component(destination, …)`:
-- whether both are made, and the destination.
unfoldable pub after_append : List ℕ → Option (List ℕ) → Bool × List ℕ
after_append copied none = (false, copied)
after_append copied (some appended) = (true, appended)

unfoldable pub after_copy : List ℕ → List ℕ → Option (List ℕ) → Bool × List ℕ
after_copy destination component none = (false, destination)
after_copy destination component (some copied) =
    after_append copied (append_component copied win32_path_capacity component)

unfoldable pub put_path : List ℕ → List ℕ → List ℕ → Bool × List ℕ
put_path destination source component =
    after_copy destination component (copy_path destination win32_path_capacity source)

-- What an operation of the sink gives back.
abbrev pub SinkOutcome : Type 0 → Type 0
SinkOutcome S = FileSinkStatus × FileSink × S

module _ {S : Type 0} (api : FileApi S) where
  unfoldable pub directory_exists : List ℕ → S → Bool
  directory_exists path s =
      let attributes = api.get_file_attributes (text_of path) s in
      not (attributes == invalid_file_attributes)
      && not (bit_and attributes file_attribute_directory == 0)

  unfoldable pub ensure_directory : List ℕ → S → Bool × S
  ensure_directory path s =
      let (created, s') = api.create_directory (text_of path) s in
      if created
      then (true, s')
      else if api.get_last_error s' == error_already_exists
      then (directory_exists path s', s')
      else (false, s')

  -- `pd_win32_sink_begin` with the handle of the new file.
  unfoldable pub after_create : FileSink → ℕ × S → SinkOutcome S
  after_create sink (handle, s) =
      if handle == invalid_handle_value
      then (FileSinkStatus.io_error, sink, s)
      else (FileSinkStatus.ok, record sink { file_handle = handle }, s)

  -- And with the answer of `pd_win32_ensure_directory`.
  unfoldable pub after_ensure : FileSink → Bool × S → SinkOutcome S
  after_ensure sink (exists, s) =
      if not exists
      then (FileSinkStatus.io_error, sink, s)
      else after_create sink (api.create_new_file (text_of sink.staging_path) s)

  unfoldable pub sink_begin : FileSink → ℕ → S → SinkOutcome S
  sink_begin sink expected_bytes s =
      if not sink.initialized || handle_is_open sink
      then (FileSinkStatus.io_error, sink, s)
      else after_ensure sink (ensure_directory sink.job_directory s)

  -- `pd_win32_sink_write` with the answer of `WriteFile`: also the number that was written.
  unfoldable pub after_write_file : Bool × ℕ × S → FileSinkStatus × ℕ × S
  after_write_file (wrote, written, s) =
      if not wrote then (FileSinkStatus.io_error, 0, s) else (FileSinkStatus.ok, written, s)

  unfoldable pub sink_write : FileSink → List ℕ → ℕ → S → FileSinkStatus × ℕ × S
  sink_write sink data_bytes data_size s =
      if not (handle_is_open sink) || ltb max_dword data_size
      then (FileSinkStatus.io_error, 0, s)
      else after_write_file (api.write_file sink.file_handle data_bytes data_size s)

  -- `pd_win32_sink_commit` with the answers of `MoveFileExW`, `CloseHandle` and `FlushFileBuffers`.
  unfoldable pub after_move : FileSink → Bool × S → SinkOutcome S
  after_move sink (moved, s) =
      if not moved then (FileSinkStatus.io_error, sink, s) else (FileSinkStatus.ok, sink, s)

  unfoldable pub after_close : FileSink → Bool × S → SinkOutcome S
  after_close sink (closed, s) =
      if not closed
      then (FileSinkStatus.io_error, sink, s)
      else after_move (record sink { file_handle = invalid_handle_value })
          (api.move_file (text_of sink.staging_path) (text_of sink.final_path) s)

  unfoldable pub after_flush : FileSink → Bool × S → SinkOutcome S
  after_flush sink (flushed, s) =
      if not flushed
      then (FileSinkStatus.io_error, sink, s)
      else after_close sink (api.close_handle sink.file_handle s)

  unfoldable pub sink_commit : FileSink → S → SinkOutcome S
  sink_commit sink s =
      if not (handle_is_open sink)
      then (FileSinkStatus.io_error, sink, s)
      else after_flush sink (api.flush_file_buffers sink.file_handle s)

  unfoldable pub close_if_open : FileSink → S → FileSink × S
  close_if_open sink s =
      if handle_is_open sink
      then (
        record sink { file_handle = invalid_handle_value },
        (api.close_handle sink.file_handle s).1,
      )
      else (sink, s)

  unfoldable pub sink_abort : FileSink → S → FileSink × S
  sink_abort sink s =
      let (closed, s') = close_if_open sink s in
      (
        closed,
        if not (at closed.staging_path 0 == 0)
            then api.delete_file (text_of closed.staging_path) s'
            else s',
      )
