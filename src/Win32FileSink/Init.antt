-- ===== src/Win32FileSink/Init.antt =====
-- `pd_win32_file_sink_init`: the paths of a file, below the directory of its job. A NULL pointer is
-- `none`.
use printdrop.Prelude.{
  ℕ, ◌+◌, Bool, true, false, not, Option, none, some, List, [], ◌∷◌, ◌++◌, ltb, ◌==◌, if◌then◌else◌,
  replicate,
}
use printdrop.Bytes.{store, at}
use printdrop.Bytes.Text.{codes, strlen, text_of, strings_equal}
use printdrop.FileBegin.{filename_capacity}
use printdrop.Filename.{FilenameResult, filename_sanitize}
use printdrop.Win32FileSink.{
  win32_path_capacity, invalid_handle_value, Win32SinkResult, FileApi, FileSink, put_path,
  job_id_to_wide, ensure_directory,
}

-- `memset(sink, 0, sizeof(*sink))` and the line behind it.
abbrev pub cleared_sink : FileSink
cleared_sink = record {
  file_handle = invalid_handle_value;
  job_directory = replicate win32_path_capacity 0;
  staging_path = replicate win32_path_capacity 0;
  final_path = replicate win32_path_capacity 0;
  initialized = false;
}

abbrev pub part_suffix : List ℕ
part_suffix = codes ".part"

abbrev pub staging_name_capacity : ℕ
staging_name_capacity = filename_capacity + 6

-- `staging_name`, which is not initialized before and is read up to its NUL: the copy of the name
-- and `wcscat_s`.
unfoldable pub staging_name : List ℕ → List ℕ
staging_name wide_filename =
    store (strlen wide_filename) (part_suffix ++ 0 ∷ [])
      (store 0 (text_of wide_filename ++ 0 ∷ []) (replicate staging_name_capacity 0))

-- The tests of the job's id and of the name: the wide id, or what is wrong.
pub data Checked : Type 0 where
  refused : Win32SinkResult → Checked
  accepted : List ℕ → Checked

unfoldable pub is_same_name : List ℕ → FilenameResult × Option (List ℕ) × Option ℕ → Bool
is_same_name sanitized_filename (FilenameResult.ok, some checked_filename, required) =
    strings_equal checked_filename sanitized_filename
is_same_name sanitized_filename (result, checked_filename, required) = false

-- `checked_filename` is not initialized before.
unfoldable pub is_sanitized : List ℕ → Bool
is_sanitized sanitized_filename = is_same_name sanitized_filename (
    filename_sanitize (some sanitized_filename) (some (replicate filename_capacity 0))
      filename_capacity none)

unfoldable pub check_name : List ℕ → Option (List ℕ) → Checked
check_name sanitized_filename none = Checked.refused Win32SinkResult.invalid_job_id
check_name sanitized_filename (some wide_job_id) =
    if not (is_sanitized sanitized_filename)
    then Checked.refused Win32SinkResult.invalid_filename
    else Checked.accepted wide_job_id

unfoldable pub check_names : List ℕ → List ℕ → Checked
check_names job_id sanitized_filename = check_name sanitized_filename (job_id_to_wide job_id)

module _ {S : Type 0} (api : FileApi S) where
  -- The last test, once the paths are there.
  unfoldable pub after_root : FileSink → Bool × S → Win32SinkResult × FileSink × S
  after_root sink (exists, s) =
      if not exists
      then (Win32SinkResult.invalid_argument, sink, s)
      else (Win32SinkResult.ok, record sink { initialized = true }, s)

  unfoldable pub put_staging_path : List ℕ → List ℕ → FileSink → S → Win32SinkResult × FileSink × S
  put_staging_path root_directory wide_filename sink s =
      let (made, path) =
        put_path sink.staging_path sink.job_directory (staging_name wide_filename) in
      let placed = record sink { staging_path = path } in
      if ltb staging_name_capacity (strlen wide_filename + 6)
      then (Win32SinkResult.path_too_long, sink, s)
      else if not made
      then (Win32SinkResult.path_too_long, placed, s)
      else after_root placed (ensure_directory api root_directory s)

  unfoldable pub put_final_path : List ℕ → List ℕ → FileSink → S → Win32SinkResult × FileSink × S
  put_final_path root_directory wide_filename sink s =
      let (made, path) = put_path sink.final_path sink.job_directory wide_filename in
      let placed = record sink { final_path = path } in
      if not made
      then (Win32SinkResult.path_too_long, placed, s)
      else put_staging_path root_directory wide_filename placed s

  unfoldable pub put_job_directory :
      List ℕ → List ℕ → List ℕ → FileSink → S → Win32SinkResult × FileSink × S
  put_job_directory root_directory wide_job_id wide_filename sink s =
      let (made, path) = put_path sink.job_directory root_directory wide_job_id in
      let placed = record sink { job_directory = path } in
      if not made
      then (Win32SinkResult.path_too_long, placed, s)
      else put_final_path root_directory wide_filename placed s

  -- The name in wide characters.
  unfoldable pub after_check : List ℕ → List ℕ → Checked → S → Win32SinkResult × FileSink × S
  after_check root_directory sanitized_filename (Checked.refused result) s =
      (result, cleared_sink, s)
  after_check root_directory sanitized_filename (Checked.accepted wide_job_id) s =
      let (wide_length, wide_filename) =
        api.multi_byte_to_wide_char sanitized_filename filename_capacity in
      if wide_length == 0
      then (Win32SinkResult.invalid_utf8, cleared_sink, s)
      else put_job_directory root_directory wide_job_id wide_filename cleared_sink s

  -- With the sink, which the handler owns.
  unfoldable pub sink_init :
      FileSink
      → Option (List ℕ)
      → Option (List ℕ)
      → Option (List ℕ)
      → S
      → Win32SinkResult × FileSink × S
  sink_init sink none job_id sanitized_filename s = (Win32SinkResult.invalid_argument, sink, s)
  sink_init sink (some root) none sanitized_filename s = (Win32SinkResult.invalid_argument, sink, s)
  sink_init sink (some root) (some job_id) none s = (Win32SinkResult.invalid_argument, sink, s)
  sink_init sink (some root) (some job_id) (some sanitized_filename) s =
      if at root 0 == 0
      then (Win32SinkResult.invalid_argument, sink, s)
      else after_check root sanitized_filename (check_names job_id sanitized_filename) s
