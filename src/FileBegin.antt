-- ===== src/FileBegin.antt =====
-- src/file_begin.c and include/printdrop/file_begin.h: the payload that announces a file.
-- Pointers and output arguments are as in Frame.antt.
pub mod Wire
pub mod Announcement
pub mod Codec
pub mod Decode
use printdrop.Prelude.{
  ℕ, ◌+◌, ◌%◌, ◌^◌, Bool, not, ◌||◌, Option, none, some, List, [], ◌∷◌, ltb, ◌==◌, if◌then◌else◌,
  take, drop, replicate,
}
use printdrop.Bytes.{store, u16_be, u64_be, read_u16_be, read_u64_be, write_out}
use printdrop.Bytes.Text.{strlen, memchr}

-- `PD_SHA256_BYTES` of include/printdrop/integrity.h
abbrev pub sha256_bytes : ℕ
sha256_bytes = 32

-- `PD_FILENAME_MAX_BYTES` and `PD_FILENAME_CAPACITY` of include/printdrop/filename.h
abbrev pub filename_max_bytes : ℕ
filename_max_bytes = 120

abbrev pub filename_capacity : ℕ
filename_capacity = filename_max_bytes + 1

abbrev pub file_begin_fixed_size : ℕ
file_begin_fixed_size = 42

pub data FileBeginResult : Type 0 where
  ok invalid_argument invalid_filename buffer_too_small malformed : FileBeginResult

-- `filename` is a buffer of `filename_capacity` bytes that holds a C string.
pub record FileBegin : Type 0 where
  pub file_size : ℕ
  pub sha256 : List ℕ
  pub filename : List ℕ

-- The writes of `pd_file_begin_encode`, in its order.
unfoldable pub put_metadata : FileBegin → ℕ → List ℕ → List ℕ
put_metadata metadata filename_length output =
    store file_begin_fixed_size (take filename_length metadata.filename) (
      store 40 (u16_be (filename_length % 2 ^ 16))
        (store 8 (take sha256_bytes metadata.sha256) (store 0 (u64_be metadata.file_size) output)))

-- The result, the output buffer and `*bytes_written` after the call.
unfoldable pub file_begin_encode :
    Option FileBegin → Option (List ℕ) → ℕ → Option ℕ → FileBeginResult × Option (List ℕ) × Option ℕ
file_begin_encode none output capacity written =
    (FileBeginResult.invalid_argument, output, write_out written 0)
file_begin_encode (some metadata) none capacity written =
    (FileBeginResult.invalid_argument, none, write_out written 0)
file_begin_encode (some metadata) (some output) capacity written =
    let zeroed = write_out written 0 in
    let filename_length = strlen metadata.filename in
    let required = file_begin_fixed_size + filename_length in
    if filename_length == 0 || ltb filename_max_bytes filename_length
    then (FileBeginResult.invalid_filename, some output, zeroed)
    else if ltb capacity required
    then (FileBeginResult.buffer_too_small, some output, zeroed)
    else (
      FileBeginResult.ok,
      some (put_metadata metadata filename_length output),
      write_out zeroed required,
    )

-- `memset(metadata, 0, …)` and the copies after it.
unfoldable pub get_metadata : List ℕ → ℕ → FileBegin
get_metadata payload filename_length = record {
  file_size = read_u64_be payload 0;
  sha256 = take sha256_bytes (drop 8 payload);
  filename = store filename_length (0 ∷ []) (
      store 0 (take filename_length (drop file_begin_fixed_size payload))
        (replicate filename_capacity 0));
}

unfoldable pub file_begin_decode :
    Option (List ℕ) → ℕ → Option FileBegin → FileBeginResult × Option FileBegin
file_begin_decode none payload_size metadata = (FileBeginResult.invalid_argument, metadata)
file_begin_decode (some payload) payload_size none = (FileBeginResult.invalid_argument, none)
file_begin_decode (some payload) payload_size (some metadata) =
    let filename_length = read_u16_be payload 40 in
    if ltb payload_size file_begin_fixed_size
    then (FileBeginResult.malformed, some metadata)
    else if filename_length == 0
        || ltb filename_max_bytes filename_length
        || not (payload_size == file_begin_fixed_size + filename_length)
    then (FileBeginResult.malformed, some metadata)
    else if memchr (drop file_begin_fixed_size payload) 0 filename_length
    then (FileBeginResult.malformed, some metadata)
    else (FileBeginResult.ok, some (get_metadata payload filename_length))
