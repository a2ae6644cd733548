-- ===== src/Filename.antt =====
-- src/filename.c and include/printdrop/filename.h: making a client's file name safe on Windows.
-- Pointers and output arguments are as in Frame.antt. The local buffer `candidate` is the list of
-- its first `target_length` bytes.
pub mod Device
pub mod Safe
pub mod Sanitize
pub mod Repeat
use printdrop.Prelude.{
  ℕ, zero, suc, ◌+◌, ◌-◌, Bool, true, false, not, ◌&&◌, ◌||◌, Option, none, some, List, [], ◌∷◌,
  map, ltb, leb, ◌==◌, if◌then◌else◌, length, take,
}
use printdrop.Bytes.{store, at, write_out}
use printdrop.Bytes.Text.{codes, strlen, text_of}
use printdrop.FileBegin.{filename_max_bytes}

pub data FilenameResult : Type 0 where
  ok invalid_argument too_long buffer_too_small : FilenameResult

unfoldable pub ascii_is_control : ℕ → Bool
ascii_is_control value = ltb value 0x20 || value == 0x7f

unfoldable pub is_windows_forbidden : ℕ → Bool
is_windows_forbidden value =
    value == b'<'
    || value == b'>'
    || value == b':'
    || value == b'"'
    || value == b'/'
    || value == b'\\'
    || value == b'|'
    || value == b'?'
    || value == b'*'

unfoldable pub ascii_upper : ℕ → ℕ
ascii_upper value = if leb b'a' value && leb value b'z' then value - (b'a' - b'A') else value

-- The loop of `pd_ascii_equal_prefix`, over `value` and `literal` side by side.
unfoldable pub equal_upper : List ℕ → List ℕ → Bool
equal_upper [] literal = true
equal_upper (v ∷ value) [] = false
equal_upper (v ∷ value) (l ∷ literal) = ascii_upper v == l && equal_upper value literal

unfoldable pub ascii_equal_prefix : List ℕ → ℕ → List ℕ → Bool
ascii_equal_prefix value value_length literal =
    value_length == length literal && equal_upper (take value_length value) literal

-- `while (base_length < filename_length && filename[base_length] != '.')`
unfoldable pub base_length : List ℕ → ℕ
base_length [] = 0
base_length (c ∷ filename) = let rest = base_length filename in if c == b'.' then 0 else suc rest

-- COM1 to COM9 and LPT1 to LPT9, in either case.
unfoldable pub is_numbered_device : List ℕ → Bool
is_numbered_device filename =
    let prefix = λ (i : ℕ). ascii_upper (at filename i) in
    let digit = at filename 3 in
    let is_com = prefix 0 == b'C' && prefix 1 == b'O' && prefix 2 == b'M' in
    let is_lpt = prefix 0 == b'L' && prefix 1 == b'P' && prefix 2 == b'T' in
    (is_com || is_lpt) && leb b'1' digit && leb digit b'9'

unfoldable pub is_windows_reserved_device_name : List ℕ → Bool
is_windows_reserved_device_name filename =
    let base = base_length filename in
    if ascii_equal_prefix filename base (codes "CON")
      || ascii_equal_prefix filename base (codes "PRN")
      || ascii_equal_prefix filename base (codes "AUX")
      || ascii_equal_prefix filename base (codes "NUL")
    then true
    else base == 4 && is_numbered_device filename

-- One round of the loop over the input.
unfoldable pub replace_byte : ℕ → ℕ
replace_byte value = if ascii_is_control value || is_windows_forbidden value then b'_' else value

-- `while (target_length > 0U && (… == ' ' || … == '.')) target_length -= 1U;`
unfoldable pub trim_length : List ℕ → ℕ → ℕ
trim_length candidate zero = 0
trim_length candidate (suc n) =
    let rest = trim_length candidate n in
    if at candidate n == b' ' || at candidate n == b'.' then rest else suc n

-- The name without its trailing spaces and dots.
unfoldable pub trimmed : List ℕ → List ℕ
trimmed input =
    let candidate = map replace_byte (text_of input) in
    take (trim_length candidate (length candidate)) candidate

-- An empty name, "." and ".." are replaced by "file".
unfoldable pub with_fallback : List ℕ → List ℕ
with_fallback candidate =
    let target_length = length candidate in
    if target_length == 0
      || (target_length == 1 && at candidate 0 == b'.')
      || (target_length == 2 && at candidate 0 == b'.' && at candidate 1 == b'.')
    then codes "file"
    else candidate

-- The writes at the end of `pd_filename_sanitize`.
unfoldable pub put_name : List ℕ → ℕ → List ℕ → List ℕ
put_name candidate prefix_length output = store (prefix_length + length candidate) (0 ∷ []) (
    store prefix_length candidate
      (if not (prefix_length == 0) then store 0 (b'_' ∷ []) output else output))

-- The result, the output buffer and `*required_capacity` after the call.
unfoldable pub filename_sanitize :
    Option (List ℕ) → Option (List ℕ) → ℕ → Option ℕ → FilenameResult × Option (List ℕ) × Option ℕ
filename_sanitize none output capacity required =
    (FilenameResult.invalid_argument, output, write_out required 0)
filename_sanitize (some input) none capacity required =
    (FilenameResult.invalid_argument, none, write_out required 0)
filename_sanitize (some input) (some output) capacity required =
    let zeroed = write_out required 0 in
    let candidate = with_fallback (trimmed input) in
    let prefix_length = if is_windows_reserved_device_name candidate then 1 else 0 in
    let needed = length candidate + prefix_length + 1 in
    if ltb filename_max_bytes (strlen input)
    then (FilenameResult.too_long, some output, zeroed)
    else if ltb (filename_max_bytes - prefix_length) (length candidate)
    then (FilenameResult.too_long, some output, zeroed)
    else if ltb capacity needed
    then (
      FilenameResult.buffer_too_small,
      some (if ltb 0 capacity then store 0 (0 ∷ []) output else output),
      write_out zeroed needed,
    )
    else (
      FilenameResult.ok,
      some (put_name candidate prefix_length output),
      write_out zeroed needed,
    )
