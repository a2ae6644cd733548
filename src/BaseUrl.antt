-- ===== src/BaseUrl.antt =====
-- The tests of the relay's base URL in `pd_normalize_base` of src/relay_endpoint.c: its scheme, its
-- length and its characters, and the trailing slashes. `length` is that of the text, which the tests
-- in front keep within it. The registration has tests of its own, in RelayRegistration.antt.
pub mod Strip
pub mod Address
use printdrop.Prelude.{
  ℕ, zero, suc, Bool, true, false, ◌&&◌, ◌||◌, Option, none, some, List, [], ◌∷◌, ltb, ◌==◌,
  if◌then◌else◌, take,
}
use printdrop.Bytes.{at}
use printdrop.Bytes.Text.{codes, strchr, mem_equal}

abbrev pub relay_base_url_max_bytes : ℕ
relay_base_url_max_bytes = 447

-- `https_prefix` and `http_prefix`
abbrev pub https_prefix : List ℕ
https_prefix = codes "https://"

abbrev pub http_prefix : List ℕ
http_prefix = codes "http://"

-- The length of the scheme and whether it is the secure one, where the base has one and goes on
-- behind it.
unfoldable pub scheme_of : List ℕ → ℕ → Option (ℕ × Bool)
scheme_of base length =
    if ltb 8 length && mem_equal (take 8 base) https_prefix
    then some (8, true)
    else if ltb 7 length && mem_equal (take 7 base) http_prefix
    then some (7, false)
    else none

-- Too long, or with a query or a fragment.
unfoldable pub is_refused : List ℕ → ℕ → Bool
is_refused base length = ltb relay_base_url_max_bytes length || strchr base b'?' || strchr base b'#'

-- `while (length > prefix_length && base[length - 1] == '/') --length;`
unfoldable pub strip_slashes : List ℕ → ℕ → ℕ → ℕ
strip_slashes base prefix_length zero = zero
strip_slashes base prefix_length (suc length) =
    let stripped = strip_slashes base prefix_length length in
    if ltb prefix_length (suc length) && at base length == b'/' then stripped else suc length
