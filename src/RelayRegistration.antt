-- ===== src/RelayRegistration.antt =====
-- src/relay_registration.c and include/printdrop/relay_registration.h: the request by which the
-- receiver registers a session with the relay, its address and its body. Pointers and output
-- arguments are as in Frame.antt.
pub mod Base
pub mod Build
pub mod Body
use printdrop.Prelude.{
  ℕ, zero, suc, ◌+◌, Bool, false, not, ◌&&◌, ◌||◌, Option, none, some, List, [], ◌∷◌, ◌++◌, ltb,
  leb, ◌==◌, if◌then◌else◌, take, length,
}
use printdrop.Bytes.{store, at, write_out}
use printdrop.Bytes.Text.{codes, strlen, strchr, mem_equal}
use printdrop.BaseUrl.{relay_base_url_max_bytes}
use printdrop.Hex.{all_lower_hex}
use printdrop.ReceiverSession.{session_token_hex_chars}

pub data RegistrationResult : Type 0 where
  ok invalid_argument invalid_base_url invalid_session_id buffer_too_small : RegistrationResult

unfoldable pub is_lower_hex : Option (List ℕ) → ℕ → Bool
is_lower_hex none expected_length = false
is_lower_hex (some value) expected_length =
    if not (strlen value == expected_length)
    then false
    else all_lower_hex (take expected_length value)

-- `static const char path[]`, with its NUL.
abbrev pub sessions_path : List ℕ
sessions_path = codes "/v1/sessions"

-- `static const char https_scheme[]` and `http_scheme[]`.
abbrev pub https_scheme : List ℕ
https_scheme = codes "https://"

abbrev pub http_scheme : List ℕ
http_scheme = codes "http://"

-- `scheme_length`, where the base has a scheme and goes on behind it.
unfoldable pub scheme_length_of : List ℕ → ℕ → Option ℕ
scheme_length_of https_base_url base_length =
    if ltb (length https_scheme) base_length
      && mem_equal (take (length https_scheme) https_base_url) https_scheme
    then some (length https_scheme)
    else if ltb (length http_scheme) base_length
        && mem_equal (take (length http_scheme) https_base_url) http_scheme
    then some (length http_scheme)
    else none

-- The test of the length, the query and the fragment.
unfoldable pub base_is_invalid : List ℕ → ℕ → Bool
base_is_invalid https_base_url base_length =
    ltb relay_base_url_max_bytes base_length
    || strchr https_base_url b'?'
    || strchr https_base_url b'#'

-- `while (trimmed_length > scheme_length && https_base_url[trimmed_length - 1U] == '/')`
unfoldable pub trim_slashes : List ℕ → ℕ → ℕ → ℕ
trim_slashes https_base_url scheme_length zero = 0
trim_slashes https_base_url scheme_length (suc trimmed_length) =
    let rest = trim_slashes https_base_url scheme_length trimmed_length in
    if ltb scheme_length (suc trimmed_length) && at https_base_url trimmed_length == b'/'
    then rest
    else suc trimmed_length

-- The part of `pd_relay_registration_build_endpoint` behind the scheme.
unfoldable pub endpoint_after_scheme :
    List ℕ → ℕ → List ℕ → ℕ → Option ℕ → RegistrationResult × Option (List ℕ)
endpoint_after_scheme base base_length output capacity none =
    (RegistrationResult.invalid_base_url, some output)
endpoint_after_scheme base base_length output capacity (some scheme_length) =
    let trimmed_length = trim_slashes base scheme_length base_length in
    let required = trimmed_length + length sessions_path + 1 in
    if base_is_invalid base base_length
    then (RegistrationResult.invalid_base_url, some output)
    else if leb trimmed_length scheme_length
    then (RegistrationResult.invalid_base_url, some output)
    else if ltb capacity required
    then (
      RegistrationResult.buffer_too_small,
      some (if ltb 0 capacity then store 0 (0 ∷ []) output else output),
    )
    else (
      RegistrationResult.ok,
      some (
          store trimmed_length (sessions_path ++ 0 ∷ [])
            (store 0 (take trimmed_length base) output)),
    )

unfoldable pub build_endpoint :
    Option (List ℕ) → Option (List ℕ) → ℕ → RegistrationResult × Option (List ℕ)
build_endpoint none output capacity = (RegistrationResult.invalid_argument, output)
build_endpoint (some base) none capacity = (RegistrationResult.invalid_argument, none)
build_endpoint (some base) (some output) capacity =
    endpoint_after_scheme base (strlen base) output capacity (scheme_length_of base (strlen base))

-- `static const char prefix[]` and `suffix[]`, the latter without its NUL.
abbrev pub body_prefix : List ℕ
body_prefix = codes "{\"session_id\":\""

abbrev pub body_suffix : List ℕ
body_suffix = codes "\"}"

-- The copies at the end of `pd_relay_registration_build_body`.
unfoldable pub put_body : List ℕ → List ℕ → List ℕ
put_body session_id output =
    store (length body_prefix + session_token_hex_chars) (body_suffix ++ 0 ∷ [])
      (store (length body_prefix) session_id (store 0 body_prefix output))

-- The result, the output buffer and `*body_size` after the call.
unfoldable pub build_body :
    Option (List ℕ)
    → Option (List ℕ)
    → ℕ
    → Option ℕ
    → RegistrationResult × Option (List ℕ) × Option ℕ
build_body none output capacity body_size =
    (RegistrationResult.invalid_argument, output, write_out body_size 0)
build_body (some session_id) none capacity body_size =
    (RegistrationResult.invalid_argument, none, write_out body_size 0)
build_body (some session_id) (some output) capacity body_size =
    let zeroed = write_out body_size 0 in
    let required = length body_prefix + session_token_hex_chars + length body_suffix + 1 in
    if not (is_lower_hex (some session_id) session_token_hex_chars)
    then (RegistrationResult.invalid_session_id, some output, zeroed)
    else if ltb capacity required
    then (
      RegistrationResult.buffer_too_small,
      some (if ltb 0 capacity then store 0 (0 ∷ []) output else output),
      zeroed,
    )
    else (
      RegistrationResult.ok,
      some (put_body (take session_token_hex_chars session_id) output),
      write_out zeroed (length body_prefix + session_token_hex_chars + length body_suffix),
    )
