-- ===== src/RelayEndpoint.antt =====
-- src/relay_endpoint.c and include/printdrop/relay_endpoint.h: the addresses at which the receiver
-- and the sender reach the relay. Pointers and output arguments are as in Frame.antt.
pub mod Build
use printdrop.Prelude.{
  ℕ, ◌+◌, ◌-◌, Bool, true, false, not, ◌||◌, Option, none, some, List, [], ◌∷◌, ltb, leb, ◌==◌,
  if◌then◌else◌, take, drop, length,
}
use printdrop.Bytes.{store}
use printdrop.Bytes.Text.{codes, strlen}
use printdrop.Hex.{all_lower_hex}
use printdrop.ReceiverSession.{session_token_hex_chars}
use printdrop.BaseUrl.{scheme_of, is_refused, strip_slashes}

abbrev pub relay_endpoint_max_bytes : ℕ
relay_endpoint_max_bytes = 511

abbrev pub relay_endpoint_capacity : ℕ
relay_endpoint_capacity = relay_endpoint_max_bytes + 1

pub data RelayEndpointResult : Type 0 where
  ok invalid_argument invalid_base_url invalid_session_id buffer_too_small : RelayEndpointResult

-- What `pd_normalize_base` writes to its three output arguments.
pub record NormalBase : Type 0 where
  pub base_length : ℕ
  pub scheme_length : ℕ
  pub secure : Bool

unfoldable pub session_id_is_valid : Option (List ℕ) → Bool
session_id_is_valid none = false
session_id_is_valid (some session_id) =
    if not (strlen session_id == session_token_hex_chars)
    then false
    else all_lower_hex (take session_token_hex_chars session_id)

-- `pd_normalize_base` from the scheme on.
unfoldable pub after_scheme :
    List ℕ → ℕ → Option (ℕ × Bool) → RelayEndpointResult × Option NormalBase
after_scheme base base_length none = (RelayEndpointResult.invalid_base_url, none)
after_scheme base base_length (some (prefix_length, is_secure)) =
    let stripped = strip_slashes base prefix_length base_length in
    if is_refused base base_length
    then (RelayEndpointResult.invalid_base_url, none)
    else if leb stripped prefix_length
    then (RelayEndpointResult.invalid_base_url, none)
    else (
      RelayEndpointResult.ok,
      some (record { base_length = stripped; scheme_length = prefix_length; secure = is_secure }),
    )

-- The output arguments are the addresses of locals of its only caller, and are never NULL; they are
-- given back where they are written.
unfoldable pub normalize_base : Option (List ℕ) → RelayEndpointResult × Option NormalBase
normalize_base none = (RelayEndpointResult.invalid_argument, none)
normalize_base (some base) = after_scheme base (strlen base) (scheme_of base (strlen base))

abbrev pub output_scheme : Bool → List ℕ
output_scheme true = codes "wss://"
output_scheme false = codes "ws://"

-- The copies at the end of `pd_build_ws_path`.
unfoldable pub put_endpoint : List ℕ → List ℕ → List ℕ → List ℕ → List ℕ → List ℕ
put_endpoint scheme host path session_id output =
    store (length scheme + length host + length path + session_token_hex_chars) (0 ∷ []) (
      store (length scheme + length host + length path) session_id (
        store (length scheme + length host) path
          (store (length scheme) host (store 0 scheme output))))

-- `pd_build_ws_path` with the normalized base; `path_prefix` is the text of a literal.
unfoldable pub after_normalize :
    List ℕ
    → List ℕ
    → List ℕ
    → List ℕ
    → ℕ
    → RelayEndpointResult × Option NormalBase
    → RelayEndpointResult × Option (List ℕ)
after_normalize base path_prefix session_id output capacity (RelayEndpointResult.ok, some parts) =
    let scheme = output_scheme parts.secure in
    let host = take (parts.base_length - parts.scheme_length) (drop parts.scheme_length base) in
    let required =
      length scheme
      + (parts.base_length - parts.scheme_length)
      + length path_prefix
      + session_token_hex_chars
      + 1 in
    if ltb capacity required || ltb relay_endpoint_capacity required
    then (
      RelayEndpointResult.buffer_too_small,
      some (if not (capacity == 0) then store 0 (0 ∷ []) output else output),
    )
    else (
      RelayEndpointResult.ok,
      some (put_endpoint scheme host path_prefix (take session_token_hex_chars session_id) output),
    )
after_normalize base path_prefix session_id output capacity (result, parts) = (result, some output)

unfoldable pub build_ws_path :
    Option (List ℕ)
    → List ℕ
    → Option (List ℕ)
    → Option (List ℕ)
    → ℕ
    → RelayEndpointResult × Option (List ℕ)
build_ws_path base path_prefix session_id none capacity =
    (RelayEndpointResult.invalid_argument, none)
build_ws_path base path_prefix none (some output) capacity =
    (RelayEndpointResult.invalid_session_id, some output)
build_ws_path none path_prefix (some session_id) (some output) capacity =
    if not (session_id_is_valid (some session_id))
    then (RelayEndpointResult.invalid_session_id, some output)
    else (RelayEndpointResult.invalid_argument, some output)
build_ws_path (some base) path_prefix (some session_id) (some output) capacity =
    if not (session_id_is_valid (some session_id))
    then (RelayEndpointResult.invalid_session_id, some output)
    else after_normalize base path_prefix session_id output capacity (normalize_base (some base))

abbrev pub receiver_path : List ℕ
receiver_path = codes "/v1/receiver/"

abbrev pub sender_path : List ℕ
sender_path = codes "/v1/sender/"

unfoldable pub build_receiver_wss_url :
    Option (List ℕ) → Option (List ℕ) → Option (List ℕ) → ℕ → RelayEndpointResult × Option (List ℕ)
build_receiver_wss_url https_base_url session_id output capacity =
    build_ws_path https_base_url receiver_path session_id output capacity

unfoldable pub build_sender_wss_url :
    Option (List ℕ) → Option (List ℕ) → Option (List ℕ) → ℕ → RelayEndpointResult × Option (List ℕ)
build_sender_wss_url https_base_url session_id output capacity =
    build_ws_path https_base_url sender_path session_id output capacity
