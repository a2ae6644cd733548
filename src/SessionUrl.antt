-- ===== src/SessionUrl.antt =====
-- src/session_url.c and include/printdrop/session_url.h: the address that a QR code carries, a
-- prefix followed by the session's token. Pointers and output arguments are as in Frame.antt.
pub mod Build
use printdrop.Prelude.{
  ℕ, ◌+◌, ◌-◌, ◌^◌, Bool, true, false, not, ◌||◌, Option, none, some, List, [], ◌∷◌, ltb, ◌==◌,
  if◌then◌else◌, take,
}
use printdrop.Bytes.{store, at, write_out}
use printdrop.Bytes.Text.{strlen}
use printdrop.ReceiverSession.{ReceiverSession, SessionState, session_token_hex_chars}

pub data SessionUrlResult : Type 0 where
  ok invalid_argument session_unavailable buffer_too_small : SessionUrlResult

abbrev pub size_max : ℕ
size_max = 2 ^ 64 - 1

-- WAITING or TRANSFERRING.
abbrev pub is_available : SessionState → Bool
is_available SessionState.waiting = true
is_available SessionState.transferring = true
is_available _ = false

-- The copies at the end of `pd_receiver_session_build_url`.
unfoldable pub put_url : List ℕ → ℕ → List ℕ → ℕ → List ℕ → List ℕ
put_url session_prefix prefix_length token token_length output =
    store (prefix_length + token_length) (0 ∷ []) (
      store prefix_length (take token_length token)
        (store 0 (take prefix_length session_prefix) output))

-- The result, the output buffer and `*required_capacity` after the call.
unfoldable pub build_url :
    Option ReceiverSession
    → Option (List ℕ)
    → Option (List ℕ)
    → ℕ
    → Option ℕ
    → SessionUrlResult × Option (List ℕ) × Option ℕ
build_url none session_prefix output capacity required =
    (SessionUrlResult.invalid_argument, output, write_out required 0)
build_url (some session) none output capacity required =
    (SessionUrlResult.invalid_argument, output, write_out required 0)
build_url (some session) (some session_prefix) none capacity required =
    (SessionUrlResult.invalid_argument, none, write_out required 0)
build_url (some session) (some session_prefix) (some output) capacity required =
    let zeroed = write_out required 0 in
    let prefix_length = strlen session_prefix in
    let token_length = strlen session.token in
    let needed = prefix_length + token_length + 1 in
    if not (is_available session.state) || at session.token 0 == 0
    then (SessionUrlResult.session_unavailable, some output, zeroed)
    else if prefix_length == 0
        || not (token_length == session_token_hex_chars)
        || ltb (size_max - token_length - 1) prefix_length
    then (SessionUrlResult.invalid_argument, some output, zeroed)
    else if ltb capacity needed
    then (
      SessionUrlResult.buffer_too_small,
      some (if ltb 0 capacity then store 0 (0 ∷ []) output else output),
      write_out zeroed needed,
    )
    else (
      SessionUrlResult.ok,
      some (put_url session_prefix prefix_length session.token token_length output),
      write_out zeroed needed,
    )
