-- ===== src/ReceiverSession.antt =====
-- src/receiver_session.c and include/printdrop/receiver_session.h: the short-lived session that a
-- QR code opens, with its token and its receiver secret. Pointers and output arguments are as in
-- Frame.antt. The random source is a parameter: a state, and a function that says whether it filled
-- the buffer, with what, and the next state.
pub mod Compare
pub mod Create
pub mod Credentials
pub mod Lifecycle
pub mod Reachable
use printdrop.Prelude.{
  ℕ, ◌+◌, ◌-◌, ◌*◌, ◌/◌, ◌%◌, ◌^◌, bit_or, bit_xor, Bool, true, false, not, ◌&&◌, ◌||◌, Option,
  none, some, List, [], ◌∷◌, ltb, ◌==◌, if◌then◌else◌, length, take, drop, replicate,
}
use printdrop.Bytes.{store, at}
use printdrop.Bytes.Text.{strlen}
use printdrop.Hex.{hex_digit, put_hex}
use printdrop.SecureZero.{zero_bytes}

abbrev pub session_token_bytes : ℕ
session_token_bytes = 16

abbrev pub session_token_hex_chars : ℕ
session_token_hex_chars = session_token_bytes * 2

abbrev pub session_token_capacity : ℕ
session_token_capacity = session_token_hex_chars + 1

abbrev pub receiver_secret_bytes : ℕ
receiver_secret_bytes = 32

abbrev pub receiver_secret_hex_chars : ℕ
receiver_secret_hex_chars = receiver_secret_bytes * 2

abbrev pub receiver_secret_capacity : ℕ
receiver_secret_capacity = receiver_secret_hex_chars + 1

abbrev pub session_entropy_bytes : ℕ
session_entropy_bytes = session_token_bytes + receiver_secret_bytes

pub data SessionState : Type 0 where
  inactive waiting transferring expired closed : SessionState

pub data SessionResult : Type 0 where
  ok invalid_argument invalid_state entropy_failure : SessionResult
  clock_overflow token_mismatch expired_result : SessionResult

pub record ReceiverSession : Type 0 where
  pub token : List ℕ
  pub receiver_secret : List ℕ
  pub created_at_ms : ℕ
  pub expires_at_ms : ℕ
  pub state : SessionState

abbrev pub uint64_max : ℕ
uint64_max = 2 ^ 64 - 1

-- `pd_encode_hex`: the digits of `input_size` bytes, and a NUL.
unfoldable pub encode_hex : List ℕ → ℕ → List ℕ → List ℕ
encode_hex input input_size output =
    store (input_size * 2) (0 ∷ [])
      (put_hex (λ b. hex_digit (b / 16 % 256)) hex_digit (take input_size input) 0 output)

-- The loop of `pd_constant_time_text_equal`, over what it has not reached.
unfoldable pub text_difference : List ℕ → List ℕ → ℕ → ℕ
text_difference (e ∷ expected) (c ∷ candidate) difference =
    text_difference expected candidate (bit_or difference (bit_xor e c))
text_difference expected candidate difference = difference

unfoldable pub constant_time_text_equal : List ℕ → ℕ → Option (List ℕ) → Bool
constant_time_text_equal expected expected_length none = false
constant_time_text_equal expected expected_length (some candidate) =
    if not (strlen candidate == expected_length)
    then false
    else text_difference (take expected_length expected) (take expected_length candidate) 0 == 0

unfoldable pub session_reset : ReceiverSession → ReceiverSession
session_reset session = record {
  token = zero_bytes session_token_capacity session.token;
  receiver_secret = zero_bytes receiver_secret_capacity session.receiver_secret;
  created_at_ms = 0;
  expires_at_ms = 0;
  state = SessionState.inactive;
}

unfoldable pub clear_credentials : ReceiverSession → ReceiverSession
clear_credentials session = record session {
  token = zero_bytes session_token_capacity session.token;
  receiver_secret = zero_bytes receiver_secret_capacity session.receiver_secret;
}

-- The end of `pd_receiver_session_create`, with the bytes that the random source gave.
unfoldable pub activate : ReceiverSession → List ℕ → ℕ → ℕ → ReceiverSession
activate session entropy now_ms ttl_ms = record session {
  token = encode_hex entropy session_token_bytes session.token;
  receiver_secret =
      encode_hex (drop session_token_bytes entropy) receiver_secret_bytes session.receiver_secret;
  created_at_ms = now_ms;
  expires_at_ms = (now_ms + ttl_ms) % 2 ^ 64;
  state = SessionState.waiting;
}

module _ {R : Type 0} where
  -- The answer of the random source to a request for the 48 bytes.
  unfoldable pub after_entropy :
      ReceiverSession → ℕ → ℕ → Bool × List ℕ × R → SessionResult × Option ReceiverSession × R
  after_entropy session now_ms ttl_ms (filled, entropy, random) =
      if not filled
      then (SessionResult.entropy_failure, some session, random)
      else (SessionResult.ok, some (activate session entropy now_ms ttl_ms), random)

  unfoldable pub session_create :
      Option ReceiverSession
      → ℕ
      → ℕ
      → Option (R → ℕ → Bool × List ℕ × R)
      → R
      → SessionResult × Option ReceiverSession × R
  session_create none now_ms ttl_ms random_fill random =
      (SessionResult.invalid_argument, none, random)
  session_create (some session) now_ms ttl_ms none random =
      (SessionResult.invalid_argument, some session, random)
  session_create (some session) now_ms ttl_ms (some random_fill) random =
      let fresh = session_reset session in
      if ttl_ms == 0
      then (SessionResult.invalid_argument, some session, random)
      else if ltb (uint64_max - now_ms) ttl_ms
      then (SessionResult.clock_overflow, some fresh, random)
      else after_entropy fresh now_ms ttl_ms (random_fill random session_entropy_bytes)

unfoldable pub token_matches : Option ReceiverSession → Option (List ℕ) → Bool
token_matches none candidate = false
token_matches (some session) candidate =
    constant_time_text_equal session.token session_token_hex_chars candidate

unfoldable pub secret_matches : Option ReceiverSession → Option (List ℕ) → Bool
secret_matches none candidate = false
secret_matches (some session) candidate =
    constant_time_text_equal session.receiver_secret receiver_secret_hex_chars candidate

-- INACTIVE, CLOSED and EXPIRED sessions do not expire.
abbrev pub can_expire : SessionState → Bool
can_expire SessionState.waiting = true
can_expire SessionState.transferring = true
can_expire _ = false

unfoldable pub expire_if_due : Option ReceiverSession → ℕ → Bool × Option ReceiverSession
expire_if_due none now_ms = (false, none)
expire_if_due (some session) now_ms =
    if not (can_expire session.state)
    then (false, some session)
    else if ltb now_ms session.expires_at_ms
    then (false, some session)
    else (true, some (record (clear_credentials session) { state = SessionState.expired }))

-- The part of `pd_receiver_session_begin_transfer` for a waiting session, after the expiry check.
unfoldable pub begin_waiting :
    Bool × Option ReceiverSession → List ℕ → SessionResult × Option ReceiverSession
begin_waiting (true, session) candidate_token = (SessionResult.expired_result, session)
begin_waiting (false, none) candidate_token = (SessionResult.invalid_argument, none)
begin_waiting (false, some session) candidate_token =
    if not (token_matches (some session) (some candidate_token))
    then (SessionResult.token_mismatch, some session)
    else (SessionResult.ok, some (record session { state = SessionState.transferring }))

unfoldable pub begin_by_state :
    SessionState → ReceiverSession → List ℕ → ℕ → SessionResult × Option ReceiverSession
unfolding begin_waiting
begin_by_state SessionState.waiting session candidate_token now_ms =
    begin_waiting (expire_if_due (some session) now_ms) candidate_token
begin_by_state SessionState.expired session candidate_token now_ms =
    (SessionResult.expired_result, some session)
begin_by_state _ session candidate_token now_ms = (SessionResult.invalid_state, some session)

unfoldable pub begin_transfer :
    Option ReceiverSession → Option (List ℕ) → ℕ → SessionResult × Option ReceiverSession
unfolding begin_by_state
begin_transfer none candidate_token now_ms = (SessionResult.invalid_argument, none)
begin_transfer (some session) none now_ms = (SessionResult.invalid_argument, some session)
begin_transfer (some session) (some candidate_token) now_ms =
    begin_by_state session.state session candidate_token now_ms

abbrev close_by_state : SessionState → ReceiverSession → ReceiverSession
close_by_state SessionState.inactive session = session
close_by_state _ session = record (clear_credentials session) { state = SessionState.closed }

unfoldable pub session_close : Option ReceiverSession → Option ReceiverSession
session_close none = none
session_close (some session) = some (close_by_state session.state session)
