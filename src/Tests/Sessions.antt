-- ===== src/Tests/Sessions.antt =====
-- Sessions at concrete inputs.
use printdrop.Prelude.{
  ℕ, zero, suc, ◌+◌, ◌<◌, ◌≡◌, ◌≢◌, ◌↔◌, refl, Bool, true, false, some, List, [], ◌∷◌, ◌++◌, length,
  replicate, All, arith,
}
use printdrop.Bytes.{IsByte}
use printdrop.Bytes.Text.{strlen, text_of}
use printdrop.Hex.Digits.{hex_text}
use printdrop.SecureZero.{zero_bytes}
use printdrop.ReceiverSession.{
  clear_credentials, ReceiverSession, SessionState, SessionResult, after_entropy, session_create,
  token_matches, secret_matches, expire_if_due, begin_transfer, session_close,
  constant_time_text_equal, text_difference,
}
use printdrop.ReceiverSession.Create.{
  IsSized, IsWiped, IsArmed, IsCreated, FillsBuffers, session_create-IsArmed, session_create_failed,
}
use printdrop.ReceiverSession.Credentials.{token_matches-IsArmed, matches-IsWiped}
use printdrop.ReceiverSession.Lifecycle.{Reach, here, next, closes, begin_transfer_ok}
use printdrop.ReceiverSession.Reachable.{IsSound, live, Reach-IsSound, begin_transfer_once}

abbrev blank : ReceiverSession
blank = record {
  token = replicate 33 9;
  receiver_secret = replicate 65 9;
  created_at_ms = 0;
  expires_at_ms = 0;
  state = SessionState.inactive;
}

blank-IsSized : IsSized blank
blank-IsSized = record { token_size = refl; secret_size = refl }

replicate-IsByte : (n b : ℕ) → b < 256 → All IsByte (replicate n b)
replicate-IsByte zero b h = tt
replicate-IsByte (suc n) b h = (h, replicate-IsByte n b h)

length-replicate : (n b : ℕ) → length (replicate n b) ≡ n
length-replicate zero b = refl
length-replicate (suc n) b = ground (arith, length-replicate n b)

-- A random source that always gives the same byte, and one that always fails.
abbrev constant_fill : ℕ → ℕ → Bool × List ℕ × ℕ
constant_fill r n = (true, replicate n 0xab, r + 1)

abbrev no_fill : ℕ → ℕ → Bool × List ℕ × ℕ
no_fill r n = (false, [], r)

constant_fill-FillsBuffers : FillsBuffers constant_fill
constant_fill-FillsBuffers r n e = (replicate-IsByte n 0xab (omega arith), length-replicate n 0xab)

create_ok : (session_create (some blank) 5 1000 (some constant_fill) 0).0 ≡ SessionResult.ok
unfolding session_create after_entropy
create_ok = refl

session_create-IsArmed_example :
    (s : ReceiverSession) × ((session_create (some blank) 5 1000 (some constant_fill) 0).1 ≡ some s)
    × IsCreated s (replicate 48 0xab) 5 1000
    × IsArmed s
session_create-IsArmed_example =
    session_create-IsArmed constant_fill blank 5 1000 0 constant_fill-FillsBuffers blank-IsSized
      (omega arith) create_ok

create_fails : (session_create (some blank) 5 1000 (some no_fill) 0).0 ≢ SessionResult.ok
unfolding session_create after_entropy
create_fails e = cc

session_create_failed_example :
    (s : ReceiverSession) × ((session_create (some blank) 5 1000 (some no_fill) 0).1 ≡ some s)
    × IsWiped s
    × (s.state ≡ SessionState.inactive)
session_create_failed_example =
    session_create_failed no_fill blank 5 1000 0 blank-IsSized (omega arith) create_fails

abbrev token_text : List ℕ
token_text = hex_text (replicate 16 0xab)

abbrev armed : ReceiverSession
armed = record {
  token = token_text ++ 0 ∷ [];
  receiver_secret = hex_text (replicate 32 0xab) ++ 0 ∷ [];
  created_at_ms = 5;
  expires_at_ms = 1005;
  state = SessionState.waiting;
}

abbrev armed-IsArmed : IsArmed armed
armed-IsArmed = record {
  token_bytes = replicate 16 0xab;
  secret_bytes = replicate 32 0xab;
  token_length = refl;
  secret_length = refl;
  token = refl;
  secret = refl;
  lasts = omega arith;
  in_range = omega arith;
}

abbrev wiped : ReceiverSession
wiped = record armed {
  token = replicate 33 0;
  receiver_secret = replicate 65 0;
  state = SessionState.closed;
}

token_matches-IsArmed_example :
    (token_matches (some armed) (some (token_text ++ 0 ∷ [])) ≡ true)
    ↔ (text_of (token_text ++ 0 ∷ []) ≡ token_text)
token_matches-IsArmed_example = token_matches-IsArmed armed armed-IsArmed (token_text ++ 0 ∷ [])

matches-IsWiped_example :
    (token_matches (some wiped) (some (replicate 33 0)) ≡ false)
    × (secret_matches (some wiped) (some (replicate 33 0)) ≡ false)
matches-IsWiped_example =
    matches-IsWiped wiped (some (replicate 33 0)) (record { token = refl; secret = refl })

begin_transfer_ok_example :
    ((begin_transfer (some armed) (some (token_text ++ 0 ∷ [])) 500).0 ≡ SessionResult.ok) ↔ (
      (SessionState.waiting ≡ SessionState.waiting)
      × (500 < 1005)
      × (token_matches (some armed) (some (token_text ++ 0 ∷ [])) ≡ true))
begin_transfer_ok_example = begin_transfer_ok armed (token_text ++ 0 ∷ []) 500

abbrev busy : ReceiverSession
busy = record armed { state = SessionState.transferring }

armed_begins :
    begin_transfer (some armed) (some (token_text ++ 0 ∷ [])) 500 ≡ (SessionResult.ok, some busy)
unfolding begin_transfer expire_if_due token_matches constant_time_text_equal text_difference strlen
    hex_text
armed_begins = refl

busy_closes : Reach busy wiped
unfolding session_close zero_bytes hex_text clear_credentials
busy_closes = next here (closes refl)

begin_transfer_once_example :
    (begin_transfer (some wiped) (some (token_text ++ 0 ∷ [])) 600).0 ≢ SessionResult.ok
begin_transfer_once_example =
    begin_transfer_once armed busy wiped (token_text ++ 0 ∷ []) (token_text ++ 0 ∷ []) 500 600
      armed_begins busy_closes

armed_closes : Reach armed wiped
unfolding session_close zero_bytes hex_text clear_credentials
armed_closes = next here (closes refl)

Reach-IsSound_example : IsSound wiped
Reach-IsSound_example = Reach-IsSound {s = armed} {t = wiped} (live tt armed-IsArmed) armed_closes
