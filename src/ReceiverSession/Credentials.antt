-- ===== src/ReceiverSession/Credentials.antt =====
-- Which candidates the credentials of a session match.
use printdrop.Prelude.{ℕ, ◌≡◌, ◌↔◌, true, false, Option, some, List, [], ◌∷◌, arith}
use printdrop.Bytes.Text.{text_of}
use printdrop.Hex.Digits.{hex_text, length-hex_text}
use printdrop.ReceiverSession.{ReceiverSession, token_matches, secret_matches}
use printdrop.ReceiverSession.Compare.{constant_time_text_equal_iff, constant_time_text_equal-wiped}
use printdrop.ReceiverSession.Create.{IsWiped, IsArmed}

-- An armed session's token is matched by exactly the C strings that spell it.
pub token_matches-IsArmed :
    (s : ReceiverSession) (a : IsArmed s) (candidate : List ℕ)
    → (token_matches (some s) (some candidate) ≡ true)
      ↔ (text_of candidate ≡ hex_text a.token_bytes)
unfolding token_matches
token_matches-IsArmed s a candidate = rw (a.token) (
    constant_time_text_equal_iff (hex_text a.token_bytes) (0 ∷ []) candidate 32
      (omega (arith, length-hex_text a.token_bytes, a.token_length)))

pub secret_matches-IsArmed :
    (s : ReceiverSession) (a : IsArmed s) (candidate : List ℕ)
    → (secret_matches (some s) (some candidate) ≡ true)
      ↔ (text_of candidate ≡ hex_text a.secret_bytes)
unfolding secret_matches
secret_matches-IsArmed s a candidate = rw (a.secret) (
    constant_time_text_equal_iff (hex_text a.secret_bytes) (0 ∷ []) candidate 64
      (omega (arith, length-hex_text a.secret_bytes, a.secret_length)))

-- A session whose credentials are wiped matches no token and no secret.
pub matches-IsWiped :
    (s : ReceiverSession) (candidate : Option (List ℕ))
    → IsWiped s
    → (token_matches (some s) candidate ≡ false) × (secret_matches (some s) candidate ≡ false)
unfolding token_matches secret_matches
matches-IsWiped s candidate w = (
  rw w.token (constant_time_text_equal-wiped 32 31 candidate (omega arith)),
  rw w.secret (constant_time_text_equal-wiped 64 63 candidate (omega arith)),
)
