-- ===== src/Hex.antt =====
-- Lower-case hexadecimal text. integrity.c, receiver_session.c and job_id.c each write bytes as two
-- digits in a loop of their own; the loops differ in how they mask a digit, which is a parameter.
pub mod Digits
use printdrop.Prelude.{ℕ, ◌+◌, ◌*◌, ◌/◌, ◌%◌, ◌^◌, Bool, ◌&&◌, ◌||◌, bit_and, List, [], ◌∷◌, leb}
use printdrop.Bytes.{store, at}
use printdrop.Bytes.Text.{codes}

-- `static const char digits[]`
abbrev pub digits : List ℕ
digits = codes "0123456789abcdef"

-- `pd_hex_digit` and `pd_job_hex_digit`
unfoldable pub hex_digit : ℕ → ℕ
hex_digit value = at digits (bit_and value 0x0f)

-- The loop of `pd_encode_hex`: `high` and `low` give the digits of a byte. The list is the input
-- that the loop has not reached.
unfoldable pub put_hex : (high low : ℕ → ℕ) → List ℕ → ℕ → List ℕ → List ℕ
put_hex high low [] index output = output
put_hex high low (b ∷ input) index output =
    put_hex high low input (index + 1)
      (store (index * 2 + 1) (low b ∷ []) (store (index * 2) (high b ∷ []) output))

-- `(character >= '0' && character <= '9') || (character >= 'a' && character <= 'f')`
unfoldable pub is_lower_hex_digit : ℕ → Bool
is_lower_hex_digit c = (leb b'0' c && leb c b'9') || (leb b'a' c && leb c b'f')

-- The loop that tests each character of a text so, over what it has not reached.
unfoldable pub all_lower_hex : List ℕ → Bool
all_lower_hex [] = Bool.true
all_lower_hex (c ∷ text) = is_lower_hex_digit c && all_lower_hex text
