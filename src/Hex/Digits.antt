-- ===== src/Hex/Digits.antt =====
-- What the hexadecimal loops write and accept.
use printdrop.Prelude.{
  ℕ, zero, suc, ◌+◌, ◌*◌, ◌/◌, ◌%◌, ◌≤◌, ◌<◌, ◌≡◌, refl, sym, ap, ap₂, ◌∙◌, Bool, true, ◌&&◌,
  bit_and, List, [], ◌∷◌, ◌++◌, append_assoc, append-nil, length, length-append, drop, All, ◌==◌,
  ==_iff, arith,
}
use printdrop.Bytes.{IsByte, store, at}
use printdrop.Bytes.Store.{store_next}
use printdrop.Bytes.Text.{IsChar}
use printdrop.Hex.{digits, hex_digit, put_hex, is_lower_hex_digit, all_lower_hex}

-- The digit of a number below 16, in plain arithmetic.
abbrev pub digit_char : ℕ → ℕ
digit_char n = at digits n

abbrev pair : ℕ → List ℕ
pair b = digit_char (b / 16) ∷ digit_char (b % 16) ∷ []

-- The two digits of a byte, and the digits of a list of bytes.
unfoldable pub hex_text : List ℕ → List ℕ
hex_text [] = []
hex_text (b ∷ bytes) = digit_char (b / 16) ∷ digit_char (b % 16) ∷ hex_text bytes

pub length-hex_text : (bytes : List ℕ) → length (hex_text bytes) ≡ length bytes * 2
unfolding hex_text
length-hex_text [] = omega arith
length-hex_text (b ∷ bytes) = omega (arith, length-hex_text bytes)

-- Over a small range, a table settles a test.
unfoldable pub holds : (ℕ → Bool) → ℕ → Bool
holds p zero = true
holds p (suc n) = p n && holds p n

pub holds_below : (p : ℕ → Bool) (n : ℕ) → holds p n ≡ true → (i : ℕ) → i < n → p i ≡ true
unfolding holds
holds_below p zero e i h = absurd (omega arith)
holds_below p (suc n) e i h = ground (arith, holds_below p n (ground arith) i)

nibble_table : holds (λ b. bit_and b 0x0f == b % 16) 256 ≡ true
unfolding holds
nibble_table = refl

pub low_nibble : (b : ℕ) → IsByte b → bit_and b 0x0f ≡ b % 16
low_nibble b h = (==_iff _ _).0 (holds_below (λ b. bit_and b 0x0f == b % 16) 256 nibble_table b h)

regroup : (xs ys out : List ℕ) (m n : ℕ) → xs ≡ ys → m ≡ n → xs ++ drop m out ≡ ys ++ drop n out
regroup xs ys out m n p q = ap₂ (λ zs k. zs ++ drop k out) p q

-- One round writes two digits behind what is there.
two_digits :
    (h l : ℕ) (pre out : List ℕ) (i : ℕ)
    → length pre ≡ i * 2
    → i * 2 + 2 ≤ length out
    → store (i * 2 + 1) (l ∷ []) (store (i * 2) (h ∷ []) (pre ++ drop (i * 2) out))
      ≡ (pre ++ h ∷ l ∷ []) ++ drop ((i + 1) * 2) out
two_digits h l pre out i e room = rw (store_next pre (h ∷ []) out (i * 2) (sym e) (omega arith)) (
    store_next (pre ++ h ∷ []) (l ∷ []) out (i * 2 + 1) (omega (arith, length-append pre (h ∷ [])))
      (omega arith)
    ∙ regroup ((pre ++ h ∷ []) ++ l ∷ []) (pre ++ h ∷ l ∷ []) out (i * 2 + 1 + 1) ((i + 1) * 2)
        (append_assoc pre (h ∷ []) (l ∷ [])) (omega arith))

-- The loop writes the digits of all bytes, one behind the other.
module _ (high low : ℕ → ℕ) (hi : (b : ℕ) → IsByte b → high b ≡ digit_char (b / 16))
    (lo : (b : ℕ) → IsByte b → low b ≡ digit_char (b % 16)) where
  put_hex-behind :
      (bytes pre out : List ℕ) (i : ℕ)
      → All IsByte bytes
      → length pre ≡ i * 2
      → i * 2 + length bytes * 2 ≤ length out
      → put_hex high low bytes i (pre ++ drop (i * 2) out)
        ≡ (pre ++ hex_text bytes) ++ drop (i * 2 + length bytes * 2) out
  unfolding put_hex hex_text
  put_hex-behind [] pre out i h e room =
      rw append-nil (ap (λ n. pre ++ drop n out) {x = i * 2} {y = i * 2 + 0} (omega arith))
  put_hex-behind (b ∷ bytes) pre out i h e room =
      rw
        (
          hi b h.0,
          lo b h.0,
          two_digits (digit_char (b / 16)) (digit_char (b % 16)) pre out i e (omega arith),
        )
        (put_hex-behind bytes (pre ++ pair b) out (i + 1) h.1
            (omega (arith, length-append pre (pair b))) (omega arith)
          ∙ regroup ((pre ++ pair b) ++ hex_text bytes) (pre ++ (pair b ++ hex_text bytes)) out
              ((i + 1) * 2 + length bytes * 2) (i * 2 + suc (length bytes) * 2)
              (append_assoc pre (pair b) (hex_text bytes)) (omega arith))

  pub put_hex-hex_text :
      (bytes out : List ℕ)
      → All IsByte bytes
      → length bytes * 2 ≤ length out
      → put_hex high low bytes 0 out ≡ hex_text bytes ++ drop (length bytes * 2) out
  put_hex-hex_text bytes out h room =
      put_hex-behind bytes [] out 0 h refl (omega arith)
      ∙ ap (λ n. hex_text bytes ++ drop n out) {x = 0 + length bytes * 2} {y = length bytes * 2}
          (omega arith)

  -- And then the NUL.
  pub put_hex_nul :
      (bytes out : List ℕ)
      → All IsByte bytes
      → length bytes * 2 + 1 ≤ length out
      → store (length bytes * 2) (0 ∷ []) (put_hex high low bytes 0 out)
        ≡ hex_text bytes ++ 0 ∷ drop (length bytes * 2 + 1) out
  put_hex_nul bytes out h room = rw (put_hex-hex_text bytes out h (omega arith)) (
      store_next (hex_text bytes) (0 ∷ []) out (length bytes * 2) (sym (length-hex_text bytes)) room
      ∙ append_assoc (hex_text bytes) (0 ∷ []) (drop (length bytes * 2 + 1) out))

pub hex_digit_high : (b : ℕ) → IsByte b → hex_digit (b / 16 % 256) ≡ digit_char (b / 16)
unfolding hex_digit
hex_digit_high b h = ap digit_char (low_nibble (b / 16 % 256) (omega arith) ∙ omega arith)

pub hex_digit_low : (b : ℕ) → IsByte b → hex_digit b ≡ digit_char (b % 16)
unfolding hex_digit
hex_digit_low b h = ap digit_char (low_nibble b h)

digits_lower : holds (λ n. is_lower_hex_digit (digit_char n)) 16 ≡ true
unfolding holds is_lower_hex_digit
digits_lower = refl

digit_table : (n : ℕ) → n < 16 → is_lower_hex_digit (digit_char n) ≡ true
digit_table = holds_below (λ n. is_lower_hex_digit (digit_char n)) 16 digits_lower

-- What is written is lower-case hexadecimal.
pub hex_text-all_lower_hex :
    (bytes : List ℕ) → All IsByte bytes → all_lower_hex (hex_text bytes) ≡ true
unfolding hex_text all_lower_hex
hex_text-all_lower_hex [] h = refl
hex_text-all_lower_hex (b ∷ bytes) h = ground (
  arith,
  digit_table (b / 16) (omega arith),
  digit_table (b % 16) (omega arith),
  hex_text-all_lower_hex bytes h.1,
)

-- A text that passes the test has no NUL in it.
pub all_lower_hex-IsChar : (text : List ℕ) → all_lower_hex text ≡ true → All IsChar text
unfolding all_lower_hex is_lower_hex_digit
all_lower_hex-IsChar [] h = tt
all_lower_hex-IsChar (c ∷ text) h = ground (arith, all_lower_hex-IsChar text)
