-- ===== src/SecureZero.antt =====
-- src/secure_zero.c: wiping a buffer. (That the compiler keeps the writes is outside the model.)
use printdrop.Prelude.{
  ℕ, zero, suc, ◌≡◌, refl, ap, Option, none, some, List, [], ◌∷◌, length, replicate, arith,
}

-- The loop, over the bytes from `cursor` on.
unfoldable pub zero_bytes : ℕ → List ℕ → List ℕ
zero_bytes zero buffer = buffer
zero_bytes (suc n) [] = []
zero_bytes (suc n) (b ∷ buffer) = 0 ∷ zero_bytes n buffer

unfoldable pub secure_zero : Option (List ℕ) → ℕ → Option (List ℕ)
secure_zero none size = none
secure_zero (some buffer) size = some (zero_bytes size buffer)

-- A buffer that is wiped in its whole size holds zeros only.
pub zero_bytes_whole :
    (buffer : List ℕ) (n : ℕ) → length buffer ≡ n → zero_bytes n buffer ≡ replicate n 0
unfolding zero_bytes
zero_bytes_whole [] zero h = refl
zero_bytes_whole [] (suc n) h = absurd (omega arith)
zero_bytes_whole (b ∷ buffer) zero h = absurd (omega arith)
zero_bytes_whole (b ∷ buffer) (suc n) h = ap (◌∷◌ 0) (zero_bytes_whole buffer n (omega arith))
