-- ===== src/Integrity/Digest.antt =====
-- The comparison of digests decides equality.
use printdrop.Prelude.{
  ℕ, ◌%◌, ◌^◌, ◌<◌, ◌≡◌, ◌↔◌, refl, sym, ap₂, ◌∙◌, true, ==_iff, bit_or, bit_xor, some, List, [],
  ◌∷◌, length, take-of_length, All, arith,
}
use printdrop.Prelude.Bits.{bit_or_zero, bit_xor_zero, bit_xor_self, bit_or-lt, bit_xor-lt}
use printdrop.Bytes.{IsByte}
use printdrop.Integrity.{digest_difference, digest_equal}

difference_zero :
    (xs ys : List ℕ) (d : ℕ)
    → IsByte d
    → All IsByte xs
    → All IsByte ys
    → length xs ≡ length ys
    → digest_difference xs ys d ≡ 0
    → (d ≡ 0) × (xs ≡ ys)
unfolding digest_difference
difference_zero [] [] d hd hx hy n h = (h, refl)
difference_zero [] (y ∷ ys) d hd hx hy n h = absurd (omega arith)
difference_zero (x ∷ xs) [] d hd hx hy n h = absurd (omega arith)
difference_zero (x ∷ xs) (y ∷ ys) d hd hx hy n h =
    let bx : bit_xor x y < 2 ^ 8 = bit_xor-lt 8 x y hx.0 hy.0 in
    let small : bit_xor x y % 2 ^ 8 ≡ bit_xor x y = omega arith in
    let next = bit_or d (bit_xor x y % 2 ^ 8) % 2 ^ 8 in
    let (both, rest) = difference_zero xs ys next (omega arith) hx.1 hy.1 (omega arith) h in
    let bound : bit_or d (bit_xor x y % 2 ^ 8) < 2 ^ 8 =
      bit_or-lt 8 d (bit_xor x y % 2 ^ 8) hd (omega arith) in
    let (old, byte) = bit_or_zero d (bit_xor x y % 2 ^ 8) (omega arith) in
    (old, ap₂ ◌∷◌ (bit_xor_zero x y (sym small ∙ byte)) rest)

difference_self : (xs : List ℕ) → digest_difference xs xs 0 ≡ 0
unfolding digest_difference
difference_self [] = refl
difference_self (x ∷ xs) = rw (bit_xor_self x) (difference_self xs)

-- Of two lists of 32 bytes, `pd_digest_equal` is true exactly if they are equal.
pub digest_equal_iff :
    (left right : List ℕ)
    → All IsByte left
    → All IsByte right
    → length left ≡ 32
    → length right ≡ 32
    → (digest_equal (some left) (some right) ≡ true) ↔ (left ≡ right)
unfolding digest_equal
digest_equal_iff left right hl hr nl nr =
    rw (take-of_length 32 left nl, take-of_length 32 right nr)
      (
        λ h.
            (difference_zero left right 0 (omega arith) hl hr (omega arith)
              ((==_iff (digest_difference left right 0) 0).0 h)).1,
        λ e. rw e ((==_iff (digest_difference right right 0) 0).1 (difference_self right)),
      )
