-- ===== src/ReceiverSession/Compare.antt =====
-- The constant-time comparison decides equality of texts, and wiped credentials match nothing.
use printdrop.Prelude.{
  ℕ, suc, ◌≤◌, ◌≡◌, ◌≢◌, ◌↔◌, refl, sym, ap, ap₂, ◌∙◌, true, false, Option, some, none, List, [],
  ◌∷◌, ◌++◌, length, length-take, take, take-length-append, Bool-cases, inl, inr, length-replicate,
  replicate, arith, bit_or, bit_xor,
}
use printdrop.Prelude.Bits.{bit_or_zero, bit_xor_zero, bit_xor_self, zero-bit_or}
use printdrop.Bytes.Text.{strlen, text_of, strlen-le}
use printdrop.ReceiverSession.{text_difference, constant_time_text_equal}

text_difference_zero :
    (xs ys : List ℕ) (d : ℕ)
    → length xs ≡ length ys
    → text_difference xs ys d ≡ 0
    → (d ≡ 0) × (xs ≡ ys)
unfolding text_difference
text_difference_zero [] [] d n h = (h, refl)
text_difference_zero [] (y ∷ ys) d n h = absurd (omega arith)
text_difference_zero (x ∷ xs) [] d n h = absurd (omega arith)
text_difference_zero (x ∷ xs) (y ∷ ys) d n h =
    let (both, rest) = text_difference_zero xs ys (bit_or d (bit_xor x y)) (omega arith) h in
    let (old, byte) = bit_or_zero d (bit_xor x y) both in
    (old, ap₂ ◌∷◌ (bit_xor_zero x y byte) rest)

text_difference_self : (xs : List ℕ) → text_difference xs xs 0 ≡ 0
unfolding text_difference
text_difference_self [] = refl
text_difference_self (x ∷ xs) = rw (bit_xor_self x, zero-bit_or 0) (text_difference_self xs)

length-text_of : (s : List ℕ) → length (text_of s) ≡ strlen s
length-text_of s = omega (arith, length-take (strlen s) s, strlen-le s)

module _ (expected candidate : List ℕ) (n : ℕ) where
  equal_needs :
      constant_time_text_equal expected n (some candidate) ≡ true
      → (strlen candidate ≡ n) × (text_difference (take n expected) (take n candidate) 0 ≡ 0)
  unfolding constant_time_text_equal
  equal_needs h = ground arith

  equal_if :
      strlen candidate ≡ n
      → text_difference (take n expected) (take n candidate) 0 ≡ 0
      → constant_time_text_equal expected n (some candidate) ≡ true
  unfolding constant_time_text_equal
  equal_if h d = ground arith

-- Against a buffer that begins with the text `t` of the expected length, the comparison holds of
-- exactly the C strings with that text.
module _ (t rest candidate : List ℕ) (n : ℕ) (len : length t ≡ n) where
  front : take n (t ++ rest) ≡ t
  front = rw (← len) (take-length-append t rest)

  equal_only :
      constant_time_text_equal (t ++ rest) n (some candidate) ≡ true → text_of candidate ≡ t
  equal_only h =
      let (size, zero_diff) = equal_needs (t ++ rest) candidate n h in
      let both = rw front at zero_diff in
      let same =
        text_difference_zero t (take n candidate) 0
          (omega (arith, length-take n candidate, strlen-le candidate)) both in
      ap (λ k. take k candidate) size ∙ sym same.1

  equal_if_same :
      text_of candidate ≡ t → constant_time_text_equal (t ++ rest) n (some candidate) ≡ true
  equal_if_same e =
      let size : strlen candidate ≡ n = omega (arith, length-text_of candidate, ap length e) in
      equal_if (t ++ rest) candidate n size (rw (front, ← size, e) (text_difference_self t))

  pub constant_time_text_equal_iff :
      (constant_time_text_equal (t ++ rest) n (some candidate) ≡ true) ↔ (text_of candidate ≡ t)
  constant_time_text_equal_iff = (equal_only, equal_if_same)

no_text_with_nul : (candidate rest : List ℕ) → text_of candidate ≢ 0 ∷ rest
unfolding strlen
no_text_with_nul [] rest e = cc
no_text_with_nul (c ∷ candidate) rest e = ground arith

-- A wiped buffer matches no candidate: a C string has no NUL among its first bytes.
pub constant_time_text_equal-wiped :
    (k n : ℕ) (candidate : Option (List ℕ))
    → n ≤ k
    → constant_time_text_equal (0 ∷ replicate k 0) (suc n) candidate ≡ false
constant_time_text_equal-wiped k n none h = unfold constant_time_text_equal in refl
constant_time_text_equal-wiped k n (some candidate) h =
    elim (Bool-cases (constant_time_text_equal (0 ∷ replicate k 0) (suc n) (some candidate))) [
      | inl e ↦
          let (size, zero_diff) = equal_needs (0 ∷ replicate k 0) candidate (suc n) e in
          let lengths : length (take (suc n) (0 ∷ replicate k 0))
              ≡ length (take (suc n) candidate) =
            omega (
              arith,
              length-take {A = ℕ} n (replicate k 0),
              length-take (suc n) candidate,
              length-replicate {A = ℕ} k 0,
              strlen-le candidate,
            ) in
          let same =
            text_difference_zero (take (suc n) (0 ∷ replicate k 0)) (take (suc n) candidate) 0
              lengths zero_diff in
          absurd (
            no_text_with_nul candidate (take n (replicate k 0))
              (ap (λ m. take m candidate) size ∙ sym same.1))
      | inr e ↦ e
    ]
