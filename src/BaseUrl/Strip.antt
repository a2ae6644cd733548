-- ===== src/BaseUrl/Strip.antt =====
-- What the tests of a base URL find: the scheme, the trailing slashes, the refused characters.
use native.Mathlib.Nat.{zero-add, suc-add}
use printdrop.Prelude.{
  ℕ, zero, suc, ◌+◌, ◌-◌, ◌≤◌, ◌<◌, ◌≡◌, ◌≢◌, refl, sym, ap, subst, ◌∙◌, true, false, if_cases,
  ◌&&◌, List, [], ◌∷◌, ◌++◌, append_assoc, append-nil, length, take, drop, replicate, All, ◌==◌,
  ltb, arith,
}
use printdrop.Bytes.{at}
use printdrop.Bytes.Text.{memchr}
use printdrop.BaseUrl.{strip_slashes}

take-suc : (n : ℕ) (xs : List ℕ) → n < length xs → take (suc n) xs ≡ take n xs ++ at xs n ∷ []
take-suc n [] h = absurd (omega arith)
take-suc zero (x ∷ xs) h = refl
take-suc (suc n) (x ∷ xs) h = ap (◌∷◌ x) (take-suc n xs (omega arith))

pub take_split : (m n : ℕ) (xs : List ℕ) → take (m + n) xs ≡ take m xs ++ take n (drop m xs)
take_split zero n xs = rw zero-add
take_split (suc m) zero [] = rw suc-add
take_split (suc m) (suc n) [] = rw suc-add
take_split (suc m) n (x ∷ xs) = rw suc-add (ap (◌∷◌ x) (take_split m n xs))

replicate_snoc : (n c : ℕ) → replicate n c ++ c ∷ [] ≡ replicate (suc n) c
replicate_snoc zero c = refl
replicate_snoc (suc n) c = ap (◌∷◌ c) (replicate_snoc n c)

pub memchr-false : (s : List ℕ) (c n : ℕ) → memchr s c n ≡ false → All (λ x. x ≢ c) (take n s)
unfolding memchr
memchr-false s c zero h = tt
memchr-false [] c (suc n) h = tt
memchr-false (x ∷ s) c (suc n) h = ground (arith, memchr-false s c n)

-- `n` is where the run of slashes at the end of `len` bytes begins, or `p` if that is later.
pub record IsStripped (base : List ℕ) (p len n : ℕ) : Type 0 where
  pub within : n ≤ len
  pub behind : p ≤ len → p ≤ n
  pub slashes : take len base ≡ take n base ++ replicate (len - n) b'/'
  pub ends : p < n → at base (n - 1) ≢ b'/'

the_slash :
    (base : List ℕ) (p len : ℕ)
    → (ltb p (suc len) && at base len == b'/') ≡ true
    → at base len ≡ b'/'
the_slash base p len e = ground (arith, e)

no_slash :
    (base : List ℕ) (p len : ℕ)
    → (ltb p (suc len) && at base len == b'/') ≡ false
    → p < suc len
    → at base len ≢ b'/'
no_slash base p len e q = ground (arith, e)

pub strip_slashes-IsStripped :
    (base : List ℕ) (p len : ℕ)
    → len ≤ length base
    → IsStripped base p len (strip_slashes base p len)
unfolding strip_slashes
strip_slashes-IsStripped base p zero h = record {
  within = omega arith;
  behind = λ q. q;
  slashes = refl;
  ends = λ q. absurd (omega (arith, q));
}
strip_slashes-IsStripped base p (suc len) h =
    let n = strip_slashes base p len in
    let i = strip_slashes-IsStripped base p len (omega arith) in
    if_cases (λ n. IsStripped base p (suc len) n) (ltb p (suc len) && at base len == b'/')
      (strip_slashes base p len) (suc len)
      (λ e. record {
        within = omega (arith, i.within);
        behind = λ q. i.behind (ground (arith, e));
        slashes =
            take-suc len base (omega arith)
            ∙ ap (◌++◌ (take len base)) (ap (λ c. c ∷ []) (the_slash base p len e))
            ∙ ap (λ xs. xs ++ b'/' ∷ []) i.slashes
            ∙ append_assoc (take n base) (replicate (len - n) b'/') (b'/' ∷ [])
            ∙ ap (◌++◌ (take n base)) (
                replicate_snoc (len - n) b'/'
                ∙ ap (λ k. replicate k b'/') {x = suc (len - n)} {y = suc len - n}
                    (omega (arith, i.within)));
        ends = i.ends;
      })
      (λ e. record {
        within = omega arith;
        behind = λ q. q;
        slashes =
            sym (append-nil (take (suc len) base))
            ∙ ap (λ k. take (suc len) base ++ replicate k b'/') {x = 0} {y = suc len - suc len}
                (omega arith);
        ends = λ q.
            subst (λ k. at base k ≢ b'/') {x = len} {y = suc len - 1} (omega arith)
              (no_slash base p len e q);
      })
