-- ===== src/Bytes/Store.antt =====
-- Writing into a buffer: what a run of consecutive writes leaves.
use printdrop.Prelude.{
  ℕ, zero, suc, ◌+◌, ◌≤◌, ◌<◌, ◌≡◌, refl, sym, ap, ◌∙◌, arith, List, [], ◌∷◌, ◌++◌, append_assoc,
  length, take, drop, length-drop, length-take, take-append-drop,
}
use native.Mathlib.Nat.{zero-add, suc-add}
use printdrop.Bytes.{store, at}

-- A write keeps the size of the buffer.
pub length-store : (off : ℕ) (xs buf : List ℕ) → length (store off xs buf) ≡ length buf
unfolding store
length-store off [] buf = refl
length-store off (x ∷ xs) [] = refl
length-store zero (x ∷ xs) (b ∷ buf) = ap suc (length-store zero xs buf)
length-store (suc off) (x ∷ xs) (b ∷ buf) = ap suc (length-store off (x ∷ xs) buf)

-- A write at the start replaces as many bytes as it has.
pub store-zero :
    (xs buf : List ℕ) → length xs ≤ length buf → store 0 xs buf ≡ xs ++ drop (length xs) buf
unfolding store
store-zero [] buf h = refl
store-zero (x ∷ xs) [] h = absurd (omega arith)
store-zero (x ∷ xs) (b ∷ buf) h = ap (◌∷◌ x) (store-zero xs buf (omega arith))

-- A write behind `pre` leaves `pre` alone.
pub store_behind :
    (pre xs buf : List ℕ) → store (length pre) xs (pre ++ buf) ≡ pre ++ store 0 xs buf
unfolding store
store_behind [] xs buf = refl
store_behind (p ∷ pre) [] buf = refl
store_behind (p ∷ pre) (x ∷ xs) buf = ap (◌∷◌ p) (store_behind pre (x ∷ xs) buf)

pub drop-drop : (m n : ℕ) (xs : List ℕ) → drop n (drop m xs) ≡ drop (m + n) xs
drop-drop zero n xs = rw zero-add
drop-drop (suc m) zero [] = rw suc-add
drop-drop (suc m) (suc n) [] = rw suc-add
drop-drop (suc m) n (x ∷ xs) = rw suc-add (drop-drop m n xs)

-- Consecutive writes: where `pre` has been written over the start of the buffer, a write at its
-- end extends it.
pub store_next :
    (pre xs buf : List ℕ) (off : ℕ)
    → off ≡ length pre
    → off + length xs ≤ length buf
    → store off xs (pre ++ drop off buf) ≡ (pre ++ xs) ++ drop (off + length xs) buf
store_next pre xs buf off e h =
    rw (e, store_behind pre xs (drop (length pre) buf))
      (ap (◌++◌ pre)
          (store-zero xs (drop (length pre) buf) (omega (arith, length-drop (length pre) buf)))
        ∙ rw (drop-drop (length pre) (length xs) buf, append_assoc))

-- A write anywhere keeps what is in front of it and what is behind.
pub store-take :
    (off : ℕ) (xs buf : List ℕ)
    → off + length xs ≤ length buf
    → store off xs buf ≡ (take off buf ++ xs) ++ drop (off + length xs) buf
store-take off xs buf h =
    ap (store off xs) (sym (take-append-drop off buf))
    ∙ store_next (take off buf) xs buf off (omega (arith, length-take off buf)) h

pub at-take : (k : ℕ) (xs : List ℕ) (i : ℕ) → i < k → at (take k xs) i ≡ at xs i
at-take zero xs i h = absurd (omega arith)
at-take (suc k) [] i h = refl
at-take (suc k) (x ∷ xs) zero h = refl
at-take (suc k) (x ∷ xs) (suc i) h = at-take k xs i (omega arith)

pub at-drop : (p : ℕ) (xs : List ℕ) (i : ℕ) → at (drop p xs) i ≡ at xs (p + i)
at-drop zero xs i = rw zero-add
at-drop (suc p) [] i = refl
at-drop (suc p) (x ∷ xs) i = rw suc-add (at-drop p xs i)
