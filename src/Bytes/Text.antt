-- ===== src/Bytes/Text.antt =====
-- C strings: `strlen`, `memchr` for the NUL, `memcmp` with a literal, `strchr`. A `char *` is the
-- list of the bytes from where it points on; the text ends before the first 0.
use Prim.Native.Char.{code}
use Prim.Native.String.{String}
use printdrop.Prelude.{
  ℕ, zero, suc, ◌≤◌, ◌<◌, ◌≡◌, ◌≢◌, refl, Bool, true, false, ◌&&◌, ◌||◌, List, [], ◌∷◌, ◌++◌, ◌==◌,
  if◌then◌else◌, length, take, take-length-append, length-take, All, arith,
}

-- The code points of a text: its bytes, if it is ASCII.
abbrev pub codes : String → List ℕ
codes String.[] = []
codes (String.◌∷◌ c s) = code c ∷ codes s

unfoldable pub strlen : List ℕ → ℕ
strlen [] = 0
strlen (c ∷ s) = let rest = strlen s in if c == 0 then 0 else suc rest

-- `memchr(s, c, n) != NULL`
unfoldable pub memchr : List ℕ → ℕ → ℕ → Bool
memchr s c zero = false
memchr [] c (suc n) = false
memchr (x ∷ s) c (suc n) = x == c || memchr s c n

-- `strchr(s, c) != NULL`, for `c` other than NUL
abbrev pub strchr : List ℕ → ℕ → Bool
strchr s c = memchr s c (strlen s)

-- `memcmp(…) == 0` of as many bytes as both lists have.
unfoldable pub mem_equal : List ℕ → List ℕ → Bool
mem_equal [] [] = true
mem_equal [] (y ∷ ys) = false
mem_equal (x ∷ xs) [] = false
mem_equal (x ∷ xs) (y ∷ ys) = x == y && mem_equal xs ys

-- The text that a buffer holds.
abbrev pub text_of : List ℕ → List ℕ
text_of s = take (strlen s) s

-- `strcmp(s, t) == 0`
abbrev pub strings_equal : List ℕ → List ℕ → Bool
strings_equal s t = mem_equal (text_of s) (text_of t)

-- A byte of a text.
abbrev pub IsChar : ℕ → Type 0
IsChar c = (c ≢ 0) × (c < 256)

pub strlen-text : (t rest : List ℕ) → All IsChar t → strlen (t ++ 0 ∷ rest) ≡ length t
unfolding strlen
strlen-text [] rest h = refl
strlen-text (c ∷ t) rest h = ground (arith, strlen-text t rest h.1)

pub strlen-le : (s : List ℕ) → strlen s ≤ length s
unfolding strlen
strlen-le [] = omega arith
strlen-le (c ∷ s) = ground (arith, strlen-le s)

pub length-text_of : (s : List ℕ) → length (text_of s) ≡ strlen s
length-text_of s = omega (arith, length-take (strlen s) s, strlen-le s)

-- No byte of a text is a NUL.
pub All-text_of : (s : List ℕ) → All (λ b. b < 256) s → All IsChar (text_of s)
unfolding strlen
All-text_of [] h = tt
All-text_of (c ∷ s) h = ground (arith, All-text_of s h.1)

pub memchr-zero_false :
    (s : List ℕ) (n : ℕ) → All (λ b. b < 256) s → memchr s 0 n ≡ false → All IsChar (take n s)
unfolding memchr
memchr-zero_false s zero b h = tt
memchr-zero_false [] (suc n) b h = tt
memchr-zero_false (x ∷ s) (suc n) b h = ground (arith, memchr-zero_false s n b.1)

pub memchr-text : (t rest : List ℕ) → All IsChar t → memchr (t ++ rest) 0 (length t) ≡ false
unfolding memchr
memchr-text [] rest h = refl
memchr-text (x ∷ t) rest h = ground (arith, memchr-text t rest h.1)

pub mem_equal→≡ : (xs ys : List ℕ) → mem_equal xs ys ≡ true → xs ≡ ys
unfolding mem_equal
mem_equal→≡ [] [] e = refl
mem_equal→≡ [] (y ∷ ys) e = ground arith
mem_equal→≡ (x ∷ xs) [] e = ground arith
mem_equal→≡ (x ∷ xs) (y ∷ ys) e = ground (arith, mem_equal→≡ xs ys, e)

-- Up to the NUL there is none, whatever the characters are.
pub text_of_nonzero : (s : List ℕ) → All (λ c. c ≢ 0) (text_of s)
unfolding strlen
text_of_nonzero [] = tt
text_of_nonzero (c ∷ s) = ground (arith, text_of_nonzero s)

pub strlen_nul : (t rest : List ℕ) → All (λ c. c ≢ 0) t → strlen (t ++ 0 ∷ rest) ≡ length t
unfolding strlen
strlen_nul [] rest h = refl
strlen_nul (c ∷ t) rest h = ground (arith, strlen_nul t rest h.1)

pub text_of_nul : (t rest : List ℕ) → All (λ c. c ≢ 0) t → text_of (t ++ 0 ∷ rest) ≡ t
text_of_nul t rest h = rw (strlen_nul t rest h) (take-length-append t (0 ∷ rest))
