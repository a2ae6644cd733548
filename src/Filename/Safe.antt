-- ===== src/Filename/Safe.antt =====
-- What a safe file name is, and that the steps of `pd_filename_sanitize` make one.
use printdrop.Prelude.{
  ℕ, zero, suc, ◌≤◌, ◌<◌, ◌≡◌, ◌≢◌, refl, ◌⊎◌, inl, List, [], ◌∷◌, map, length, take, All, arith,
}
use printdrop.Bytes.{at}
use printdrop.Bytes.Text.{IsChar, codes}
use printdrop.Filename.{ascii_is_control, is_windows_forbidden, replace_byte, trim_length}
use printdrop.Filename.Device.{IsNoDevice}

-- A byte that Windows takes in a file name: no control character, and none of < > : " / \ | ? *.
abbrev pub IsClean : ℕ → Type 0
IsClean c = (32 ≤ c) × (c ≢ 127) × (c < 256) × All (λ d. c ≢ d) (codes "<>:\"/\\|?*")

-- The last byte is there, and is neither a space nor a dot.
abbrev pub EndsWell : List ℕ → Type 0
EndsWell [] = ⊥
EndsWell (c ∷ []) = (c ≢ b' ') × (c ≢ b'.')
EndsWell (c ∷ d ∷ s) = EndsWell (d ∷ s)

pub record IsSafe (name : List ℕ) : Type 0 where
  pub clean : All IsClean name
  pub ends_well : EndsWell name
  pub no_device : IsNoDevice name

pub replace_byte-IsClean : (c : ℕ) → c < 256 → IsClean (replace_byte c)
unfolding replace_byte ascii_is_control is_windows_forbidden
replace_byte-IsClean c h = ground arith

pub replace_byte_clean : (c : ℕ) → IsClean c → replace_byte c ≡ c
unfolding replace_byte ascii_is_control is_windows_forbidden
replace_byte_clean c h = ground arith

pub map-replace_byte-IsClean : (s : List ℕ) → All IsChar s → All IsClean (map replace_byte s)
map-replace_byte-IsClean [] h = tt
map-replace_byte-IsClean (c ∷ s) h = (replace_byte-IsClean c h.0.1, map-replace_byte-IsClean s h.1)

pub map-replace_byte_clean : (s : List ℕ) → All IsClean s → map replace_byte s ≡ s
map-replace_byte_clean [] h = refl
map-replace_byte_clean (c ∷ s) h =
    ground (arith, replace_byte_clean c h.0, map-replace_byte_clean s h.1)

last-take :
    (c : List ℕ) (n : ℕ) → n < length c → at c n ≢ b' ' → at c n ≢ b'.' → EndsWell (take (suc n) c)
last-take [] n h p q = absurd (omega arith)
last-take (x ∷ c) zero h p q = (p, q)
last-take (x ∷ []) (suc n) h p q = absurd (omega arith)
last-take (x ∷ y ∷ c) (suc n) h p q = last-take (y ∷ c) n (omega arith) p q

-- What is left after trimming is nothing, or ends well.
pub trim_length-EndsWell :
    (c : List ℕ) (n : ℕ)
    → n ≤ length c
    → (trim_length c n ≡ 0) ⊎ EndsWell (take (trim_length c n) c)
unfolding trim_length
trim_length-EndsWell c zero h = inl refl
trim_length-EndsWell c (suc n) h =
    ground (arith, trim_length-EndsWell c n (omega arith), last-take c n (omega arith))

pub trim_length-le : (c : List ℕ) (n : ℕ) → trim_length c n ≤ n
unfolding trim_length
trim_length-le c zero = omega arith
trim_length-le c (suc n) = ground (arith, trim_length-le c n)
