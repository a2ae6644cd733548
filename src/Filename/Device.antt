-- ===== src/Filename/Device.antt =====
-- Which names Windows keeps for its devices, told without the code, and that the code's test finds
-- them.
use printdrop.Prelude.{
  ℕ, suc, ◌+◌, ◌≤◌, ◌≡◌, refl, sym, ◌∙◌, ap, Bool, true, false, ◌&&◌, ◌||◌, List, [], ◌∷◌, ◌++◌,
  leb, ◌==◌, if◌then◌else◌, All, arith,
}
use printdrop.Bytes.{at}
use printdrop.Bytes.Text.{codes}
use printdrop.Filename.{
  ascii_upper, equal_upper, ascii_equal_prefix, base_length, is_numbered_device,
  is_windows_reserved_device_name,
}

-- A byte is the character, or the small letter of a capital.
unfoldable pub caseless : ℕ → ℕ → Bool
caseless c l = c == l || (leb b'A' l && leb l b'Z' && c == l + 32)

-- The name is the device's, in capital or small letters, or goes on with a dot behind it.
unfoldable pub names_device : List ℕ → List ℕ → Bool
names_device [] [] = true
names_device [] (c ∷ name) = c == b'.'
names_device (l ∷ device) [] = false
names_device (l ∷ device) (c ∷ name) = caseless c l && names_device device name

-- The name is none of CON, PRN, AUX, NUL, COM1 to COM9 and LPT1 to LPT9, with or without an
-- extension. CONIN$, CONOUT$ and a device's name with spaces behind it are not told here.
pub record IsNoDevice (name : List ℕ) : Type 0 where
  pub no_con : names_device (codes "CON") name ≡ false
  pub no_prn : names_device (codes "PRN") name ≡ false
  pub no_aux : names_device (codes "AUX") name ≡ false
  pub no_nul : names_device (codes "NUL") name ≡ false
  pub no_com :
      (digit : ℕ)
      → b'1' ≤ digit
      → digit ≤ b'9'
      → names_device (codes "COM" ++ digit ∷ []) name ≡ false
  pub no_lpt :
      (digit : ℕ)
      → b'1' ≤ digit
      → digit ≤ b'9'
      → names_device (codes "LPT" ++ digit ∷ []) name ≡ false

abbrev IsCapital : ℕ → Type 0
IsCapital l = (b'A' ≤ l) × (l ≤ b'Z')

upper_caseless : (c l : ℕ) → IsCapital l → (ascii_upper c == l) ≡ caseless c l
unfolding ascii_upper caseless
upper_caseless c l h = ground arith

dot_not_caseless : (c l : ℕ) → IsCapital l → (c == b'.') ≡ true → caseless c l ≡ false
unfolding caseless
dot_not_caseless c l h e = ground arith

prefix-names_device :
    (device name : List ℕ)
    → All IsCapital device
    → ascii_equal_prefix name (base_length name) device ≡ names_device device name
unfolding ascii_equal_prefix equal_upper base_length names_device
prefix-names_device [] [] h = refl
prefix-names_device [] (c ∷ name) h = ground arith
prefix-names_device (l ∷ device) [] h = ground arith
prefix-names_device (l ∷ device) (c ∷ name) h =
    ground
      (arith, upper_caseless c l h.0, dot_not_caseless c l h.0, prefix-names_device device name h.1)

caseless_digit : (c digit : ℕ) → b'1' ≤ digit → digit ≤ b'9' → caseless c digit ≡ (c == digit)
unfolding caseless
caseless_digit c digit low high = ground arith

dot_not_digit :
    (c digit : ℕ) → b'1' ≤ digit → digit ≤ b'9' → (c == b'.') ≡ true → caseless c digit ≡ false
unfolding caseless
dot_not_digit c digit low high e = ground arith

-- A byte in front, which is no dot where it fits the character.
one_more :
    (c l k : ℕ) (name : List ℕ) (u r t : Bool)
    → u ≡ caseless c l
    → ((c == b'.') ≡ true → caseless c l ≡ false)
    → r ≡ (base_length name == k && t)
    → (caseless c l && r) ≡ (base_length (c ∷ name) == suc k && (u && t))
unfolding base_length
one_more c l k name u r t e dot rest =
    rw (e, rest) (split (c == b'.') (base_length name) (caseless c l) dot)
  where
    split :
        (d : Bool) (b : ℕ) (x : Bool)
        → (d ≡ true → x ≡ false)
        → (x && (b == k && t)) ≡ ((if d then 0 else suc b) == suc k && (x && t))
    split d b x h = ground (arith, h)

module _ (p q s digit : ℕ) (hp : IsCapital p) (hq : IsCapital q) (hs : IsCapital s)
    (low : b'1' ≤ digit) (high : digit ≤ b'9') where
  -- The code's test of a name whose part in front of the dot has four bytes.
  abbrev tested : List ℕ → Bool
  tested name =
      ascii_upper (at name 0) == p
      && (ascii_upper (at name 1) == q && (ascii_upper (at name 2) == s && at name 3 == digit))

  numbered :
      (name : List ℕ)
      → names_device (p ∷ q ∷ s ∷ digit ∷ []) name ≡ (base_length name == 4 && tested name)
  unfolding names_device base_length
  numbered [] = refl
  numbered (a ∷ []) = ground arith
  numbered (a ∷ b ∷ []) = ground arith
  numbered (a ∷ b ∷ c ∷ []) = ground arith
  numbered (a ∷ b ∷ c ∷ d ∷ name) =
      one_more a p 3 (b ∷ c ∷ d ∷ name) (ascii_upper a == p) _ _ (upper_caseless a p hp)
        (dot_not_caseless a p hp)
        (one_more b q 2 (c ∷ d ∷ name) (ascii_upper b == q) _ _ (upper_caseless b q hq)
          (dot_not_caseless b q hq)
          (one_more c s 1 (d ∷ name) (ascii_upper c == s) _ (d == digit) (upper_caseless c s hs)
            (dot_not_caseless c s hs)
            (one_more d digit 0 name (d == digit) _ true (sym (caseless_digit d digit low high))
                (dot_not_digit d digit low high) (ended name)
              ∙ ap (λ t. base_length (d ∷ name) == 1 && t) (and_true (d == digit)))))
    where
      and_true : (x : Bool) → (x && true) ≡ x
      and_true x = ground arith

      ended : (name : List ℕ) → names_device [] name ≡ (base_length name == 0 && true)
      ended [] = refl
      ended (x ∷ name) = ground arith

pub not_reserved-IsNoDevice :
    (name : List ℕ) → is_windows_reserved_device_name name ≡ false → IsNoDevice name
unfolding is_windows_reserved_device_name is_numbered_device
not_reserved-IsNoDevice name e = record {
  no_con = sym (prefix-names_device (codes "CON") name (ground arith)) ∙ ground (arith, e);
  no_prn = sym (prefix-names_device (codes "PRN") name (ground arith)) ∙ ground (arith, e);
  no_aux = sym (prefix-names_device (codes "AUX") name (ground arith)) ∙ ground (arith, e);
  no_nul = sym (prefix-names_device (codes "NUL") name (ground arith)) ∙ ground (arith, e);
  no_com = λ digit low high.
      numbered b'C' b'O' b'M' digit (ground arith) (ground arith) (ground arith) low high name
      ∙ ground (arith, e);
  no_lpt = λ digit low high.
      numbered b'L' b'P' b'T' digit (ground arith) (ground arith) (ground arith) low high name
      ∙ ground (arith, e);
}

pub IsNoDevice-not_reserved :
    (name : List ℕ) → IsNoDevice name → is_windows_reserved_device_name name ≡ false
unfolding is_windows_reserved_device_name is_numbered_device
IsNoDevice-not_reserved name n =
    let digit = at name 3 in
    ground (
      arith,
      prefix-names_device (codes "CON") name (ground arith) ∙ n.no_con,
      prefix-names_device (codes "PRN") name (ground arith) ∙ n.no_prn,
      prefix-names_device (codes "AUX") name (ground arith) ∙ n.no_aux,
      prefix-names_device (codes "NUL") name (ground arith) ∙ n.no_nul,
      λ (low : b'1' ≤ digit) (high : digit ≤ b'9').
          sym (
            numbered b'C' b'O' b'M' digit (ground arith) (ground arith) (ground arith) low high
              name)
          ∙ n.no_com digit low high,
      λ (low : b'1' ≤ digit) (high : digit ≤ b'9').
          sym (
            numbered b'L' b'P' b'T' digit (ground arith) (ground arith) (ground arith) low high
              name)
          ∙ n.no_lpt digit low high,
    )
