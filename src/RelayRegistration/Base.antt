-- ===== src/RelayRegistration/Base.antt =====
-- The tests of the registration, which are its own, agree with those of the addresses at the relay.
use printdrop.Prelude.{
  ℕ, zero, suc, ◌≡◌, refl, ap, Bool, true, false, ◌&&◌, Option, none, some, List, ltb, ◌==◌,
  if◌then◌else◌, take,
}
use printdrop.Bytes.{at}
use printdrop.Bytes.Text.{mem_equal}
use printdrop.BaseUrl.{https_prefix, http_prefix, scheme_of, is_refused, strip_slashes}
use printdrop.RelayRegistration.{scheme_length_of, base_is_invalid, trim_slashes}

-- The length of a scheme that has been found.
abbrev pub length_of : Option (ℕ × Bool) → Option ℕ
length_of none = none
length_of (some (prefix_length, secure)) = some prefix_length

pub scheme_length_of_lem :
    (base : List ℕ) (n : ℕ) → scheme_length_of base n ≡ length_of (scheme_of base n)
unfolding scheme_length_of scheme_of
scheme_length_of_lem base n =
    either (ltb 8 n && mem_equal (take 8 base) https_prefix)
      (ltb 7 n && mem_equal (take 7 base) http_prefix)
  where
    either :
        (a b : Bool)
        → (let found : Option ℕ = if a then some 8 else if b then some 7 else none in found)
          ≡ length_of (if a then some (8, true) else if b then some (7, false) else none)
    either true b = refl
    either false true = refl
    either false false = refl

pub base_is_invalid_lem : (base : List ℕ) (n : ℕ) → base_is_invalid base n ≡ is_refused base n
unfolding base_is_invalid is_refused
base_is_invalid_lem base n = refl

pub trim_slashes_lem : (base : List ℕ) (p n : ℕ) → trim_slashes base p n ≡ strip_slashes base p n
unfolding trim_slashes strip_slashes
trim_slashes_lem base p zero = refl
trim_slashes_lem base p (suc n) =
    ap (λ rest. if ltb p (suc n) && at base n == b'/' then rest else suc n)
      (trim_slashes_lem base p n)
