-- ===== src/BaseUrl/Address.antt =====
-- What a base URL is that both the addresses and the registration accept.
use printdrop.Prelude.{
  ℕ, ◌+◌, ◌-◌, ◌≤◌, ◌<◌, ◌≡◌, ◌≢◌, refl, sym, ap, subst, ◌∙◌, Bool, true, false, ◌&&◌, if_cases,
  ltb, ltb→lt, Option, none, some, List, ◌++◌, length, length-take, length-drop, take, drop,
  replicate, All, arith,
}
use printdrop.Bytes.{at}
use printdrop.Bytes.Store.{at-take, at-drop}
use printdrop.Bytes.Text.{strlen, strlen-le, text_of, strchr, mem_equal, mem_equal→≡}
use printdrop.BaseUrl.{https_prefix, http_prefix, scheme_of, is_refused, strip_slashes}
use printdrop.BaseUrl.Strip.{take_split, memchr-false, strip_slashes-IsStripped}

abbrev pub base_scheme : Bool → List ℕ
base_scheme true = https_prefix
base_scheme false = http_prefix

-- A scheme, a host that is not empty and does not end in a slash, and any number of slashes; at most
-- 447 characters, none of them `?` or `#`.
pub record IsAddress (text : List ℕ) (secure : Bool) (host : List ℕ) : Type 0 where
  pub slashes : ℕ
  pub spelled : text ≡ (base_scheme secure ++ host) ++ replicate slashes b'/'
  pub nonempty : 0 < length host
  pub ends : at host (length host - 1) ≢ b'/'
  pub short : length text ≤ 447
  pub no_query : All (λ c. c ≢ b'?') text
  pub no_fragment : All (λ c. c ≢ b'#') text

-- What `scheme_of` finds.
unfoldable pub Fits : List ℕ → ℕ → Option (ℕ × Bool) → Type 0
Fits base len none = Unit
Fits base len (some (p, secure)) =
    (p < len) × (p ≡ length (base_scheme secure)) × (take p base ≡ base_scheme secure)

prefix_true :
    (base prefix : List ℕ) (k len : ℕ)
    → (ltb k len && mem_equal (take k base) prefix) ≡ true
    → (k < len) × (take k base ≡ prefix)
prefix_true base prefix k len e =
    let (a, b) = both (ltb k len) (mem_equal (take k base) prefix) e in
    (ltb→lt k len a, mem_equal→≡ (take k base) prefix b)
  where
    both : (a b : Bool) → (a && b) ≡ true → (a ≡ true) × (b ≡ true)
    both a b e = ground (arith, e)

scheme_of-Fits : (base : List ℕ) (len : ℕ) → Fits base len (scheme_of base len)
unfolding scheme_of Fits
scheme_of-Fits base len =
    if_cases (Fits base len) (ltb 8 len && mem_equal (take 8 base) https_prefix) _ _
      (λ e. let (a, b) = prefix_true base https_prefix 8 len e in (a, refl, b))
      (λ e.
        if_cases (Fits base len) (ltb 7 len && mem_equal (take 7 base) http_prefix) _ _
          (λ f. let (a, b) = prefix_true base http_prefix 7 len f in (a, refl, b)) (λ f. tt))

pub scheme_of_facts :
    (base : List ℕ) (len p : ℕ) (secure : Bool)
    → scheme_of base len ≡ some (p, secure)
    → (p < len) × (p ≡ length (base_scheme secure)) × (take p base ≡ base_scheme secure)
unfolding Fits
scheme_of_facts base len p secure e = subst (Fits base len) e (scheme_of-Fits base len)

is_refused-false :
    (base : List ℕ) (len : ℕ)
    → is_refused base len ≡ false
    → (len ≤ 447) × (strchr base b'?' ≡ false) × (strchr base b'#' ≡ false)
unfolding is_refused
is_refused-false base len e = ground (arith, e)

-- The scheme and the host behind it, where the tests have passed.
module _ (base : List ℕ) (p : ℕ) (secure : Bool) where
  abbrev end : ℕ
  end = strip_slashes base p (strlen base)

  abbrev pub host_of : List ℕ
  host_of = take (end - p) (drop p base)

  pub length-host_of : length host_of ≡ end - p
  length-host_of =
      let i = strip_slashes-IsStripped base p (strlen base) (strlen-le base) in
      omega
        (arith, length-take (end - p) (drop p base), length-drop p base, i.within, strlen-le base)

  pub take-end :
      scheme_of base (strlen base) ≡ some (p, secure)
      → take end base ≡ base_scheme secure ++ host_of
  take-end e =
      let (within, size, same) = scheme_of_facts base (strlen base) p secure e in
      let i = strip_slashes-IsStripped base p (strlen base) (strlen-le base) in
      ap (λ k. take k base) {x = end} {y = p + (end - p)}
        (omega (arith, i.behind (omega (arith, within))))
      ∙ take_split p (end - p) base
      ∙ ap (λ xs. xs ++ host_of) same

  pub host-IsAddress :
      scheme_of base (strlen base) ≡ some (p, secure)
      → is_refused base (strlen base) ≡ false
      → p < end
      → IsAddress (text_of base) secure host_of
  host-IsAddress e refused long =
      let i = strip_slashes-IsStripped base p (strlen base) (strlen-le base) in
      let (fits, query, fragment) = is_refused-false base (strlen base) refused in
      record {
        slashes = strlen base - end;
        spelled = i.slashes ∙ ap (λ xs. xs ++ replicate (strlen base - end) b'/') (take-end e);
        nonempty = omega (arith, length-host_of, long);
        ends =
            subst (λ c. c ≢ b'/')
              (sym (
                at-take (end - p) (drop p base) (length host_of - 1)
                  (omega (arith, length-host_of, long))
                ∙ at-drop p base (length host_of - 1)
                ∙ ap (at base) {x = p + (length host_of - 1)} {y = end - 1}
                    (omega (arith, length-host_of, long))))
              (i.ends long);
        short = omega (arith, length-take (strlen base) base, fits);
        no_query = memchr-false base b'?' (strlen base) query;
        no_fragment = memchr-false base b'#' (strlen base) fragment;
      }
