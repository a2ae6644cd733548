-- ===== src/RelayRegistration/Build.antt =====
-- What the request that registers a session is, and which bases it accepts.
use printdrop.Prelude.{
  ℕ, ◌+◌, ◌≤◌, ◌≡◌, ◌↔◌, refl, sym, ap, subst, ◌∙◌, Bool, if_cases, Option, none, some, ltb, leb,
  List, [], ◌∷◌, ◌++◌, append_assoc, length, length-append, length-take, take, drop, arith,
}
use printdrop.Bytes.{store}
use printdrop.Bytes.Store.{store-zero, store_next}
use printdrop.Bytes.Text.{strlen, strlen-le, text_of}
use printdrop.BaseUrl.{scheme_of, is_refused, strip_slashes}
use printdrop.BaseUrl.Strip.{strip_slashes-IsStripped}
use printdrop.BaseUrl.Address.{base_scheme, IsAddress, host_of, take-end, host-IsAddress}
use printdrop.RelayEndpoint.{RelayEndpointResult, normalize_base, after_scheme}
use printdrop.RelayRegistration.Base.{
  length_of, scheme_length_of_lem, base_is_invalid_lem, trim_slashes_lem,
}
use printdrop.RelayRegistration.{
  RegistrationResult, scheme_length_of, sessions_path, endpoint_after_scheme, build_endpoint,
}

-- The address of the request.
abbrev pub IsRegistered : List ℕ → List ℕ → Option (List ℕ) → Type 0
IsRegistered base out output =
    (secure : Bool) × (host : List ℕ) × IsAddress (text_of base) secure host
    × (output
        ≡ some (
            (((base_scheme secure ++ host) ++ sessions_path) ++ 0 ∷ [])
            ++ drop (length ((base_scheme secure ++ host) ++ sessions_path) + 1) out))

unfoldable Registers : List ℕ → List ℕ → RegistrationResult × Option (List ℕ) → Type 0
Registers base out (RegistrationResult.ok, output) = IsRegistered base out output
Registers base out (result, output) = Unit

two_stores :
    (front back out : List ℕ) (n : ℕ)
    → length front ≡ n
    → n + length back + 1 ≤ length out
    → store n (back ++ 0 ∷ []) (store 0 front out)
      ≡ ((front ++ back) ++ 0 ∷ []) ++ drop (length (front ++ back) + 1) out
two_stores front back out n e room =
    let size = length-append back (0 ∷ []) in
    ap (store n (back ++ 0 ∷ []))
      (store-zero front out (omega arith) ∙ ap (λ k. front ++ drop k out) e)
    ∙ store_next front (back ++ 0 ∷ []) out n (sym e) (omega (arith, size))
    ∙ ap (λ k. (front ++ (back ++ 0 ∷ [])) ++ drop k out) {x = n + length (back ++ 0 ∷ [])}
        {y = length (front ++ back) + 1} (omega (arith, size, length-append front back))
    ∙ ap (λ xs. xs ++ drop (length (front ++ back) + 1) out)
        (sym (append_assoc front back (0 ∷ [])))

endpoint-Registers :
    (base out : List ℕ) (capacity : ℕ) (s : Option (ℕ × Bool))
    → capacity ≤ length out
    → scheme_of base (strlen base) ≡ s
    → Registers base out (endpoint_after_scheme base (strlen base) out capacity (length_of s))
unfolding endpoint_after_scheme Registers
endpoint-Registers base out capacity none room e = tt
endpoint-Registers base out capacity (some (p, secure)) room e =
    let n = strip_slashes base p (strlen base) in
    rw (base_is_invalid_lem base (strlen base), trim_slashes_lem base p (strlen base))
      (if_cases (Registers base out) (is_refused base (strlen base)) _ _ (λ f. tt)
        (λ f.
          if_cases (Registers base out) (leb n p) _ _ (λ g. tt)
            (λ g.
              if_cases (Registers base out) (ltb capacity (n + length sessions_path + 1)) _ _
                (λ h. tt)
                (λ h. (
                  secure,
                  host_of base p secure,
                  host-IsAddress base p secure e f (ground (arith, g)),
                  ap some (
                      two_stores (take n base) sessions_path out n
                        (omega (
                          arith,
                          length-take n base,
                          strlen-le base,
                          (strip_slashes-IsStripped base p (strlen base) (strlen-le base)).within,
                        ))
                        (ground (arith, h, room))
                      ∙ ap
                          (λ xs.
                            ((xs ++ sessions_path) ++ 0 ∷ [])
                            ++ drop (length (xs ++ sessions_path) + 1) out)
                          (take-end base p secure e)),
                )))))

registers :
    (base out : List ℕ) (o : RegistrationResult × Option (List ℕ))
    → Registers base out o
    → o.0 ≡ RegistrationResult.ok
    → IsRegistered base out o.1
unfolding Registers
registers base out (result, output) b e = subst (λ r. Registers base out (r, output)) e b

-- Where building the address of the registration succeeds, in a buffer at least as long as the
-- capacity that it is told, the base is an address and the buffer holds the base without its
-- trailing slashes, `/v1/sessions` and a NUL, with the rest as it was.
pub build_endpoint_ok :
    (base out : List ℕ) (capacity : ℕ)
    → capacity ≤ length out
    → (build_endpoint (some base) (some out) capacity).0 ≡ RegistrationResult.ok
    → IsRegistered base out (build_endpoint (some base) (some out) capacity).1
unfolding build_endpoint
build_endpoint_ok base out capacity room =
    registers base out
      (endpoint_after_scheme base (strlen base) out capacity (scheme_length_of base (strlen base)))
      (rw (scheme_length_of_lem base (strlen base))
        (endpoint-Registers base out capacity (scheme_of base (strlen base)) room refl))

-- The registration and the addresses refuse the same bases, each by its own tests, whatever the
-- registration's buffer.
pub build_endpoint-normalize_base :
    (base out : List ℕ) (capacity : ℕ)
    → ((build_endpoint (some base) (some out) capacity).0 ≡ RegistrationResult.invalid_base_url)
      ↔ ((normalize_base (some base)).0 ≡ RelayEndpointResult.invalid_base_url)
unfolding build_endpoint normalize_base endpoint_after_scheme after_scheme
build_endpoint-normalize_base base out capacity =
    rw (scheme_length_of_lem base (strlen base)) (same (scheme_of base (strlen base)))
  where
    same :
        (s : Option (ℕ × Bool))
        → ((endpoint_after_scheme base (strlen base) out capacity (length_of s)).0
            ≡ RegistrationResult.invalid_base_url)
          ↔ ((after_scheme base (strlen base) s).0 ≡ RelayEndpointResult.invalid_base_url)
    same none = (λ e. refl, λ e. refl)
    same (some (p, secure)) =
        rw (base_is_invalid_lem base (strlen base), trim_slashes_lem base p (strlen base))
          (ground arith)
