-- ===== src/RelayEndpoint/Build.antt =====
-- What the addresses at the relay are.
use printdrop.Prelude.{
  ℕ, ◌+◌, ◌-◌, ◌≤◌, ◌<◌, ◌≡◌, refl, sym, ap, subst, ◌∙◌, Bool, true, false, if_cases, not,
  true_of_not, ◌||◌, Option, none, some, ltb, leb, List, [], ◌∷◌, ◌++◌, length, length-append,
  length-take, take, drop, arith,
}
use printdrop.Bytes.{store}
use printdrop.Bytes.Store.{store-zero, store_next}
use printdrop.Bytes.Text.{strlen, strlen-le, text_of}
use printdrop.Hex.{all_lower_hex}
use printdrop.ReceiverSession.{session_token_hex_chars}
use printdrop.BaseUrl.{scheme_of, is_refused, strip_slashes}
use printdrop.BaseUrl.Address.{IsAddress, length-host_of, host-IsAddress}
use printdrop.RelayEndpoint.{
  RelayEndpointResult, NormalBase, relay_endpoint_capacity, session_id_is_valid, after_scheme,
  normalize_base, output_scheme, put_endpoint, after_normalize, build_ws_path, receiver_path,
  sender_path, build_receiver_wss_url, build_sender_wss_url,
}

put_endpoint-text :
    (scheme host path id out : List ℕ)
    → length id ≡ 32
    → length scheme + length host + length path + 33 ≤ length out
    → put_endpoint scheme host path id out
      ≡ ((((scheme ++ host) ++ path) ++ id) ++ 0 ∷ [])
        ++ drop (length scheme + length host + length path + 33) out
unfolding put_endpoint
put_endpoint-text scheme host path id out size room =
    let a = length scheme in
    let b = a + length host in
    let c = b + length path in
    let second = length-append scheme host in
    let third = length-append (scheme ++ host) path in
    ap (λ x. store (c + 32) (0 ∷ []) (store c id (store b path (store a host x))))
      (store-zero scheme out (omega arith))
    ∙ ap (λ x. store (c + 32) (0 ∷ []) (store c id (store b path x)))
        (store_next scheme host out a refl (omega arith))
    ∙ ap (λ x. store (c + 32) (0 ∷ []) (store c id x))
        (store_next (scheme ++ host) path out b (sym second) (omega arith))
    ∙ ap (store (c + 32) (0 ∷ [])) (
        store_next ((scheme ++ host) ++ path) id out c (omega (arith, second, third)) (omega arith)
        ∙ ap (λ k. (((scheme ++ host) ++ path) ++ id) ++ drop k out) {x = c + length id}
            {y = c + 32} (omega arith))
    ∙ store_next (((scheme ++ host) ++ path) ++ id) (0 ∷ []) out (c + 32)
        (omega (arith, second, third, length-append ((scheme ++ host) ++ path) id)) (omega arith)
    ∙ ap (λ k. ((((scheme ++ host) ++ path) ++ id) ++ 0 ∷ []) ++ drop k out) {x = c + 32 + 1}
        {y = c + 33} (omega arith)

-- What a normalized base is.
pub record IsNormal (base : List ℕ) (parts : NormalBase) : Type 0 where
  pub scheme : scheme_of base (strlen base) ≡ some (parts.scheme_length, parts.secure)
  pub accepted : is_refused base (strlen base) ≡ false
  pub stripped : parts.base_length ≡ strip_slashes base parts.scheme_length (strlen base)
  pub host : parts.scheme_length < parts.base_length

unfoldable pub Normal : List ℕ → RelayEndpointResult × Option NormalBase → Type 0
Normal base (RelayEndpointResult.ok, some parts) = IsNormal base parts
Normal base (RelayEndpointResult.ok, none) = ⊥
Normal base (result, parts) = Unit

normalize_base-Normal : (base : List ℕ) → Normal base (normalize_base (some base))
unfolding normalize_base Normal after_scheme
normalize_base-Normal base = go (scheme_of base (strlen base)) refl
  where
    go :
        (s : Option (ℕ × Bool))
        → scheme_of base (strlen base) ≡ s
        → Normal base (after_scheme base (strlen base) s)
    go none e = tt
    go (some (p, secure)) e =
        if_cases (Normal base) (is_refused base (strlen base)) _ _ (λ f. tt)
          (λ f.
            if_cases (Normal base) (leb (strip_slashes base p (strlen base)) p) _ _ (λ g. tt)
              (λ g. record { scheme = e; accepted = f; stripped = refl; host = ground (arith, g) }))

-- The address that a session is reached at: a scheme, the host of the base, a path, the session's id.
abbrev pub endpoint_text : Bool → List ℕ → List ℕ → List ℕ → List ℕ
endpoint_text secure host path id = ((output_scheme secure ++ host) ++ path) ++ id

length-endpoint_text :
    (secure : Bool) (host path id : List ℕ)
    → length (endpoint_text secure host path id)
      ≡ length (output_scheme secure) + length host + length path + length id
length-endpoint_text secure host path id = omega (
  arith,
  length-append (output_scheme secure) host,
  length-append (output_scheme secure ++ host) path,
  length-append ((output_scheme secure ++ host) ++ path) id,
)

-- What building an address leaves where it succeeds.
abbrev pub IsBuilt : List ℕ → List ℕ → List ℕ → List ℕ → Option (List ℕ) → Type 0
IsBuilt base path id out output =
    (secure : Bool) × (host : List ℕ) × IsAddress (text_of base) secure host
    × (strlen id ≡ 32)
    × (all_lower_hex (text_of id) ≡ true)
    × (length (endpoint_text secure host path (text_of id)) ≤ 511)
    × (output
        ≡ some (
            (endpoint_text secure host path (text_of id) ++ 0 ∷ [])
            ++ drop (length (endpoint_text secure host path (text_of id)) + 1) out))

unfoldable Builds :
    List ℕ → List ℕ → List ℕ → List ℕ → RelayEndpointResult × Option (List ℕ) → Type 0
Builds base path id out (RelayEndpointResult.ok, output) = IsBuilt base path id out output
Builds base path id out (result, output) = Unit

built :
    (base path id out : List ℕ) (o : RelayEndpointResult × Option (List ℕ))
    → Builds base path id out o
    → o.0 ≡ RelayEndpointResult.ok
    → IsBuilt base path id out o.1
unfolding Builds
built base path id out (result, output) b e = subst (λ r. Builds base path id out (r, output)) e b

normal_host :
    (base : List ℕ) (parts : NormalBase)
    → IsNormal base parts
    → IsAddress
        (text_of base)
        parts.secure
        (take (parts.base_length - parts.scheme_length) (drop parts.scheme_length base))
      × (length (take (parts.base_length - parts.scheme_length) (drop parts.scheme_length base))
          ≡ parts.base_length - parts.scheme_length)
normal_host base parts i =
    let p = parts.scheme_length in
    subst
      (λ n.
        p < n
        → IsAddress (text_of base) parts.secure (take (n - p) (drop p base))
          × (length (take (n - p) (drop p base)) ≡ n - p))
      (sym i.stripped)
      (λ long. (
        host-IsAddress base p parts.secure i.scheme i.accepted long,
        length-host_of base p parts.secure,
      ))
      i.host

session_id-text :
    (id : List ℕ)
    → session_id_is_valid (some id) ≡ true
    → (strlen id ≡ 32) × (all_lower_hex (text_of id) ≡ true)
unfolding session_id_is_valid
session_id-text id e = ground (arith, e)

fits_in :
    (capacity required : ℕ)
    → (ltb capacity required || ltb relay_endpoint_capacity required) ≡ false
    → (required ≤ capacity) × (required ≤ 512)
fits_in capacity required e = ground (arith, e)

after_normalize-Builds :
    (base path id out : List ℕ) (capacity : ℕ) (n : RelayEndpointResult × Option NormalBase)
    → capacity ≤ length out
    → (strlen id ≡ 32) × (all_lower_hex (text_of id) ≡ true)
    → Normal base n
    → Builds base path id out (after_normalize base path id out capacity n)
unfolding after_normalize Builds Normal
after_normalize-Builds base path id out capacity (RelayEndpointResult.ok, some parts) room
      (size, hex) i =
    let p = parts.scheme_length in
    let secure = parts.secure in
    let host = take (parts.base_length - p) (drop p base) in
    let required =
      length (output_scheme secure)
      + (parts.base_length - p)
      + length path
      + session_token_hex_chars
      + 1 in
    if_cases (Builds base path id out)
      (ltb capacity required || ltb relay_endpoint_capacity required) _ _ (λ f. tt)
      (λ f.
        let (address, size_host) = normal_host base parts i in
        let url = endpoint_text secure host path (text_of id) in
        let size_id = length-take (strlen id) id in
        let size_url = length-endpoint_text secure host path (text_of id) in
        let fits = fits_in capacity required f in
        (
          secure,
          host,
          address,
          size,
          hex,
          omega (arith, size_url, size_id, size_host, strlen-le id, fits),
          ap some (
              ap (λ k. put_endpoint (output_scheme secure) host path (take k id) out) {x = 32}
                {y = strlen id} (sym size)
              ∙ put_endpoint-text (output_scheme secure) host path (text_of id) out
                  (omega (arith, size_id, strlen-le id, size))
                  (omega (arith, size_host, fits, room))
              ∙ ap (λ k. (url ++ 0 ∷ []) ++ drop k out)
                  {x = length (output_scheme secure) + length host + length path + 33}
                  {y = length url + 1} (omega (arith, size_url, size_id, strlen-le id, size))),
        ))
after_normalize-Builds base path id out capacity (RelayEndpointResult.ok, none) room (size, hex) i =
    absurd i
after_normalize-Builds base path id out capacity (RelayEndpointResult.invalid_argument, _) room
      (size, hex) i =
    tt
after_normalize-Builds base path id out capacity (RelayEndpointResult.invalid_base_url, _) room
      (size, hex) i =
    tt
after_normalize-Builds base path id out capacity (RelayEndpointResult.invalid_session_id, _) room
      (size, hex) i =
    tt
after_normalize-Builds base path id out capacity (RelayEndpointResult.buffer_too_small, _) room
      (size, hex) i =
    tt

build_ws_path-Builds :
    (base path id out : List ℕ) (capacity : ℕ)
    → capacity ≤ length out
    → Builds base path id out (build_ws_path (some base) path (some id) (some out) capacity)
unfolding build_ws_path Builds
build_ws_path-Builds base path id out capacity room =
    if_cases (Builds base path id out) (not (session_id_is_valid (some id))) _ _ (λ e. tt)
      (λ e.
        after_normalize-Builds base path id out capacity (normalize_base (some base)) room
          (session_id-text id (true_of_not _ e)) (normalize_base-Normal base))

-- Where building the receiver's or the sender's address succeeds, in a buffer at least as long as
-- the capacity that it is told, the base is an address, the session's id is 32 lower-case
-- hexadecimal digits, and the buffer holds `wss://` for `https://` and `ws://` for `http://`, then
-- the host of the base without its trailing slashes, `/v1/receiver/` or `/v1/sender/`, the id and a
-- NUL, with the rest as it was; the text is at most 511 characters long.
pub build_wss_url_ok :
    (base id out : List ℕ) (capacity : ℕ)
    → capacity ≤ length out
    → ((build_receiver_wss_url (some base) (some id) (some out) capacity).0 ≡ RelayEndpointResult.ok
        → IsBuilt base receiver_path id out
            (build_receiver_wss_url (some base) (some id) (some out) capacity).1)
      × ((build_sender_wss_url (some base) (some id) (some out) capacity).0 ≡ RelayEndpointResult.ok
          → IsBuilt base sender_path id out
              (build_sender_wss_url (some base) (some id) (some out) capacity).1)
unfolding build_receiver_wss_url build_sender_wss_url
build_wss_url_ok base id out capacity room = (
  built base receiver_path id out _ (build_ws_path-Builds base receiver_path id out capacity room),
  built base sender_path id out _ (build_ws_path-Builds base sender_path id out capacity room),
)
