-- ===== src/Win32RelayClient/Release.antt =====
-- The client holds the buffer, the handle and the header list that it has been given, and gives them
-- back.
use printdrop.Prelude.{
  ℕ, replicate, ◌+◌, ◌≡◌, ◌≢◌, refl, ◌∙◌, false, true, Bool, ◌&&◌, if_cases, not, Option, none,
  some, List, [], ◌∷◌, ◌==◌, if◌then◌else◌, arith,
}
use printdrop.RelayMessage.{relay_ws_message_max_size}
use printdrop.Resources.{
  Resource, block, curl_easy, header_list, Account, one, held, held_null, held-one, GivesBack, Gets,
  Keeps, Holds, close_lem, release_lem,
}
use printdrop.Win32RelayClient.{
  ClientResult, CurlCode, CurlOption, CurlApi, RelayClient, zero_client, set_options, init_failed,
  after_options, after_headers, after_easy_init, after_message_alloc, auth_header, client_init,
  relay_url_is_allowed, receiver_secret_is_valid,
}
use printdrop.Win32RelayClient.Traffic.{is_connected, release, client_cleanup}

is_zero : (n : ℕ) → (n == 0) ≡ true → n ≡ 0
is_zero n e = ground (arith, e)

not_zero : (n : ℕ) → (n == 0) ≡ false → n ≢ 0
not_zero n e = ground (arith, e)

-- The message buffer, the easy handle and the header list that a client has.
abbrev pub owned : RelayClient → Account
owned client r =
    held block client.message_buffer r
    + held curl_easy client.easy_handle r
    + held header_list client.request_headers r

module _ {S : Type 0} (curl : CurlApi S) (live : S → Account) where
  -- What each call of libcurl and of the heap does to the account of what is there: a call that makes
  -- something puts what it answers on it, a call that frees takes what it is given off it, where that
  -- is there.
  pub record LiveLaws : Type 0 where
    pub alloc_ok :
        (n : ℕ) (s : S)
        → (curl.heap_alloc n s).0 ≢ 0
        → Gets live (block (curl.heap_alloc n s).0) s (curl.heap_alloc n s).1
    pub alloc_failed :
        (n : ℕ) (s : S) → (curl.heap_alloc n s).0 ≡ 0 → Keeps live s (curl.heap_alloc n s).1
    pub easy_ok :
        (s : S)
        → (curl.easy_init s).0 ≢ 0
        → Gets live (curl_easy (curl.easy_init s).0) s (curl.easy_init s).1
    pub easy_failed : (s : S) → (curl.easy_init s).0 ≡ 0 → Keeps live s (curl.easy_init s).1
    pub append_ok :
        (xs : List ℕ) (s : S)
        → (curl.slist_append xs s).0 ≢ 0
        → Gets live (header_list (curl.slist_append xs s).0) s (curl.slist_append xs s).1
    pub append_failed :
        (xs : List ℕ) (s : S)
        → (curl.slist_append xs s).0 ≡ 0
        → Keeps live s (curl.slist_append xs s).1
    pub setopt_keeps : (h : ℕ) (o : CurlOption) (s : S) → Keeps live s (curl.easy_setopt h o s).1
    pub close_keeps : (h : ℕ) (s : S) → Keeps live s (curl.ws_send_close h s)
    pub free_one : GivesBack live block curl.heap_free
    pub easy_one : GivesBack live curl_easy curl.easy_cleanup
    pub list_one : GivesBack live header_list curl.slist_free_all

  -- What is there in the system is `base`, which is others', and what the client has.
  abbrev pub IsBalanced : Account → RelayClient → S → Type 0
  IsBalanced base client s = Holds live s (λ r. base r + owned client r)

  abbrev pub Owns : Account → ClientResult × RelayClient × S → Type 0
  Owns base (result, client, s) = IsBalanced base client s

  module _ (laws : LiveLaws) where
    told-Keeps : (b : Bool) (h : ℕ) (s : S) → Keeps live s (if b then curl.ws_send_close h s else s)
    told-Keeps true h s = laws.close_keeps h s
    told-Keeps false h s = λ r. refl

    pub cleanup_balance :
        (base : Account) (client : RelayClient) (s : S)
        → IsBalanced base client s
        → Holds live (client_cleanup curl client s).1 base
    unfolding client_cleanup
    cleanup_balance base client s b =
        let told =
          if is_connected client.state && not (client.easy_handle == 0)
          then curl.ws_send_close client.easy_handle s
          else s in
        let s1 = release curl curl.slist_free_all client.request_headers told in
        let s2 = release curl curl.easy_cleanup client.easy_handle s1 in
        let with_block : Account = λ r. base r + held block client.message_buffer r in
        let with_easy : Account = λ r. with_block r + held curl_easy client.easy_handle r in
        let same =
          told-Keeps (is_connected client.state && not (client.easy_handle == 0)) client.easy_handle
            s in
        release_lem live block curl.heap_free client.message_buffer s2 base laws.free_one (
          release_lem live curl_easy curl.easy_cleanup client.easy_handle s1 with_block
            laws.easy_one
            (release_lem live header_list curl.slist_free_all client.request_headers told with_easy
              laws.list_one (λ r. omega (arith, same r, b r))))

    first_failure :
        (o : CurlCode × S) (rest : CurlCode × S)
        → Keeps live o.1 rest.1
        → (let code : CurlCode × S = elim o.0 [ CurlCode.ok ↦ rest | failure ↦ (failure, o.1) ] in
            Keeps live o.1 code.1)
    first_failure (CurlCode.ok, s') rest e = e
    first_failure (CurlCode.again, s') rest e = λ r. refl
    first_failure (CurlCode.got_nothing, s') rest e = λ r. refl
    first_failure (CurlCode.other, s') rest e = λ r. refl

    set_options-Keeps :
        (h : ℕ) (options : List CurlOption) (s : S) → Keeps live s (set_options curl h options s).1
    unfolding set_options
    set_options-Keeps h [] s = λ r. refl
    set_options-Keeps h (option ∷ options) s =
        let o = curl.easy_setopt h option s in
        λ r.
          first_failure o (set_options curl h options o.1) (set_options-Keeps h options o.1) r
          ∙ laws.setopt_keeps h option s r

    -- A client that has been given its buffer alone.
    abbrev HasBuffer : RelayClient → Type 0
    HasBuffer client =
        (client.request_headers ≡ 0) × (client.easy_handle ≡ 0) × (client.message_buffer ≢ 0)

    -- The buffer of a client, besides what is others'.
    abbrev with_buffer : Account → RelayClient → Account
    with_buffer base client r = base r + one (block client.message_buffer) r

    init_failed-Owns :
        (base : Account) (client : RelayClient) (s : S)
        → HasBuffer client
        → Holds live s (with_buffer base client)
        → Owns base (init_failed curl client s)
    init_failed-Owns base client s (h, e, b) held_there r = omega (
      arith,
      close_lem live block curl.heap_free client.message_buffer s base laws.free_one held_there r,
      held_null header_list client.request_headers r h,
      held_null curl_easy client.easy_handle r e,
      held_null block 0 r refl,
    )

    freed :
        (base : Account) (easy list : ℕ) (s : S)
        → Holds live s (λ r. base r + one (curl_easy easy) r + one (header_list list) r)
        → Holds live (curl.easy_cleanup easy (curl.slist_free_all list s)) base
    freed base easy list s e =
        close_lem live curl_easy curl.easy_cleanup easy (curl.slist_free_all list s) base
          laws.easy_one
          (close_lem live header_list curl.slist_free_all list s
            (λ r. base r + one (curl_easy easy) r) laws.list_one e)

    after_options-Owns :
        (base : Account) (url : List ℕ) (client : RelayClient) (easy list : ℕ) (o : CurlCode × S)
        → HasBuffer client
        → easy ≢ 0
        → list ≢ 0
        → Holds live o.1
            (λ r. with_buffer base client r + one (curl_easy easy) r + one (header_list list) r)
        → Owns base (after_options curl url client easy list o)
    unfolding after_options
    after_options-Owns base url client easy list (CurlCode.ok, s) (h, e, b) p q there = λ r. omega (
      arith,
      there r,
      held-one block client.message_buffer r b,
      held-one curl_easy easy r p,
      held-one header_list list r q,
    )
    after_options-Owns base url client easy list (CurlCode.again, s) has p q there =
        init_failed-Owns base client _ has (freed (with_buffer base client) easy list s there)
    after_options-Owns base url client easy list (CurlCode.got_nothing, s) has p q there =
        init_failed-Owns base client _ has (freed (with_buffer base client) easy list s there)
    after_options-Owns base url client easy list (CurlCode.other, s) has p q there =
        init_failed-Owns base client _ has (freed (with_buffer base client) easy list s there)

    after_headers-Owns :
        (base : Account) (url : List ℕ) (client : RelayClient) (easy : ℕ) (xs : List ℕ) (s : S)
        → HasBuffer client
        → easy ≢ 0
        → Holds live s (λ r. with_buffer base client r + one (curl_easy easy) r)
        → Owns base (after_headers curl url client easy (curl.slist_append xs s))
    unfolding after_headers
    after_headers-Owns base url client easy xs s has p there =
        let o = curl.slist_append xs s in
        if_cases (Owns base) (o.0 == 0) _ _
          (λ e. init_failed-Owns base client (curl.easy_cleanup easy o.1) has (
            close_lem live curl_easy curl.easy_cleanup easy o.1 (with_buffer base client)
              laws.easy_one (λ r. laws.append_failed xs s (is_zero o.0 e) r ∙ there r)))
          (λ e.
            let q = not_zero o.0 e in
            after_options-Owns base url client easy o.0 (set_options curl easy _ o.1) has p q (λ r.
              omega (arith, set_options-Keeps easy _ o.1 r, laws.append_ok xs s q r, there r)))

    after_easy_init-Owns :
        (base : Account) (url secret : List ℕ) (client : RelayClient) (s : S)
        → HasBuffer client
        → Holds live s (with_buffer base client)
        → Owns base (after_easy_init curl url secret client (curl.easy_init s))
    unfolding after_easy_init
    after_easy_init-Owns base url secret client s has there =
        let o = curl.easy_init s in
        if_cases (Owns base) (o.0 == 0) _ _
          (λ e.
            init_failed-Owns base client o.1 has
              (λ r. laws.easy_failed s (is_zero o.0 e) r ∙ there r))
          (λ e.
            let q = not_zero o.0 e in
            after_headers-Owns base url client o.0 (auth_header secret) o.1 has q
              (λ r. omega (arith, laws.easy_ok s q r, there r)))

    nothing_owned : (r : Resource) → owned zero_client r ≡ 0
    nothing_owned r = omega (
      arith,
      held_null block 0 r refl,
      held_null curl_easy 0 r refl,
      held_null header_list 0 r refl,
    )

    after_message_alloc-Owns :
        (base : Account) (url secret : List ℕ) (n : ℕ) (s : S)
        → Holds live s base
        → Owns base (after_message_alloc curl url secret (curl.heap_alloc n s))
    unfolding after_message_alloc
    after_message_alloc-Owns base url secret n s there =
        let o = curl.heap_alloc n s in
        if_cases (Owns base) (o.0 == 0) _ _
          (λ e r. omega (arith, laws.alloc_failed n s (is_zero o.0 e) r, there r, nothing_owned r))
          (λ e.
            let q = not_zero o.0 e in
            let full = record zero_client {
              message_buffer = o.0;
              message = replicate relay_ws_message_max_size 0;
            } in
            after_easy_init-Owns base url secret full o.1 (refl, refl, q)
              (λ r. omega (arith, laws.alloc_ok n s q r, there r)))

    pub client_init-IsBalanced :
        (base : Account) (client : RelayClient) (url secret : Option (List ℕ)) (s : S)
        → Holds live s base
        → ((r : Resource) → owned client r ≡ 0)
        → Owns base (client_init curl client url secret s)
    unfolding client_init
    client_init-IsBalanced base client none secret s there e = λ r. omega (arith, there r, e r)
    client_init-IsBalanced base client (some url) none s there e = λ r. omega (arith, there r, e r)
    client_init-IsBalanced base client (some url) (some secret) s there e =
        if_cases (Owns base) (not (relay_url_is_allowed curl url s)) _ _
          (λ f r. omega (arith, there r, nothing_owned r))
          (λ f.
            if_cases (Owns base) (not (receiver_secret_is_valid (some secret))) _ _
              (λ g r. omega (arith, there r, nothing_owned r))
              (λ g. after_message_alloc-Owns base url secret relay_ws_message_max_size s there))
