-- ===== src/Win32RelayClient/Whole.antt =====
-- A frame that is sent is sent whole.
use printdrop.Prelude.{
  ℕ, zero, suc, ◌+◌, ◌-◌, ◌≤◌, ◌<◌, ◌≡◌, ◌≢◌, refl, sym, ap, ◌∙◌, Bool, true, false, if_cases, not,
  ltb, ◌==◌, Option, none, some, List, ◌++◌, append_assoc, append-nil, take, drop, arith,
}
use printdrop.Bytes.Store.{drop-drop}
use printdrop.BaseUrl.Strip.{take_split}
use printdrop.Win32RelayClient.{ClientResult, CurlCode, Selected, CurlApi, RelayClient}
use printdrop.Win32RelayClient.Traffic.{
  Step, returns, goes_on, ClientOutcome, curl_failure, after_select, after_socket, wait_socket,
  send_waited, after_ws_send, send_step, send_rest,
}

module _ {S : Type 0} (curl : CurlApi S) (wire : S → List ℕ) (patience : S → ℕ) where
  -- `wire` is what has been sent, `patience` bounds how often libcurl still says that a send would
  -- block: a send puts on the wire what it says it has sent, and waiting sends nothing.
  pub record WireLaws : Type 0 where
    pub sends :
        (h : ℕ) (xs : List ℕ) (n : ℕ) (s : S)
        → (curl.ws_send h xs n s).0 ≡ CurlCode.ok
        → ((curl.ws_send h xs n s).1 ≤ n)
          × (wire (curl.ws_send h xs n s).2 ≡ wire s ++ take (curl.ws_send h xs n s).1 xs)
          × (patience (curl.ws_send h xs n s).2 ≤ patience s)
    pub blocks :
        (h : ℕ) (xs : List ℕ) (n : ℕ) (s : S)
        → (curl.ws_send h xs n s).0 ≡ CurlCode.again
        → (wire (curl.ws_send h xs n s).2 ≡ wire s)
          × (patience (curl.ws_send h xs n s).2 < patience s)
    pub finds :
        (h : ℕ) (s : S)
        → (wire (curl.active_socket h s).1 ≡ wire s)
          × (patience (curl.active_socket h s).1 ≤ patience s)
    pub selects :
        (b : Bool) (h : ℕ) (s : S)
        → (wire (curl.select b h s).1 ≡ wire s) × (patience (curl.select b h s).1 ≤ patience s)

  -- Nothing is sent and nothing lost.
  abbrev Same : S → S → Type 0
  Same s s' = (wire s' ≡ wire s) × (patience s' ≤ patience s)

  module _ (laws : WireLaws) where
    after_select-Same : (s : S) (x : Selected × S) → Same s x.1 → Same s (after_select curl x).1
    unfolding after_select
    after_select-Same s (Selected.ready, s') e = e
    after_select-Same s (Selected.timed_out, s') e = e
    after_select-Same s (Selected.socket_error, s') e = e

    after_socket-Same :
        (b : Bool) (s : S) (x : Option ℕ × S) → Same s x.1 → Same s (after_socket curl b x).1
    unfolding after_socket
    after_socket-Same b s (none, s') e = e
    after_socket-Same b s (some h, s') (e, p) =
        let (f, q) = laws.selects b h s' in
        after_select-Same s (curl.select b h s') (f ∙ e, omega (arith, p, q))

    wait_socket-Same :
        (client : RelayClient) (b : Bool) (s : S) → Same s (wait_socket curl client b s).1
    unfolding wait_socket
    wait_socket-Same client b s =
        after_socket-Same b s (curl.active_socket client.easy_handle s)
          (laws.finds client.easy_handle s)

    -- What is still to be sent at an offset.
    abbrev pub rest : RelayClient → ℕ → ℕ → List ℕ
    rest client size offset = take (size - offset) (drop offset client.message)

    -- A round keeps what is on the wire together with what is still to be sent, and uses up patience
    -- or bytes.
    unfoldable Goes : RelayClient → ℕ → ℕ → S → Step (ClientOutcome S) S → Type 0
    Goes client size offset s (Step.returns (result, client', s')) =
        result ≡ ClientResult.ok → wire s' ≡ wire s ++ rest client size offset
    Goes client size offset s (Step.goes_on client' offset' s') =
        (client' ≡ client)
        × (offset' ≤ size)
        × (patience s' + (size - offset') < patience s + (size - offset))
        × (wire s' ++ rest client size offset' ≡ wire s ++ rest client size offset)

    send_waited-Goes :
        (client : RelayClient) (size offset : ℕ) (s : S) (x : ClientResult × S)
        → offset ≤ size
        → wire x.1 ≡ wire s
        → patience x.1 < patience s
        → Goes client size offset s (send_waited curl client offset x)
    unfolding send_waited Goes
    send_waited-Goes client size offset s (ClientResult.ok, s') fits e p =
        (refl, fits, omega (arith, p), ap (λ w. w ++ rest client size offset) e)
    send_waited-Goes client size offset s (_, s') fits e p = λ f. absurd (cc)

    curl_failure-fails :
        (client : RelayClient) (code : CurlCode) (s : S)
        → (curl_failure client code s).0 ≢ ClientResult.ok
    unfolding curl_failure
    curl_failure-fails client CurlCode.got_nothing s e = cc
    curl_failure-fails client CurlCode.ok s e = cc
    curl_failure-fails client CurlCode.again s e = cc
    curl_failure-fails client CurlCode.other s e = cc

    -- The bytes that a send has put on the wire are the first of those still to be sent.
    put-rest :
        (client : RelayClient) (size offset k : ℕ)
        → k ≤ size - offset
        → take k (drop offset client.message) ++ rest client size (offset + k)
          ≡ rest client size offset
    put-rest client size offset k h =
        ap (λ xs. take k (drop offset client.message) ++ take (size - (offset + k)) xs)
          (sym (drop-drop offset k client.message))
        ∙ sym (take_split k (size - (offset + k)) (drop offset client.message))
        ∙ ap (λ n. take n (drop offset client.message)) {x = k + (size - (offset + k))}
            {y = size - offset} (omega (arith, h))

    after_ws_send-Goes :
        (client : RelayClient) (size offset : ℕ) (s : S) (x : CurlCode × ℕ × S)
        → offset < size
        → (x.0 ≡ CurlCode.ok
            → (x.1 ≤ size - offset)
              × (wire x.2 ≡ wire s ++ take x.1 (drop offset client.message))
              × (patience x.2 ≤ patience s))
        → (x.0 ≡ CurlCode.again → (wire x.2 ≡ wire s) × (patience x.2 < patience s))
        → Goes client size offset s (after_ws_send curl client offset x)
    unfolding after_ws_send Goes
    after_ws_send-Goes client size offset s (CurlCode.ok, k, s') fits good wait =
        let (le, put, p) = good refl in
        if_cases (Goes client size offset s) (k == 0) _ _ (λ e f. absurd (cc))
          (λ e. (
            refl,
            omega (arith, le, fits),
            omega (arith, le, fits, p, not_zero k e),
            ap (λ w. w ++ rest client size (offset + k)) put
                ∙ append_assoc (wire s) (take k (drop offset client.message))
                    (rest client size (offset + k))
                ∙ ap (λ xs. wire s ++ xs) (put-rest client size offset k le),
          ))
      where
        not_zero : (k : ℕ) → (k == 0) ≡ false → k ≢ 0
        not_zero k e = ground (arith, e)
    after_ws_send-Goes client size offset s (CurlCode.again, k, s') fits good wait =
        let (same, p) = wait refl in
        let (f, q) = wait_socket-Same client true s' in
        send_waited-Goes client size offset s (wait_socket curl client true s')
          (omega (arith, fits)) (f ∙ same) (omega (arith, p, q))
    after_ws_send-Goes client size offset s (CurlCode.got_nothing, k, s') fits good wait =
        λ e. absurd (curl_failure-fails client CurlCode.got_nothing s' e)
    after_ws_send-Goes client size offset s (CurlCode.other, k, s') fits good wait =
        λ e. absurd (curl_failure-fails client CurlCode.other s' e)

    send_step-Goes :
        (client : RelayClient) (size offset : ℕ) (s : S)
        → offset ≤ size
        → Goes client size offset s (send_step curl client size offset s)
    unfolding send_step Goes
    send_step-Goes client size offset s fits =
        let left = drop offset client.message in
        if_cases (Goes client size offset s) (not (ltb offset size)) _ _
          (λ e f.
            sym (append-nil (wire s))
            ∙ ap (λ n. wire s ++ take n left) {x = 0} {y = size - offset} (ground (arith, e, fits)))
          (λ e.
            after_ws_send-Goes client size offset s
              (curl.ws_send client.easy_handle left (size - offset) s) (ground (arith, e))
              (laws.sends client.easy_handle left (size - offset) s)
              (laws.blocks client.easy_handle left (size - offset) s))

    -- What the loop gives.
    abbrev pub Sends : RelayClient → ℕ → ℕ → S → Option (ClientOutcome S) → Type 0
    Sends client size offset s answer =
        (result : ClientResult) × (client' : RelayClient) × (s' : S) × (answer
          ≡ some (result, client', s'))
        × (result ≡ ClientResult.ok → wire s' ≡ wire s ++ rest client size offset)

    pub send_rest-Sends :
        (fuel : ℕ) (client : RelayClient) (size offset : ℕ) (s : S)
        → offset ≤ size
        → patience s + (size - offset) < fuel
        → Sends client size offset s (send_rest curl fuel client size offset s)
    unfolding send_rest Goes
    send_rest-Sends zero client size offset s fits h = absurd (omega (arith, h))
    send_rest-Sends (suc fuel) client size offset s fits h =
        resumed (send_step curl client size offset s) (send_step-Goes client size offset s fits)
          (λ c o t e p. send_rest-Sends fuel c size o t e p)
      where
        resumed :
            (x : Step (ClientOutcome S) S)
            → Goes client size offset s x
            → ((c : RelayClient) (o : ℕ) (t : S)
                → o ≤ size
                → patience t + (size - o) < fuel
                → Sends c size o t (send_rest curl fuel c size o t))
            → Sends client size offset s (elim x as (λ y. Option (ClientOutcome S)) [
              | returns outcome ↦ some outcome
              | goes_on client' offset' s' ↦ send_rest curl fuel client' size offset' s'
            ])
        resumed (returns (result, client', s')) g next = (result, client', s', refl, g)
        resumed (goes_on client' offset' s') (same, within, less, whole) next =
            let (result, c, t, answer, wired) =
              next client' offset' s' within (omega (arith, less, h)) in
            (
              result,
              c,
              t,
              answer,
              λ e. wired e ∙ ap (λ b. wire s' ++ rest b size offset') same ∙ whole,
            )
