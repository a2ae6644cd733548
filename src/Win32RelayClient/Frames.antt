-- ===== src/Win32RelayClient/Frames.antt =====
-- What sending a frame puts on the wire.
use printdrop.Prelude.{
  ℕ, ◌+◌, ◌-◌, ◌≤◌, ◌<◌, ◌≡◌, ◌≢◌, refl, sym, ap, subst, ◌∙◌, false, true-ne-false, if_cases, not,
  ◌||◌, ◌==◌, Option, none, some, List, ◌++◌, length, length-append, take, take-length-append, drop,
  arith,
}
use printdrop.Frame.{FrameHeader}
use printdrop.Frame.Codec.{header_bytes}
use printdrop.ReceiverProtocol.{payload_missing}
use printdrop.RelayMessage.{relay_ws_message_max_size}
use printdrop.RelayMessage.Codec.{
  IsMessage, Points, nothing, at_bytes, length-header_bytes, relay_message_encode_lem,
}
use printdrop.Win32RelayClient.{ClientState, ClientResult, CurlApi, RelayClient}
use printdrop.Win32RelayClient.Traffic.{is_connected, after_encode, client_send_frame}
use printdrop.Win32RelayClient.Whole.{WireLaws, send_rest-Sends}

present :
    (payload : List ℕ) (p : Option (List ℕ))
    → Points payload p
    → payload_missing p (length payload) ≡ false
present payload none (nothing e) = rw e refl
present payload (some _) at_bytes = refl

ready_to_send :
    (x : ClientState) (h b : ℕ)
    → x ≡ ClientState.connected
    → h ≢ 0
    → b ≢ 0
    → (not (is_connected x) || h == 0 || b == 0) ≡ false
ready_to_send x h b e p q = rw e (ground (arith, p, q))

module _ {S : Type 0} (curl : CurlApi S) (wire : S → List ℕ) (patience : S → ℕ)
    (laws : WireLaws curl wire patience) where
  -- What sending a frame gives.
  abbrev pub SendsFrame : S → List ℕ → Option (ClientResult × RelayClient × S) → Type 0
  SendsFrame s message answer =
      (result : ClientResult) × (client' : RelayClient) × (s' : S) × (answer
        ≡ some (result, client', s'))
      × (result ≡ ClientResult.ok → wire s' ≡ wire s ++ message)

  -- Where libcurl puts on the wire what it says it has sent, and `patience` bounds how often it still
  -- says that a send would block: a connected client whose buffer has the size that it was allocated
  -- with, on fuel for more rounds than the message has bytes and the patience lasts, answers the
  -- sending of a frame that fits its payload and the limit; and where it answers OK, exactly the
  -- header's bytes and then the payload have been put on the wire, in however many parts.
  pub client_send_frame-SendsFrame :
      (fuel : ℕ) (client : RelayClient) (h : FrameHeader) (payload : List ℕ) (p : Option (List ℕ))
      (s : S)
      → IsMessage h payload
      → Points payload p
      → client.state ≡ ClientState.connected
      → client.easy_handle ≢ 0
      → client.message_buffer ≢ 0
      → relay_ws_message_max_size ≤ length client.message
      → 12 + length payload ≤ relay_ws_message_max_size
      → patience s + (12 + length payload) < fuel
      → SendsFrame s
          (header_bytes h ++ payload)
          (client_send_frame curl fuel client (some h) p (length payload) s)
  unfolding client_send_frame after_encode
  client_send_frame-SendsFrame fuel client h payload p s m points connected handle buffer size fits
        enough =
      let n = 12 + length payload in
      let message = header_bytes h ++ payload in
      let filled = message ++ drop n client.message in
      let full = record client { message = filled } in
      let P = SendsFrame s message in
      let sent =
        send_rest-Sends curl wire patience laws fuel full n 0 s (omega arith)
          (omega (arith, enough)) in
      let whole : take (n - 0) filled ≡ message =
        ap (λ k. take k filled) {x = n - 0} {y = length message}
          (omega (arith, length-append (header_bytes h) payload, length-header_bytes h))
        ∙ take-length-append message (drop n client.message) in
      if_cases P (payload_missing p (length payload)) _ _
        (λ e. absurd (true-ne-false (sym e ∙ present payload p points)))
        (λ e.
          if_cases P
            (not (is_connected client.state)
              || client.easy_handle == 0
              || client.message_buffer == 0)
            _ _
            (λ f. absurd (
              true-ne-false (
                sym f
                ∙ ready_to_send client.state client.easy_handle client.message_buffer connected
                    handle buffer)))
            (λ f.
              subst (λ o. P (after_encode curl fuel client o s))
                (sym (
                  relay_message_encode_lem h payload p client.message relay_ws_message_max_size
                    (some 0) m points fits size))
                (let (result, client', s', answer, put) = sent in
                  (result, client', s', answer, λ g. put g ∙ ap (λ xs. wire s ++ xs) whole))))
