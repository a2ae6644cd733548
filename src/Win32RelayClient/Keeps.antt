-- ===== src/Win32RelayClient/Keeps.antt =====
-- Connecting and sending keep to what the client owns.
use printdrop.Prelude.{
  ℕ, zero, suc, ◌-◌, refl, ◌∙◌, Bool, true, if_cases, not, ◌||◌, Option, none, some, List, ltb,
  ◌==◌, drop,
}
use printdrop.Frame.{FrameHeader}
use printdrop.ReceiverProtocol.{payload_missing}
use printdrop.RelayMessage.{RelayMessageResult, relay_ws_message_max_size, relay_message_encode}
use printdrop.Win32RelayClient.{ClientResult, CurlCode, Selected, CurlApi, RelayClient}
use printdrop.Win32RelayClient.Traffic.{
  Step, returns, goes_on, curl_failure, is_connected, is_prepared, after_select, after_socket,
  wait_socket, after_perform, client_connect, send_waited, after_ws_send, send_step, send_rest,
  after_encode, client_send_frame,
}
use printdrop.Resources.{Account, Keeps}
use printdrop.Win32RelayClient.Release.{IsBalanced}

module _ {S : Type 0} (curl : CurlApi S) (live : S → Account) where
  -- Connecting, sending, receiving and waiting open and close nothing that is counted.
  pub record TrafficLaws : Type 0 where
    pub perform_keeps : (h : ℕ) (s : S) → Keeps live s (curl.easy_perform h s).1
    pub send_keeps : (h : ℕ) (xs : List ℕ) (n : ℕ) (s : S) → Keeps live s (curl.ws_send h xs n s).2
    pub recv_keeps : (h n : ℕ) (s : S) → Keeps live s (curl.ws_recv h n s).4
    pub socket_keeps : (h : ℕ) (s : S) → Keeps live s (curl.active_socket h s).1
    pub select_keeps : (w : Bool) (h : ℕ) (s : S) → Keeps live s (curl.select w h s).1

  module _ (base : Account) where
    -- An outcome that is balanced, where there is one.
    unfoldable pub Ends : Option (ClientResult × RelayClient × S) → Type 0
    Ends none = Unit
    Ends (some (result, client, s)) = IsBalanced curl live base client s

    unfoldable pub Steps : Step (ClientResult × RelayClient × S) S → Type 0
    Steps (Step.returns (result, client, s)) = IsBalanced curl live base client s
    Steps (Step.goes_on client offset s) = IsBalanced curl live base client s

    module _ (laws : TrafficLaws) where
      after_select-Keeps : (o : Selected × S) → Keeps live o.1 (after_select curl o).1
      unfolding after_select
      after_select-Keeps (Selected.ready, s) = λ r. refl
      after_select-Keeps (Selected.timed_out, s) = λ r. refl
      after_select-Keeps (Selected.socket_error, s) = λ r. refl

      after_socket-Keeps : (w : Bool) (o : Option ℕ × S) → Keeps live o.1 (after_socket curl w o).1
      unfolding after_socket
      after_socket-Keeps w (none, s) = λ r. refl
      after_socket-Keeps w (some socket, s) =
          λ r. after_select-Keeps (curl.select w socket s) r ∙ laws.select_keeps w socket s r

      pub wait_socket-Keeps :
          (client : RelayClient) (w : Bool) (s : S) → Keeps live s (wait_socket curl client w s).1
      unfolding wait_socket
      wait_socket-Keeps client w s = λ r.
          after_socket-Keeps w (curl.active_socket client.easy_handle s) r
          ∙ laws.socket_keeps client.easy_handle s r

      curl_failure-IsBalanced :
          (client : RelayClient) (code : CurlCode) (s : S)
          → IsBalanced curl live base client s
          → IsBalanced curl live base (curl_failure client code s).1 (curl_failure client code s).2
      unfolding curl_failure
      curl_failure-IsBalanced client CurlCode.ok s e = e
      curl_failure-IsBalanced client CurlCode.again s e = e
      curl_failure-IsBalanced client CurlCode.got_nothing s e = e
      curl_failure-IsBalanced client CurlCode.other s e = e

      pub connect-IsBalanced :
          (client : RelayClient) (s : S)
          → IsBalanced curl live base client s
          → IsBalanced curl live base
              (client_connect curl client s).1
              (client_connect curl client s).2
      unfolding client_connect after_perform
      connect-IsBalanced client s e =
          if_cases (λ (o : ClientResult × RelayClient × S). IsBalanced curl live base o.1 o.2)
            (client.easy_handle == 0 || not (is_prepared client.state)) _ _ (λ f. e)
            (λ f.
              performed (curl.easy_perform client.easy_handle s)
                (λ r. laws.perform_keeps client.easy_handle s r ∙ e r))
        where
          performed :
              (o : CurlCode × S)
              → IsBalanced curl live base client o.1
              → IsBalanced curl live base
                  (after_perform curl client o).1
                  (after_perform curl client o).2
          performed (CurlCode.ok, s') b = b
          performed (CurlCode.again, s') b = curl_failure-IsBalanced client CurlCode.again s' b
          performed (CurlCode.got_nothing, s') b =
              curl_failure-IsBalanced client CurlCode.got_nothing s' b
          performed (CurlCode.other, s') b = curl_failure-IsBalanced client CurlCode.other s' b

      send_waited-Steps :
          (client : RelayClient) (offset : ℕ) (o : ClientResult × S)
          → IsBalanced curl live base client o.1
          → Steps (send_waited curl client offset o)
      unfolding send_waited Steps
      send_waited-Steps client offset (ClientResult.ok, s) e = e
      send_waited-Steps client offset (ClientResult.invalid_argument, s) e = e
      send_waited-Steps client offset (ClientResult.invalid_url, s) e = e
      send_waited-Steps client offset (ClientResult.invalid_secret, s) e = e
      send_waited-Steps client offset (ClientResult.invalid_state, s) e = e
      send_waited-Steps client offset (ClientResult.buffer_too_small, s) e = e
      send_waited-Steps client offset (ClientResult.protocol_error, s) e = e
      send_waited-Steps client offset (ClientResult.timeout, s) e = e
      send_waited-Steps client offset (ClientResult.closed_result, s) e = e
      send_waited-Steps client offset (ClientResult.curl_error, s) e = e

      after_ws_send-Steps :
          (client : RelayClient) (offset : ℕ) (o : CurlCode × ℕ × S)
          → IsBalanced curl live base client o.2
          → Steps (after_ws_send curl client offset o)
      unfolding after_ws_send Steps curl_failure
      after_ws_send-Steps client offset (CurlCode.again, sent, s) e =
          send_waited-Steps client offset (wait_socket curl client true s)
            (λ r. wait_socket-Keeps client true s r ∙ e r)
      after_ws_send-Steps client offset (CurlCode.ok, sent, s) e =
          if_cases Steps (sent == 0) _ _ (λ f. e) (λ f. e)
      after_ws_send-Steps client offset (CurlCode.got_nothing, sent, s) e = e
      after_ws_send-Steps client offset (CurlCode.other, sent, s) e = e

      send_step-Steps :
          (client : RelayClient) (n offset : ℕ) (s : S)
          → IsBalanced curl live base client s
          → Steps (send_step curl client n offset s)
      unfolding send_step Steps
      send_step-Steps client n offset s e =
          if_cases Steps (not (ltb offset n)) _ _ (λ f. e)
            (λ f.
              after_ws_send-Steps client offset
                (curl.ws_send client.easy_handle (drop offset client.message) (n - offset) s)
                (λ r.
                  laws.send_keeps client.easy_handle (drop offset client.message) (n - offset) s r
                  ∙ e r))

      send_rest-Ends :
          (fuel : ℕ) (client : RelayClient) (n offset : ℕ) (s : S)
          → IsBalanced curl live base client s
          → Ends (send_rest curl fuel client n offset s)
      unfolding send_rest Ends Steps
      send_rest-Ends zero client n offset s e = tt
      send_rest-Ends (suc fuel) client n offset s e =
          elim (send_step curl client n offset s)
              as (λ o.
                Steps o
                → Ends (elim o [
                  | returns outcome ↦ some outcome
                  | goes_on client' offset' s' ↦ send_rest curl fuel client' n offset' s'
                ])) [
                  | returns outcome ↦ λ b. b
                  | goes_on client' offset' s' ↦ λ b. send_rest-Ends fuel client' n offset' s' b
                ]
            (send_step-Steps client n offset s e)

      encoded-Ends :
          (fuel : ℕ) (client : RelayClient) (o : RelayMessageResult × Option (List ℕ) × Option ℕ)
          (s : S)
          → IsBalanced curl live base client s
          → Ends (after_encode curl fuel client o s)
      unfolding after_encode Ends
      encoded-Ends fuel client (RelayMessageResult.ok, some message, some n) s e =
          send_rest-Ends fuel (record client { message = message }) n 0 s e
      encoded-Ends fuel client (RelayMessageResult.ok, some message, none) s e = e
      encoded-Ends fuel client (RelayMessageResult.invalid_argument, some message, n) s e = e
      encoded-Ends fuel client (RelayMessageResult.payload_too_large, some message, n) s e = e
      encoded-Ends fuel client (RelayMessageResult.buffer_too_small, some message, n) s e = e
      encoded-Ends fuel client (RelayMessageResult.malformed, some message, n) s e = e
      encoded-Ends fuel client (RelayMessageResult.ok, none, n) s e = e
      encoded-Ends fuel client (RelayMessageResult.invalid_argument, none, n) s e = e
      encoded-Ends fuel client (RelayMessageResult.payload_too_large, none, n) s e = e
      encoded-Ends fuel client (RelayMessageResult.buffer_too_small, none, n) s e = e
      encoded-Ends fuel client (RelayMessageResult.malformed, none, n) s e = e

      pub client_send_frame-Ends :
          (fuel : ℕ) (client : RelayClient) (h : Option FrameHeader) (p : Option (List ℕ)) (n : ℕ)
          (s : S)
          → IsBalanced curl live base client s
          → Ends (client_send_frame curl fuel client h p n s)
      unfolding client_send_frame Ends
      client_send_frame-Ends fuel client none p n s e = e
      client_send_frame-Ends fuel client (some h) p n s e =
          if_cases Ends (payload_missing p n) _ _ (λ f. e)
            (λ f.
              if_cases Ends
                (not (is_connected client.state)
                  || client.easy_handle == 0
                  || client.message_buffer == 0)
                _ _ (λ g. e)
                (λ g.
                  encoded-Ends fuel client
                    (relay_message_encode (some h) p n (some client.message)
                      relay_ws_message_max_size (some 0))
                    s e))
