-- ===== src/Win32RelayClient/KeepsReceiving.antt =====
-- Receiving keeps to what the client owns.
use printdrop.Prelude.{
  ℕ, zero, suc, ◌+◌, ◌-◌, ◌∙◌, false, if_cases, not, ◌||◌, Option, none, some, List, ltb, ◌==◌,
  take,
}
use printdrop.Bytes.{store}
use printdrop.RelayMessage.{
  RelayMessageResult, RelayMessageView, relay_ws_message_max_size, relay_message_decode,
}
use printdrop.Win32RelayClient.{ClientResult, CurlCode, Meta, CurlApi, RelayClient}
use printdrop.Win32RelayClient.Traffic.{
  Step, returns, goes_on, curl_failure, is_connected, wait_socket,
}
use printdrop.Win32RelayClient.Receive.{
  Reception, after_decode, after_part, after_meta, receive_waited, after_ws_recv, receive_step,
  receive_rest, client_receive_frame,
}
use printdrop.Resources.{Account}
use printdrop.Win32RelayClient.Release.{IsBalanced}
use printdrop.Win32RelayClient.Keeps.{TrafficLaws, wait_socket-Keeps}

module _ {S : Type 0} (curl : CurlApi S) (live : S → Account) (base : Account) where
  unfoldable pub EndsSeen : Option (Reception S) → Type 0
  EndsSeen none = Unit
  EndsSeen (some (result, client, view, s)) = IsBalanced curl live base client s

  unfoldable pub StepsSeen : Step (Reception S) S → Type 0
  StepsSeen (Step.returns (result, client, view, s)) = IsBalanced curl live base client s
  StepsSeen (Step.goes_on client offset s) = IsBalanced curl live base client s

  module _ (laws : TrafficLaws curl live) where
    decoded-StepsSeen :
        (client : RelayClient) (view : RelayMessageView)
        (o : RelayMessageResult × Option RelayMessageView) (s : S)
        → IsBalanced curl live base client s
        → StepsSeen (after_decode client view o s)
    unfolding after_decode StepsSeen
    decoded-StepsSeen client view (RelayMessageResult.ok, some view') s e = e
    decoded-StepsSeen client view (RelayMessageResult.ok, none) s e = e
    decoded-StepsSeen client view (RelayMessageResult.invalid_argument, some view') s e = e
    decoded-StepsSeen client view (RelayMessageResult.invalid_argument, none) s e = e
    decoded-StepsSeen client view (RelayMessageResult.payload_too_large, some view') s e = e
    decoded-StepsSeen client view (RelayMessageResult.payload_too_large, none) s e = e
    decoded-StepsSeen client view (RelayMessageResult.buffer_too_small, some view') s e = e
    decoded-StepsSeen client view (RelayMessageResult.buffer_too_small, none) s e = e
    decoded-StepsSeen client view (RelayMessageResult.malformed, some view') s e = e
    decoded-StepsSeen client view (RelayMessageResult.malformed, none) s e = e

    part-StepsSeen :
        (client : RelayClient) (offset : ℕ) (view : RelayMessageView) (left : Option ℕ) (s : S)
        → IsBalanced curl live base client s
        → StepsSeen (after_part client offset view left s)
    unfolding after_part StepsSeen
    part-StepsSeen client offset view none s e = e
    part-StepsSeen client offset view (some left) s e =
        if_cases StepsSeen (ltb (relay_ws_message_max_size - offset) left) _ _ (λ f. e)
          (λ f.
            if_cases StepsSeen (not (left == 0)) _ _ (λ g. e)
              (λ g.
                decoded-StepsSeen client view
                  (relay_message_decode (some client.message) offset (some view)) s e))

    meta-StepsSeen :
        (client : RelayClient) (offset : ℕ) (view : RelayMessageView) (received : ℕ)
        (meta : Option Meta) (s : S)
        → IsBalanced curl live base client s
        → StepsSeen (after_meta client offset view received meta s)
    unfolding after_meta StepsSeen
    meta-StepsSeen client offset view received none s e = e
    meta-StepsSeen client offset view received (some meta) s e =
        if_cases StepsSeen meta.close _ _ (λ f. e)
          (λ f.
            if_cases StepsSeen meta.ping_or_pong _ _ (λ g. e)
              (λ g.
                if_cases StepsSeen (not meta.binary || meta.cont) _ _ (λ h. e)
                  (λ h.
                    if_cases StepsSeen (ltb (relay_ws_message_max_size - offset) received) _ _
                      (λ i. e)
                      (λ i. part-StepsSeen client (offset + received) view meta.bytes_left s e))))

    receive_waited-StepsSeen :
        (client : RelayClient) (offset : ℕ) (view : RelayMessageView) (o : ClientResult × S)
        → IsBalanced curl live base client o.1
        → StepsSeen (receive_waited client offset view o)
    unfolding receive_waited StepsSeen
    receive_waited-StepsSeen client offset view (ClientResult.ok, s) e = e
    receive_waited-StepsSeen client offset view (ClientResult.invalid_argument, s) e = e
    receive_waited-StepsSeen client offset view (ClientResult.invalid_url, s) e = e
    receive_waited-StepsSeen client offset view (ClientResult.invalid_secret, s) e = e
    receive_waited-StepsSeen client offset view (ClientResult.invalid_state, s) e = e
    receive_waited-StepsSeen client offset view (ClientResult.buffer_too_small, s) e = e
    receive_waited-StepsSeen client offset view (ClientResult.protocol_error, s) e = e
    receive_waited-StepsSeen client offset view (ClientResult.timeout, s) e = e
    receive_waited-StepsSeen client offset view (ClientResult.closed_result, s) e = e
    receive_waited-StepsSeen client offset view (ClientResult.curl_error, s) e = e

    after_ws_recv-StepsSeen :
        (client : RelayClient) (offset : ℕ) (view : RelayMessageView)
        (o : CurlCode × ℕ × List ℕ × Option Meta × S)
        → IsBalanced curl live base client o.4
        → StepsSeen (after_ws_recv curl client offset view o)
    unfolding after_ws_recv StepsSeen curl_failure
    after_ws_recv-StepsSeen client offset view (CurlCode.again, received, part, meta, s) e =
        receive_waited-StepsSeen client offset view (wait_socket curl client false s)
          (λ r. wait_socket-Keeps curl live base laws client false s r ∙ e r)
    after_ws_recv-StepsSeen client offset view (CurlCode.ok, received, part, meta, s) e =
        meta-StepsSeen
          (record client { message = store offset (take received part) client.message }) offset view
          received meta s e
    after_ws_recv-StepsSeen client offset view (CurlCode.got_nothing, received, part, meta, s) e = e
    after_ws_recv-StepsSeen client offset view (CurlCode.other, received, part, meta, s) e = e

    receive_rest-EndsSeen :
        (fuel : ℕ) (client : RelayClient) (offset : ℕ) (view : RelayMessageView) (s : S)
        → IsBalanced curl live base client s
        → EndsSeen (receive_rest curl fuel client offset view s)
    unfolding receive_rest receive_step EndsSeen StepsSeen
    receive_rest-EndsSeen zero client offset view s e = tt
    receive_rest-EndsSeen (suc fuel) client offset view s e =
        elim (receive_step curl client offset view s)
            as (λ o.
              StepsSeen o
              → EndsSeen (elim o [
                | returns outcome ↦ some outcome
                | goes_on client' offset' s' ↦ receive_rest curl fuel client' offset' view s'
              ])) [
                | returns outcome ↦ λ b. b
                | goes_on client' offset' s' ↦
                    λ b. receive_rest-EndsSeen fuel client' offset' view s' b
              ]
          (after_ws_recv-StepsSeen client offset view
            (curl.ws_recv client.easy_handle (relay_ws_message_max_size - offset) s)
            (λ r.
              laws.recv_keeps client.easy_handle (relay_ws_message_max_size - offset) s r ∙ e r))

    pub client_receive_frame-EndsSeen :
        (fuel : ℕ) (client : RelayClient) (view : RelayMessageView) (s : S)
        → IsBalanced curl live base client s
        → EndsSeen (client_receive_frame curl fuel client view s)
    unfolding client_receive_frame EndsSeen
    client_receive_frame-EndsSeen fuel client view s e =
        if_cases EndsSeen
          (not (is_connected client.state) || client.easy_handle == 0 || client.message_buffer == 0)
          _ _ (λ f. e) (λ f. receive_rest-EndsSeen fuel client 0 view s e)
