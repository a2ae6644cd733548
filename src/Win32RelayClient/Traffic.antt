-- ===== src/Win32RelayClient/Traffic.antt =====
-- Connecting, sending and receiving frames, and the cleanup. The loops of sending and receiving,
-- which go on as long as libcurl says that it would block and the socket is then ready, run on fuel,
-- one unit for a call of libcurl; `none` says that it was not enough.
use printdrop.Prelude.{
  ℕ, zero, suc, ◌+◌, ◌-◌, Bool, true, false, not, ◌&&◌, ◌||◌, Option, none, some, List, [], ltb,
  ◌==◌, if◌then◌else◌, drop, replicate,
}
use printdrop.Frame.{FrameHeader}
use printdrop.ReceiverProtocol.{payload_missing}
use printdrop.RelayMessage.{RelayMessageResult, relay_ws_message_max_size, relay_message_encode}
use printdrop.Win32RelayClient.{
  ClientState, ClientResult, CurlCode, Selected, CurlApi, RelayClient, relay_url_capacity,
}

abbrev pub is_connected : ClientState → Bool
is_connected ClientState.connected = true
is_connected _ = false

abbrev pub is_prepared : ClientState → Bool
is_prepared ClientState.prepared = true
is_prepared _ = false

-- What an operation of the client gives back.
abbrev pub ClientOutcome : Type 0 → Type 0
ClientOutcome S = ClientResult × RelayClient × S

-- A round of a loop: the loop returns, or goes on at an offset into the message buffer.
pub data Step (A S : Type 0) : Type 0 where
  returns : A → Step A S
  goes_on : RelayClient → ℕ → S → Step A S

-- `client->state = …; return …;`
abbrev pub ends : {S : Type 0} → ClientState → ClientResult → RelayClient → S → ClientOutcome S
ends state result client s = (result, record client { state = state }, s)

unfoldable pub curl_failure : {S : Type 0} → RelayClient → CurlCode → S → ClientOutcome S
curl_failure client CurlCode.got_nothing s =
    ends ClientState.closed ClientResult.closed_result client s
curl_failure client code s = ends ClientState.failed ClientResult.curl_error client s

-- The state that a failed wait leaves.
abbrev pub waited_state : ClientResult → ClientState
waited_state ClientResult.timeout = ClientState.connected
waited_state _ = ClientState.failed

module _ {S : Type 0} (curl : CurlApi S) where
  unfoldable pub after_select : Selected × S → ClientResult × S
  after_select (Selected.ready, s) = (ClientResult.ok, s)
  after_select (Selected.timed_out, s) = (ClientResult.timeout, s)
  after_select (Selected.socket_error, s) = (ClientResult.curl_error, s)

  unfoldable pub after_socket : Bool → Option ℕ × S → ClientResult × S
  after_socket writable (none, s) = (ClientResult.curl_error, s)
  after_socket writable (some socket, s) = after_select (curl.select writable socket s)

  unfoldable pub wait_socket : RelayClient → Bool → S → ClientResult × S
  wait_socket client writable s = after_socket writable (curl.active_socket client.easy_handle s)

  unfoldable pub after_perform : RelayClient → CurlCode × S → ClientOutcome S
  after_perform client (CurlCode.ok, s) = ends ClientState.connected ClientResult.ok client s
  after_perform client (code, s) = curl_failure client code s

  unfoldable pub client_connect : RelayClient → S → ClientOutcome S
  client_connect client s =
      if client.easy_handle == 0 || not (is_prepared client.state)
      then (ClientResult.invalid_state, client, s)
      else after_perform client (curl.easy_perform client.easy_handle s)

  -- A round of `pd_win32_relay_client_send_frame` that would block, with the answer of the wait.
  unfoldable pub send_waited : RelayClient → ℕ → ClientResult × S → Step (ClientOutcome S) S
  send_waited client offset (ClientResult.ok, s) = Step.goes_on client offset s
  send_waited client offset (result, s) = Step.returns (ends (waited_state result) result client s)

  -- A round with the answer of `curl_ws_send`.
  unfoldable pub after_ws_send : RelayClient → ℕ → CurlCode × ℕ × S → Step (ClientOutcome S) S
  after_ws_send client offset (CurlCode.again, sent, s) =
      send_waited client offset (wait_socket client true s)
  after_ws_send client offset (CurlCode.ok, sent, s) =
      if sent == 0
      then Step.returns (ends ClientState.failed ClientResult.curl_error client s)
      else Step.goes_on client (offset + sent) s
  after_ws_send client offset (code, sent, s) = Step.returns (curl_failure client code s)

  unfoldable pub send_step : RelayClient → ℕ → ℕ → S → Step (ClientOutcome S) S
  send_step client message_size offset s =
      if not (ltb offset message_size)
      then Step.returns (ClientResult.ok, client, s)
      else after_ws_send client offset
          (curl.ws_send client.easy_handle (drop offset client.message) (message_size - offset) s)

  unfoldable pub send_rest : ℕ → RelayClient → ℕ → ℕ → S → Option (ClientOutcome S)
  send_rest zero client message_size offset s = none
  send_rest (suc fuel) client message_size offset s =
      elim (send_step client message_size offset s) [
        | returns outcome ↦ some outcome
        | goes_on client' offset' s' ↦ send_rest fuel client' message_size offset' s'
      ]

  -- `pd_win32_relay_client_send_frame` with the outcome of the encoder.
  unfoldable pub after_encode :
      ℕ
      → RelayClient
      → RelayMessageResult × Option (List ℕ) × Option ℕ
      → S
      → Option (ClientOutcome S)
  after_encode fuel client (RelayMessageResult.ok, some message, some message_size) s =
      send_rest fuel (record client { message = message }) message_size 0 s
  after_encode fuel client (result, some message, message_size) s =
      some (ClientResult.protocol_error, record client { message = message }, s)
  after_encode fuel client (result, none, message_size) s =
      some (ClientResult.protocol_error, client, s)

  unfoldable pub client_send_frame :
      ℕ → RelayClient → Option FrameHeader → Option (List ℕ) → ℕ → S → Option (ClientOutcome S)
  client_send_frame fuel client none payload payload_size s =
      some (ClientResult.invalid_argument, client, s)
  client_send_frame fuel client (some header) payload payload_size s =
      if payload_missing payload payload_size
      then some (ClientResult.invalid_argument, client, s)
      else if not (is_connected client.state)
          || client.easy_handle == 0
          || client.message_buffer == 0
      then some (ClientResult.invalid_state, client, s)
      else after_encode fuel client
          (relay_message_encode (some header) payload payload_size (some client.message)
            relay_ws_message_max_size (some 0))
          s

  -- `pd_win32_relay_client_cleanup`, with the parts that it releases.
  abbrev pub release : (ℕ → S → S) → ℕ → S → S
  release close handle s = if not (handle == 0) then close handle s else s

  unfoldable pub client_cleanup : RelayClient → S → RelayClient × S
  client_cleanup client s =
      let told =
        if is_connected client.state && not (client.easy_handle == 0)
        then curl.ws_send_close client.easy_handle s
        else s in
      (
        record client {
          request_headers = 0;
          easy_handle = 0;
          message_buffer = 0;
          message = [];
          url = replicate relay_url_capacity 0;
          state = ClientState.closed;
        },
        release curl.heap_free client.message_buffer (
            release curl.easy_cleanup client.easy_handle
              (release curl.slist_free_all client.request_headers told)),
      )
