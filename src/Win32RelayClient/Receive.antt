-- ===== src/Win32RelayClient/Receive.antt =====
-- `pd_win32_relay_client_receive_frame`: the parts of a message are received one behind the other
-- until it is whole, and decoded. The loop runs on fuel as in Traffic.antt. The view is the address
-- of a local of its only caller, and is never NULL.
use printdrop.Prelude.{
  ℕ, zero, suc, ◌+◌, ◌-◌, false, not, ◌||◌, Option, none, some, List, ltb, ◌==◌, if◌then◌else◌,
  take,
}
use printdrop.Bytes.{store}
use printdrop.RelayMessage.{
  RelayMessageResult, RelayMessageView, relay_ws_message_max_size, relay_message_decode,
}
use printdrop.Win32RelayClient.{ClientState, ClientResult, CurlCode, Meta, CurlApi, RelayClient}
use printdrop.Win32RelayClient.Traffic.{
  Step, returns, goes_on, is_connected, ends, curl_failure, waited_state, wait_socket,
}

-- The result, the client, the view and the system.
abbrev pub Reception : Type 0 → Type 0
Reception S = ClientResult × RelayClient × RelayMessageView × S

-- An outcome that leaves the view as it was.
abbrev pub seen :
    {S : Type 0} → RelayMessageView → ClientResult × RelayClient × S → Step (Reception S) S
seen view (result, client, s) = Step.returns (result, client, view, s)

-- `pd_relay_message_decode` of the whole message.
unfoldable pub after_decode :
    {S : Type 0}
    → RelayClient
    → RelayMessageView
    → RelayMessageResult × Option RelayMessageView
    → S
    → Step (Reception S) S
after_decode client view (RelayMessageResult.ok, some view') s =
    Step.returns (ClientResult.ok, client, view', s)
after_decode client view (result, some view') s =
    seen view' (ends ClientState.failed ClientResult.protocol_error client s)
after_decode client view (result, none) s =
    seen view (ends ClientState.failed ClientResult.protocol_error client s)

-- What is done with the bytes that are still to come, behind `offset` bytes in the buffer.
unfoldable pub after_part :
    {S : Type 0} → RelayClient → ℕ → RelayMessageView → Option ℕ → S → Step (Reception S) S
after_part client offset view none s =
    seen view (ends ClientState.failed ClientResult.buffer_too_small client s)
after_part client offset view (some bytes_left) s =
    if ltb (relay_ws_message_max_size - offset) bytes_left
    then seen view (ends ClientState.failed ClientResult.buffer_too_small client s)
    else if not (bytes_left == 0)
    then Step.goes_on client offset s
    else after_decode client view (relay_message_decode (some client.message) offset (some view)) s

-- `if (meta->bytesleft == 0) { offset = 0U; }`, where a negative number is not 0.
abbrev pub offset_after_control : ℕ → Option ℕ → ℕ
offset_after_control offset none = offset
offset_after_control offset (some bytes_left) = if bytes_left == 0 then 0 else offset

-- A round with the frame that was received.
unfoldable pub after_meta :
    {S : Type 0} → RelayClient → ℕ → RelayMessageView → ℕ → Option Meta → S → Step (Reception S) S
after_meta client offset view received none s =
    seen view (ends ClientState.failed ClientResult.protocol_error client s)
after_meta client offset view received (some meta) s =
    if meta.close
    then seen view (ends ClientState.closed ClientResult.closed_result client s)
    else if meta.ping_or_pong
    then Step.goes_on client (offset_after_control offset meta.bytes_left) s
    else if not meta.binary || meta.cont
    then seen view (ends ClientState.failed ClientResult.protocol_error client s)
    else if ltb (relay_ws_message_max_size - offset) received
    then seen view (ends ClientState.failed ClientResult.buffer_too_small client s)
    else after_part client (offset + received) view meta.bytes_left s

-- A round that would block, with the answer of the wait.
unfoldable pub receive_waited :
    {S : Type 0} → RelayClient → ℕ → RelayMessageView → ClientResult × S → Step (Reception S) S
receive_waited client offset view (ClientResult.ok, s) = Step.goes_on client offset s
receive_waited client offset view (result, s) =
    seen view (ends (waited_state result) result client s)

module _ {S : Type 0} (curl : CurlApi S) where
  -- A round with the answer of `curl_ws_recv`, which has written what it received into the buffer.
  unfoldable pub after_ws_recv :
      RelayClient
      → ℕ
      → RelayMessageView
      → CurlCode × ℕ × List ℕ × Option Meta × S
      → Step (Reception S) S
  after_ws_recv client offset view (CurlCode.again, received, part, meta, s) =
      receive_waited client offset view (wait_socket curl client false s)
  after_ws_recv client offset view (CurlCode.ok, received, part, meta, s) =
      after_meta (record client { message = store offset (take received part) client.message })
        offset view received meta s
  after_ws_recv client offset view (code, received, part, meta, s) =
      seen view (curl_failure client code s)

  unfoldable pub receive_step : RelayClient → ℕ → RelayMessageView → S → Step (Reception S) S
  receive_step client offset view s =
      after_ws_recv client offset view
        (curl.ws_recv client.easy_handle (relay_ws_message_max_size - offset) s)

  unfoldable pub receive_rest : ℕ → RelayClient → ℕ → RelayMessageView → S → Option (Reception S)
  receive_rest zero client offset view s = none
  receive_rest (suc fuel) client offset view s = elim (receive_step client offset view s) [
    | returns outcome ↦ some outcome
    | goes_on client' offset' s' ↦ receive_rest fuel client' offset' view s'
  ]

  unfoldable pub client_receive_frame :
      ℕ → RelayClient → RelayMessageView → S → Option (Reception S)
  client_receive_frame fuel client view s =
      if not (is_connected client.state) || client.easy_handle == 0 || client.message_buffer == 0
      then some (ClientResult.invalid_state, client, view, s)
      else receive_rest fuel client 0 view s
