-- ===== src/Win32RelayClient.antt =====
-- src/win32_relay_client.c and include/printdrop/win32_relay_client.h: the WebSocket connection to
-- the relay. The calls of libcurl and of the system are a parameter, a table of operations on a
-- state `S`; a handle or a pointer is a number, 0 for NULL. The error text, which libcurl writes
-- behind the client's back, is part of that state. A NULL client is `none` where the source tests
-- for it and can meet one.
pub mod Traffic
pub mod Receive
pub mod Whole
pub mod Frames
pub mod Release
pub mod Keeps
pub mod KeepsReceiving
pub mod Life
use printdrop.Prelude.{
  ℕ, ◌+◌, ◌*◌, Bool, true, false, not, ◌&&◌, ◌||◌, Option, none, some, List, [], ◌∷◌, ◌++◌, ltb,
  leb, ◌==◌, if◌then◌else◌, length, replicate, take,
}
use printdrop.Bytes.{store, at}
use printdrop.Bytes.Text.{codes, strlen, text_of, mem_equal}
use printdrop.Hex.{all_lower_hex}
use printdrop.ReceiverSession.{receiver_secret_hex_chars}
use printdrop.RelayMessage.{relay_ws_message_max_size}

abbrev pub relay_url_max_bytes : ℕ
relay_url_max_bytes = 511

abbrev pub relay_url_capacity : ℕ
relay_url_capacity = relay_url_max_bytes + 1

pub data ClientState : Type 0 where
  empty prepared connected closed failed : ClientState

pub data ClientResult : Type 0 where
  ok invalid_argument invalid_url invalid_secret invalid_state : ClientResult
  buffer_too_small protocol_error timeout closed_result curl_error : ClientResult

-- `CURLE_OK`, `CURLE_AGAIN`, `CURLE_GOT_NOTHING` and the rest of libcurl's codes.
pub data CurlCode : Type 0 where
  ok again got_nothing other : CurlCode

-- The options that the client sets, with their values.
pub data CurlOption : Type 0 where
  error_buffer : CurlOption
  request_url : List ℕ → CurlOption
  http_header connect_only connect_timeout_ms : ℕ → CurlOption
  ssl_verify_peer ssl_verify_host follow_location : ℕ → CurlOption

-- `struct curl_ws_frame`: the flags that the client reads, and the bytes that are still to come,
-- `none` where their number is negative.
pub record Meta : Type 0 where
  pub close : Bool
  pub ping_or_pong : Bool
  pub binary : Bool
  pub cont : Bool
  pub bytes_left : Option ℕ

-- What `select` answers.
pub data Selected : Type 0 where
  ready timed_out socket_error : Selected

-- `ws_recv` also gives how many bytes it has received, the bytes and the frame; `active_socket` is
-- `none` where the call fails or there is no socket.
pub record CurlApi (S : Type 0) : Type 0 where
  pub get_environment_variable : S → ℕ × List ℕ
  pub heap_alloc : ℕ → S → ℕ × S
  pub heap_free : ℕ → S → S
  pub easy_init : S → ℕ × S
  pub easy_cleanup : ℕ → S → S
  pub slist_append : List ℕ → S → ℕ × S
  pub slist_free_all : ℕ → S → S
  pub easy_setopt : ℕ → CurlOption → S → CurlCode × S
  pub easy_perform : ℕ → S → CurlCode × S
  pub ws_send : ℕ → List ℕ → ℕ → S → CurlCode × ℕ × S
  pub ws_send_close : ℕ → S → S
  pub ws_recv : ℕ → ℕ → S → CurlCode × ℕ × List ℕ × Option Meta × S
  pub active_socket : ℕ → S → Option ℕ × S
  pub select : Bool → ℕ → S → Selected × S

-- `message` is what the memory behind `message_buffer` holds.
pub record RelayClient : Type 0 where
  pub easy_handle : ℕ
  pub request_headers : ℕ
  pub message_buffer : ℕ
  pub message : List ℕ
  pub url : List ℕ
  pub state : ClientState

-- `memset(client, 0, sizeof(*client))`
abbrev pub zero_client : RelayClient
zero_client = record {
  easy_handle = 0;
  request_headers = 0;
  message_buffer = 0;
  message = [];
  url = replicate relay_url_capacity 0;
  state = ClientState.empty;
}

unfoldable pub receiver_secret_is_valid : Option (List ℕ) → Bool
receiver_secret_is_valid none = false
receiver_secret_is_valid (some secret) =
    if not (strlen secret == receiver_secret_hex_chars)
    then false
    else all_lower_hex (take receiver_secret_hex_chars secret)

abbrev pub secure_prefix : List ℕ
secure_prefix = codes "wss://"

abbrev pub insecure_prefix : List ℕ
insecure_prefix = codes "ws://"

abbrev pub auth_prefix : List ℕ
auth_prefix = codes "Authorization: Bearer "

-- `auth_header`, which is not initialized before, with its NUL.
abbrev pub auth_header : List ℕ → List ℕ
auth_header secret = (auth_prefix ++ take receiver_secret_hex_chars secret) ++ 0 ∷ []

module _ {S : Type 0} (curl : CurlApi S) where
  unfoldable pub insecure_http_enabled : S → Bool
  insecure_http_enabled s =
      let (length, value) = curl.get_environment_variable s in length == 1 && at value 0 == b'1'

  unfoldable pub relay_url_is_allowed : List ℕ → S → Bool
  relay_url_is_allowed address s =
      let length = strlen address in
      if ltb 6 length && leb length relay_url_max_bytes && mem_equal (take 6 address) secure_prefix
      then true
      else insecure_http_enabled s
        && ltb 5 length
        && leb length relay_url_max_bytes
        && mem_equal (take 5 address) insecure_prefix

  -- The chain of `if (code == CURLE_OK) { code = curl_easy_setopt(…); }`.
  unfoldable pub set_options : ℕ → List CurlOption → S → CurlCode × S
  set_options easy [] s = (CurlCode.ok, s)
  set_options easy (option ∷ options) s =
      let (code, s') = curl.easy_setopt easy option s in
      let rest = set_options easy options s' in
      elim code [ CurlCode.ok ↦ rest | failure ↦ (failure, s') ]

  -- The failures of `pd_win32_relay_client_init`, which free what is there.
  abbrev pub init_failed : RelayClient → S → ClientResult × RelayClient × S
  init_failed client s = (
    ClientResult.curl_error,
    record client { message_buffer = 0; message = []; state = ClientState.failed },
    curl.heap_free client.message_buffer s,
  )

  -- `pd_win32_relay_client_init` with the code of the options.
  unfoldable pub after_options :
      List ℕ → RelayClient → ℕ → ℕ → CurlCode × S → ClientResult × RelayClient × S
  after_options wss_url client easy headers (CurlCode.ok, s) = (
    ClientResult.ok,
    record client {
      url = store 0 (text_of wss_url ++ 0 ∷ []) client.url;
      easy_handle = easy;
      request_headers = headers;
      state = ClientState.prepared;
    },
    s,
  )
  after_options wss_url client easy headers (code, s) =
      init_failed client (curl.easy_cleanup easy (curl.slist_free_all headers s))

  -- With the header list.
  unfoldable pub after_headers : List ℕ → RelayClient → ℕ → ℕ × S → ClientResult × RelayClient × S
  after_headers wss_url client easy (headers, s) =
      if headers == 0
      then init_failed client (curl.easy_cleanup easy s)
      else after_options wss_url client easy headers (
          set_options easy
            (CurlOption.error_buffer
              ∷ CurlOption.request_url (text_of wss_url)
              ∷ CurlOption.http_header headers
              ∷ CurlOption.connect_only 2
              ∷ CurlOption.connect_timeout_ms 10000
              ∷ CurlOption.ssl_verify_peer 1
              ∷ CurlOption.ssl_verify_host 2
              ∷ CurlOption.follow_location 0
              ∷ [])
            s)

  -- With the easy handle.
  unfoldable pub after_easy_init :
      List ℕ → List ℕ → RelayClient → ℕ × S → ClientResult × RelayClient × S
  after_easy_init wss_url secret client (easy, s) =
      if easy == 0
      then init_failed client s
      else after_headers wss_url client easy (curl.slist_append (auth_header secret) s)

  -- With the message buffer, which is not initialized.
  unfoldable pub after_message_alloc : List ℕ → List ℕ → ℕ × S → ClientResult × RelayClient × S
  after_message_alloc wss_url secret (buffer, s) =
      if buffer == 0
      then (ClientResult.curl_error, record zero_client { state = ClientState.failed }, s)
      else after_easy_init wss_url secret
          (record zero_client {
            message_buffer = buffer;
            message = replicate relay_ws_message_max_size 0;
          })
          (curl.easy_init s)

  -- The client is the address of a local of its only caller, and is never NULL.
  unfoldable pub client_init :
      RelayClient → Option (List ℕ) → Option (List ℕ) → S → ClientResult × RelayClient × S
  client_init client none receiver_secret s = (ClientResult.invalid_argument, client, s)
  client_init client (some wss_url) none s = (ClientResult.invalid_argument, client, s)
  client_init client (some wss_url) (some secret) s =
      if not (relay_url_is_allowed wss_url s)
      then (ClientResult.invalid_url, zero_client, s)
      else if not (receiver_secret_is_valid (some secret))
      then (ClientResult.invalid_secret, zero_client, s)
      else after_message_alloc wss_url secret (curl.heap_alloc relay_ws_message_max_size s)
