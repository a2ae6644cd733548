-- ===== src/Tests/Releasing.antt =====
-- A connection to a relay, in a system that keeps account of what is there.
use printdrop.Prelude.{ℕ, ◌+◌, ◌-◌, ◌≡◌, refl, arith, List, [], none, some, replicate}
use printdrop.Bytes.Text.{codes, strlen, mem_equal}
use printdrop.Hex.{is_lower_hex_digit, all_lower_hex}
use printdrop.RelayMessage.{RelayMessageView}
use printdrop.Resources.{
  Resource, block, curl_easy, header_list, Account, one, held_null, Holds, take_off,
}
use printdrop.Win32RelayClient.{
  ClientState, ClientResult, CurlCode, CurlApi, RelayClient, Selected, zero_client, client_init,
  relay_url_is_allowed, receiver_secret_is_valid, after_message_alloc, after_easy_init,
  after_headers, set_options, after_options,
}
use printdrop.Win32RelayClient.Traffic.{curl_failure, after_perform, client_connect, client_cleanup}
use printdrop.Win32RelayClient.Receive.{
  after_ws_recv, receive_step, receive_rest, client_receive_frame,
}
use printdrop.Win32RelayClient.Release.{owned, LiveLaws}
use printdrop.Win32RelayClient.Keeps.{TrafficLaws}
use printdrop.Win32RelayClient.Life.{Life, made, connects, receives, client_cleanup-Life}

-- The state is the account of what is there.
abbrev with_one : Resource → Account → Account
with_one q s r = s r + one q r

abbrev without : Resource → Account → Account
without q s r = s r - one q r

abbrev counting : CurlApi Account
counting = record {
  get_environment_variable = λ s. (0, []);
  heap_alloc = λ n s. (1, with_one (block 1) s);
  heap_free = λ p s. without (block p) s;
  easy_init = λ s. (2, with_one (curl_easy 2) s);
  easy_cleanup = λ h s. without (curl_easy h) s;
  slist_append = λ xs s. (3, with_one (header_list 3) s);
  slist_free_all = λ h s. without (header_list h) s;
  easy_setopt = λ h option s. (CurlCode.ok, s);
  easy_perform = λ h s. (CurlCode.ok, s);
  ws_send = λ h xs n s. (CurlCode.ok, n, s);
  ws_send_close = λ h s. s;
  ws_recv = λ h n s. (CurlCode.got_nothing, 0, [], none, s);
  active_socket = λ h s. (some 4, s);
  select = λ b h s. (Selected.ready, s);
}

counting_laws : LiveLaws counting (λ s. s)
counting_laws = record {
  alloc_ok = λ n s e r. refl;
  alloc_failed = λ n s e. absurd (cc);
  easy_ok = λ s e r. refl;
  easy_failed = λ s e. absurd (cc);
  append_ok = λ xs s e r. refl;
  append_failed = λ xs s e. absurd (cc);
  setopt_keeps = λ h o s r. refl;
  close_keeps = λ h s r. refl;
  free_one = λ p s e r. take_off s (block p) e r;
  easy_one = λ h s e r. take_off s (curl_easy h) e r;
  list_one = λ h s e r. take_off s (header_list h) e r;
}

counting_traffic : TrafficLaws counting (λ s. s)
counting_traffic = record {
  perform_keeps = λ h s r. refl;
  send_keeps = λ h xs n s r. refl;
  recv_keeps = λ h n s r. refl;
  socket_keeps = λ h s r. refl;
  select_keeps = λ w h s r. refl;
}

-- A block of somebody else's.
abbrev others : Account
others = one (block 99)

nothing_owned : (r : Resource) → owned zero_client r ≡ 0
nothing_owned r =
    omega (
      arith,
      held_null block 0 r refl,
      held_null curl_easy 0 r refl,
      held_null header_list 0 r refl,
    )

abbrev no_view : RelayMessageView
no_view = record {
  header = record { type = 0; flags = 0; payload_length = 0 };
  payload = none;
  payload_size = 0;
}

abbrev relay_url : List ℕ
relay_url = codes "wss://relay.example/v1/receiver"

abbrev secret : List ℕ
secret = replicate 64 97

abbrev started : ClientResult × RelayClient × Account
started = client_init counting zero_client (some relay_url) (some secret) others

abbrev linked : ClientResult × RelayClient × Account
linked = client_connect counting started.1 started.2

started-Life : Life counting (λ s. s) others started.1 started.2
started-Life = made zero_client (some relay_url) (some secret) others nothing_owned (λ r. refl)

linked-Life : Life counting (λ s. s) others linked.1 linked.2
linked-Life = connects started.1 started.2 started-Life

-- The connection is at its end when a frame is to be received.
ended :
    client_receive_frame counting 1 linked.1 no_view linked.2
    ≡ some (
      ClientResult.closed_result,
      record linked.1 { state = ClientState.closed },
      no_view,
      linked.2,
    )
unfolding client_receive_frame receive_rest receive_step after_ws_recv curl_failure client_connect
    after_perform client_init relay_url_is_allowed receiver_secret_is_valid after_message_alloc
    after_easy_init after_headers set_options after_options strlen mem_equal all_lower_hex
    is_lower_hex_digit
ended = refl

client_cleanup-Life_example :
    Holds
      (λ s. s)
      (client_cleanup counting (record linked.1 { state = ClientState.closed }) linked.2).1
      others
client_cleanup-Life_example =
    client_cleanup-Life counting (λ s. s) others (record linked.1 { state = ClientState.closed })
      linked.2 counting_laws counting_traffic
      (receives 1 no_view no_view linked.1 (record linked.1 { state = ClientState.closed }) linked.2
        linked.2 ClientResult.closed_result linked-Life ended)
