-- ===== src/Tests/Sending.antt =====
-- A frame on a connection that takes at most five bytes at a time.
use printdrop.Prelude.{
  ℕ, ◌≤◌, refl, none, some, List, [], ◌∷◌, ◌++◌, ltb, length, if◌then◌else◌, take, replicate,
  length-replicate, arith,
}
use printdrop.Frame.{FrameHeader}
use printdrop.Frame.Codec.{header_bytes}
use printdrop.RelayMessage.Codec.{IsMessage, at_bytes}
use printdrop.Win32RelayClient.{ClientState, CurlCode, CurlApi, RelayClient, Selected, zero_client}
use printdrop.Win32RelayClient.Traffic.{client_send_frame}
use printdrop.Win32RelayClient.Whole.{WireLaws}
use printdrop.Win32RelayClient.Frames.{SendsFrame, client_send_frame-SendsFrame}

-- The state is what has been sent.
abbrev part_of : ℕ → ℕ
part_of n = if ltb n 5 then n else 5

abbrev stream : CurlApi (List ℕ)
stream = record {
  get_environment_variable = λ s. (0, []);
  heap_alloc = λ n s. (1, s);
  heap_free = λ p s. s;
  easy_init = λ s. (2, s);
  easy_cleanup = λ h s. s;
  slist_append = λ xs s. (3, s);
  slist_free_all = λ h s. s;
  easy_setopt = λ h option s. (CurlCode.ok, s);
  easy_perform = λ h s. (CurlCode.ok, s);
  ws_send = λ h xs n s. (CurlCode.ok, part_of n, s ++ take (part_of n) xs);
  ws_send_close = λ h s. s;
  ws_recv = λ h n s. (CurlCode.got_nothing, 0, [], none, s);
  active_socket = λ h s. (some 4, s);
  select = λ b h s. (Selected.ready, s);
}

part_of-le : (n : ℕ) → part_of n ≤ n
part_of-le n = ground arith

stream_laws : WireLaws stream (λ s. s) (λ s. 0)
stream_laws = record {
  sends = λ h xs n s e. (part_of-le n, refl, omega arith);
  blocks = λ h xs n s e. absurd (cc);
  finds = λ h s. (refl, omega arith);
  selects = λ b h s. (refl, omega arith);
}

abbrev chunk_header : FrameHeader
chunk_header = record { type = 4; flags = 0; payload_length = 2 }

abbrev two_bytes : List ℕ
two_bytes = 7 ∷ 8 ∷ []

two_bytes-IsMessage : IsMessage chunk_header two_bytes
two_bytes-IsMessage = record {
  sendable = record {
    type_low = omega arith;
    type_high = omega arith;
    no_flags = refl;
    fits = omega arith;
  };
  type_small = omega arith;
  counted = refl;
  fits = omega arith;
}

abbrev client : RelayClient
client = record zero_client {
  easy_handle = 2;
  request_headers = 3;
  message_buffer = 1;
  message = replicate 61440 0;
  state = ClientState.connected;
}

client_send_frame-SendsFrame_example :
    SendsFrame stream
      (λ s. s)
      (λ s. 0)
      stream_laws
      []
      (header_bytes chunk_header ++ two_bytes)
      (client_send_frame stream 15 client (some chunk_header) (some two_bytes) 2 [])
client_send_frame-SendsFrame_example =
    client_send_frame-SendsFrame stream (λ s. s) (λ s. 0) stream_laws 15 client chunk_header
      two_bytes (some two_bytes) [] two_bytes-IsMessage at_bytes refl (omega arith) (omega arith)
      room (omega arith) (omega arith)
  where
    room : 61440 ≤ length client.message
    room = omega (arith, length-replicate {A = ℕ} 61440 0)
