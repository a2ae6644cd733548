-- ===== src/RelayMessage.antt =====
-- src/relay_message.c and include/printdrop/relay_message.h: a frame and its payload as one
-- WebSocket message. A view's payload pointer is the list of the bytes from where it points on.
pub mod Codec
use printdrop.Prelude.{
  ℕ, ◌+◌, ◌-◌, ◌*◌, Bool, not, ◌&&◌, ◌||◌, Option, none, some, List, ltb, ◌==◌, if◌then◌else◌, take,
  drop,
}
use printdrop.Bytes.{store, write_out}
use printdrop.Frame.{FrameHeader, FrameResult, frame_header_size, encode_header, decode_header}

abbrev pub relay_ws_message_max_size : ℕ
relay_ws_message_max_size = 60 * 1024

abbrev pub relay_max_payload : ℕ
relay_max_payload = relay_ws_message_max_size - frame_header_size

pub data RelayMessageResult : Type 0 where
  ok invalid_argument payload_too_large buffer_too_small malformed : RelayMessageResult

pub record RelayMessageView : Type 0 where
  pub header : FrameHeader
  pub payload : Option (List ℕ)
  pub payload_size : ℕ

-- `payload == NULL && payload_size != 0U`
abbrev pub missing_payload : Option (List ℕ) → ℕ → Bool
missing_payload none payload_size = not (payload_size == 0)
missing_payload (some payload) payload_size = Bool.false

-- `memcpy(&output[12], payload, payload_size)`, which runs only where there is a payload.
abbrev pub put_payload : Option (List ℕ) → ℕ → List ℕ → List ℕ
put_payload none payload_size output = output
put_payload (some payload) payload_size output =
    if not (payload_size == 0)
    then store frame_header_size (take payload_size payload) output
    else output

-- The last step of `pd_relay_message_encode`, after the header was tried.
message_after_header :
    FrameResult × Option (List ℕ)
    → Option (List ℕ)
    → ℕ
    → Option ℕ
    → RelayMessageResult × Option (List ℕ) × Option ℕ
message_after_header (FrameResult.ok, some output) payload payload_size written = (
  RelayMessageResult.ok,
  some (put_payload payload payload_size output),
  write_out written (frame_header_size + payload_size),
)
message_after_header (_, output) payload payload_size written =
    (RelayMessageResult.malformed, output, written)

-- The result, the output buffer and `*bytes_written` after the call.
unfoldable pub relay_message_encode :
    Option FrameHeader
    → Option (List ℕ)
    → ℕ
    → Option (List ℕ)
    → ℕ
    → Option ℕ
    → RelayMessageResult × Option (List ℕ) × Option ℕ
unfolding message_after_header
relay_message_encode none payload payload_size output capacity written =
    (RelayMessageResult.invalid_argument, output, write_out written 0)
relay_message_encode (some header) payload payload_size none capacity written =
    (RelayMessageResult.invalid_argument, none, write_out written 0)
relay_message_encode (some header) payload payload_size (some output) capacity written =
    let zeroed = write_out written 0 in
    let required = frame_header_size + payload_size in
    if missing_payload payload payload_size
    then (RelayMessageResult.invalid_argument, some output, zeroed)
    else if ltb relay_max_payload payload_size || not (header.payload_length == payload_size)
    then (RelayMessageResult.payload_too_large, some output, zeroed)
    else if ltb capacity required
    then (RelayMessageResult.buffer_too_small, some output, zeroed)
    else message_after_header (encode_header (some header) (some output)) payload payload_size
        zeroed

-- What `pd_relay_message_decode` does with a header that was accepted.
unfoldable view_of :
    List ℕ
    → ℕ
    → FrameResult × Option FrameHeader
    → RelayMessageView
    → RelayMessageResult × Option RelayMessageView
view_of message message_size (FrameResult.ok, some header) view =
    let payload_size = message_size - frame_header_size in
    if ltb relay_max_payload payload_size || not (header.payload_length == payload_size)
    then (RelayMessageResult.malformed, some view)
    else (
      RelayMessageResult.ok,
      some (record {
        header = header;
        payload = if payload_size == 0 then none else some (drop frame_header_size message);
        payload_size = payload_size;
      }),
    )
view_of message message_size _ view = (RelayMessageResult.malformed, some view)

-- `pd_frame_header header;` before the decoder fills it.
abbrev no_header : FrameHeader
no_header = record { type = 0; flags = 0; payload_length = 0 }

unfoldable pub relay_message_decode :
    Option (List ℕ) → ℕ → Option RelayMessageView → RelayMessageResult × Option RelayMessageView
unfolding view_of
relay_message_decode none message_size view = (RelayMessageResult.invalid_argument, view)
relay_message_decode (some message) message_size none = (RelayMessageResult.invalid_argument, none)
relay_message_decode (some message) message_size (some view) =
    if ltb message_size frame_header_size || ltb relay_ws_message_max_size message_size
    then (RelayMessageResult.malformed, some view)
    else view_of message message_size (decode_header (some message) (some no_header)) view
