-- ===== src/RelayMessage/Codec.antt =====
-- Relay messages: what the encoder writes is what the decoder reads, within the size limit.
use printdrop.Prelude.{
  ℕ, ◌+◌, ◌*◌, ◌^◌, ◌≤◌, ◌<◌, ◌≡◌, refl, Option, none, some, List, [], ◌∷◌, ◌++◌, append-nil,
  length, take-all, drop, All, arith, ◌==◌, if◌then◌else◌,
}
use printdrop.Bytes.{IsByte, write_out, write_out_twice}
use printdrop.Bytes.Store.{store_next}
use printdrop.Frame.{FrameHeader, FrameResult, encode_header, decode_header}
use printdrop.Frame.Codec.{
  header_bytes, IsSendable, encode_header-bytes, decode_header-header_bytes, decode_header_ok,
}
use printdrop.RelayMessage.{
  RelayMessageResult, RelayMessageView, relay_max_payload, relay_message_encode,
  relay_message_decode, view_of, no_header,
}

pub length-header_bytes : (h : FrameHeader) → length (header_bytes h) ≡ 12
unfolding header_bytes
length-header_bytes h = refl

-- A header and a payload that fit each other and the limit of one relay message.
pub record IsMessage (h : FrameHeader) (payload : List ℕ) : Type 0 where
  pub sendable : IsSendable h
  pub type_small : h.type < 2 ^ 8
  pub counted : h.payload_length ≡ length payload
  pub fits : length payload ≤ relay_max_payload

-- The payload pointer that a caller passes: NULL will do where there is nothing to point at.
pub data Points (payload : List ℕ) : Option (List ℕ) → Type 0 where
  nothing : payload ≡ [] → Points payload none
  at_bytes : Points payload (some payload)

header_written :
    (h : FrameHeader) (out : List ℕ) {payload : List ℕ}
    → IsMessage h payload
    → 12 ≤ length out
    → encode_header (some h) (some out) ≡ (FrameResult.ok, some (header_bytes h ++ drop 12 out))
header_written h out m room = encode_header-bytes h out room m.sendable

-- Where the capacity, which the buffer has, is enough for a message, the message is written as its
-- header and then its payload, the rest of the buffer is left alone, and the length is reported.
pub relay_message_encode_lem :
    (h : FrameHeader) (payload : List ℕ) (p : Option (List ℕ)) (out : List ℕ) (capacity : ℕ)
    (written : Option ℕ)
    → IsMessage h payload
    → Points payload p
    → 12 + length payload ≤ capacity
    → capacity ≤ length out
    → relay_message_encode (some h) p (length payload) (some out) capacity written ≡ (
      RelayMessageResult.ok,
      some ((header_bytes h ++ payload) ++ drop (12 + length payload) out),
      write_out written (12 + length payload),
    )
unfolding relay_message_encode
relay_message_encode_lem h [] p out capacity written m (nothing e) room cap = ground (
  arith,
  header_written h out m (omega arith),
  write_out_twice written 0 12,
  append-nil (header_bytes h),
)
relay_message_encode_lem h (x ∷ xs) p out capacity written m (nothing e) room cap = cc
relay_message_encode_lem h payload p out capacity written m at_bytes room cap = ground (
  arith,
  header_written h out m (omega arith),
  take-all payload,
  write_out_twice written 0 (12 + length payload),
  append-nil (header_bytes h),
  store_next (header_bytes h) payload out 12,
  length-header_bytes h,
)

drop-header_bytes : (h : FrameHeader) (rest : List ℕ) → drop 12 (header_bytes h ++ rest) ≡ rest
unfolding header_bytes
drop-header_bytes h rest = refl

-- The view of a message whose payload stands before `rest` in the buffer: an empty payload is NULL.
abbrev pub message_view : FrameHeader → List ℕ → List ℕ → RelayMessageView
message_view h payload rest = record {
  header = h;
  payload = if length payload == 0 then none else some (payload ++ rest);
  payload_size = length payload;
}

-- The decoder reads a message back as its header and its payload, whatever stands behind it in the
-- buffer.
pub relay_message_decode-bytes :
    (h : FrameHeader) (payload rest : List ℕ) (old : RelayMessageView)
    → IsMessage h payload
    → relay_message_decode
        (some (header_bytes h ++ (payload ++ rest)))
        (12 + length payload)
        (some old)
      ≡ (RelayMessageResult.ok, some (message_view h payload rest))
unfolding relay_message_decode
relay_message_decode-bytes h payload rest old m =
    rw (decode_header-header_bytes h no_header (payload ++ rest) m.type_small m.sendable)
      (ground (arith, drop-header_bytes h (payload ++ rest)))

-- What an accepted message is.
pub record IsViewOf (message : List ℕ) (size : ℕ) (v : RelayMessageView) : Type 0 where
  pub sendable : IsSendable v.header
  pub whole : v.payload_size + 12 ≡ size
  pub limited : size ≤ 60 * 1024
  pub counted : v.header.payload_length ≡ v.payload_size
  pub framed : message ≡ header_bytes v.header ++ drop 12 message
  pub points : v.payload ≡ (if v.payload_size == 0 then none else some (drop 12 message))

-- A view is made of a header that was decoded, and of the rest of the message.
view_of_ok :
    (message : List ℕ) (size : ℕ) (r : FrameResult × Option FrameHeader) (old : RelayMessageView)
    {v : RelayMessageView}
    → 12 ≤ size
    → view_of message size r old ≡ (RelayMessageResult.ok, some v)
    → (r ≡ (FrameResult.ok, some v.header))
      × (v.payload_size + 12 ≡ size)
      × (v.header.payload_length ≡ v.payload_size)
      × (v.payload ≡ (if v.payload_size == 0 then none else some (drop 12 message)))
unfolding view_of
view_of_ok message size (FrameResult.ok, some h) old room e = ground arith
view_of_ok message size (FrameResult.ok, none) old room e = cc
view_of_ok message size (_, h) old room e = cc

-- A message of bytes, at least as long as the size that it is given with, that the decoder accepts
-- begins with the bytes of a sendable header, whose length field is the number of the bytes that
-- follow up to the size, and has at most 60 KiB. The view points to those bytes, and to nothing
-- where there are none.
pub relay_message_decode_ok :
    (message : List ℕ) (size : ℕ) (old : RelayMessageView) {v : RelayMessageView}
    → size ≤ length message
    → All IsByte message
    → relay_message_decode (some message) size (some old) ≡ (RelayMessageResult.ok, some v)
    → IsViewOf message size v
unfolding relay_message_decode
relay_message_decode_ok message size old {v} room bytes e =
    let header = decode_header (some message) (some no_header) in
    let sizes : (12 ≤ size) × (size ≤ 60 * 1024) = ground arith in
    let viewed : view_of message size header old ≡ (RelayMessageResult.ok, some v) = ground arith in
    let (decoded, whole, counted, points) = view_of_ok message size header old sizes.0 viewed in
    let (sendable, _, framed) =
      decode_header_ok message no_header {h = v.header} (omega arith) bytes decoded in
    record {
      sendable = sendable;
      whole = whole;
      limited = sizes.1;
      counted = counted;
      framed = framed;
      points = points;
    }
