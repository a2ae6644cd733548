-- ===== src/Frame/Codec.antt =====
-- The frame header on the wire: encoding and decoding are inverse, and each refuses what the other
-- would not produce.
use printdrop.Prelude.{
  ℕ, ◌^◌, ◌≤◌, ◌<◌, ◌≡◌, refl, ◌↔◌, ap, ◌≢◌, some, List, [], ◌∷◌, ◌++◌, length, take, drop, All,
  arith,
}
use printdrop.Bytes.{IsByte, u16_be, u32_be}
use printdrop.Bytes.Store.{store-zero, store_next}
use printdrop.Bytes.BigEndian.{u32_of-byte_at, u16_of-byte_at, u16_be-u16_of, u32_be-u32_of}
use printdrop.Protocol.{to_u8, protocol_version, message_type_is_valid}
use printdrop.Frame.{
  FrameHeader, FrameResult, magic, put_header, encode_header, decode_header, frame_max_payload,
}

-- The twelve bytes of a header.
unfoldable pub header_bytes : FrameHeader → List ℕ
unfolding u16_be u32_be
header_bytes h =
    magic ++ (protocol_version ∷ to_u8 h.type ∷ (u16_be h.flags ++ u32_be h.payload_length))

-- The writes of the encoder leave those bytes, and what stood behind them.
pub put_header-bytes :
    (h : FrameHeader) (out : List ℕ)
    → 12 ≤ length out
    → put_header h out ≡ header_bytes h ++ drop 12 out
unfolding put_header header_bytes
put_header-bytes h out room = rw (
  store-zero magic out (omega arith),
  store_next magic (protocol_version ∷ []) out 4 refl (omega arith),
  store_next (magic ++ protocol_version ∷ []) (to_u8 h.type ∷ []) out 5 refl (omega arith),
  store_next (take 6 (header_bytes h)) (u16_be h.flags) out 6 refl (omega arith),
  store_next (take 8 (header_bytes h)) (u32_be h.payload_length) out 8 refl (omega arith),
)

-- What the encoder sends: a message type (its low byte, which is all that the code looks at), no
-- flags, and a payload within the limit.
pub record IsSendable (h : FrameHeader) : Type 0 where
  pub type_low : 1 ≤ to_u8 h.type
  pub type_high : to_u8 h.type ≤ 7
  pub no_flags : h.flags ≡ 0
  pub fits : h.payload_length ≤ frame_max_payload

-- `pd_frame_encode_header` succeeds exactly on sendable headers.
pub encode_header_ok :
    (h : FrameHeader) (out : List ℕ)
    → ((encode_header (some h) (some out)).0 ≡ FrameResult.ok) ↔ IsSendable h
unfolding encode_header message_type_is_valid
encode_header_ok h out = (λ e. ground arith, λ s. ground arith)

-- On success the first twelve bytes of the output are the header's, and the rest is as before.
pub encode_header-bytes :
    (h : FrameHeader) (out : List ℕ)
    → 12 ≤ length out
    → IsSendable h
    → encode_header (some h) (some out) ≡ (FrameResult.ok, some (header_bytes h ++ drop 12 out))
unfolding encode_header message_type_is_valid
encode_header-bytes h out room s = ground (arith, put_header-bytes h out room)

-- A refused header leaves the output alone.
pub encode_header_refused :
    (h : FrameHeader) (out : List ℕ)
    → (encode_header (some h) (some out)).0 ≢ FrameResult.ok
    → (encode_header (some h) (some out)).1 ≡ some out
unfolding encode_header message_type_is_valid
encode_header_refused h out failed = ground arith

-- Decoding the bytes of a sendable header gives the header back, whatever follows them.
pub decode_header-header_bytes :
    (h old : FrameHeader) (rest : List ℕ)
    → h.type < 2 ^ 8
    → IsSendable h
    → decode_header (some (header_bytes h ++ rest)) (some old) ≡ (FrameResult.ok, some h)
unfolding decode_header message_type_is_valid header_bytes
decode_header-header_bytes h old rest small s =
    ground
      (arith, u16_of-byte_at h.flags (omega arith), u32_of-byte_at h.payload_length (omega arith))

-- Where a header's type is a byte and the output buffer has at least 12 bytes, a header that was
-- encoded is decoded to itself, whatever the buffer and the struct to fill held before.
pub decode_header-encode_header :
    (h old : FrameHeader) (out buffer : List ℕ)
    → h.type < 2 ^ 8
    → 12 ≤ length out
    → encode_header (some h) (some out) ≡ (FrameResult.ok, some buffer)
    → decode_header (some buffer) (some old) ≡ (FrameResult.ok, some h)
decode_header-encode_header h old out buffer small room e =
    let s = (encode_header_ok h out).0 (ap (λ r. r.0) e) in
    let same : buffer ≡ header_bytes h ++ drop 12 out = cc (e, encode_header-bytes h out room s) in
    rw same (decode_header-header_bytes h old (drop 12 out) small s)

-- A buffer of at least 12 bytes that the decoder accepts begins with the bytes of the header that
-- it returns, and that header is sendable with a type that is a byte.
pub decode_header_ok :
    (input : List ℕ) (old : FrameHeader) {h : FrameHeader}
    → 12 ≤ length input
    → All IsByte input
    → decode_header (some input) (some old) ≡ (FrameResult.ok, some h)
    → IsSendable h × (h.type < 2 ^ 8) × (input ≡ header_bytes h ++ drop 12 input)
unfolding decode_header message_type_is_valid header_bytes
decode_header_ok (a ∷ b ∷ c ∷ d ∷ v ∷ t ∷ f ∷ g ∷ i ∷ j ∷ k ∷ l ∷ rest) old {h} room bytes e =
    ground (
      arith,
      u16_be-u16_of f g (omega arith) (omega arith),
      u32_be-u32_of i j k l (omega arith) (omega arith) (omega arith) (omega arith),
    )
decode_header_ok _ old room bytes e = absurd (omega arith)
