-- ===== src/Frame.antt =====
-- src/frame.c and include/printdrop/frame.h: the twelve-byte header in front of every message.
-- A pointer argument that the code compares with NULL is an `Option`. An output argument is passed
-- with its content before the call, and returned with its content after it.
pub mod Codec
use printdrop.Prelude.{
  ℕ, ◌*◌, Bool, not, ◌&&◌, ◌||◌, Option, none, some, List, [], ◌∷◌, ltb, ◌==◌, if◌then◌else◌,
}
use printdrop.Bytes.{store, at, u16_be, u32_be, read_u16_be, read_u32_be}
use printdrop.Protocol.{protocol_version, to_u8, message_type_is_valid}

abbrev pub frame_header_size : ℕ
frame_header_size = 12

abbrev pub frame_max_payload : ℕ
frame_max_payload = 1024 * 1024

pub data FrameResult : Type 0 where
  ok invalid_argument bad_magic unsupported_version : FrameResult
  invalid_type unsupported_flags payload_too_large : FrameResult

pub record FrameHeader : Type 0 where
  pub type : ℕ
  pub flags : ℕ
  pub payload_length : ℕ

-- `PD_MAGIC_0` to `PD_MAGIC_3`: "PDRP".
abbrev pub magic : List ℕ
magic = 0x50 ∷ 0x44 ∷ 0x52 ∷ 0x50 ∷ []

-- The writes of `pd_frame_encode_header`, in its order.
unfoldable pub put_header : FrameHeader → List ℕ → List ℕ
put_header header output = store 8 (u32_be header.payload_length) (
    store 6 (u16_be header.flags)
      (store 5 (to_u8 header.type ∷ []) (store 4 (protocol_version ∷ []) (store 0 magic output))))

unfoldable pub encode_header : Option FrameHeader → Option (List ℕ) → FrameResult × Option (List ℕ)
encode_header none output = (FrameResult.invalid_argument, output)
encode_header (some header) none = (FrameResult.invalid_argument, none)
encode_header (some header) (some output) =
    if not (message_type_is_valid (to_u8 header.type))
    then (FrameResult.invalid_type, some output)
    else if not (header.flags == 0)
    then (FrameResult.unsupported_flags, some output)
    else if ltb frame_max_payload header.payload_length
    then (FrameResult.payload_too_large, some output)
    else (FrameResult.ok, some (put_header header output))

abbrev pub has_magic : List ℕ → Bool
has_magic input =
    at input 0 == 0x50 && at input 1 == 0x44 && at input 2 == 0x52 && at input 3 == 0x50

unfoldable pub decode_header :
    Option (List ℕ) → Option FrameHeader → FrameResult × Option FrameHeader
decode_header none header = (FrameResult.invalid_argument, header)
decode_header (some input) none = (FrameResult.invalid_argument, none)
decode_header (some input) (some header) =
    let type = at input 5 in
    let flags = read_u16_be input 6 in
    let payload_length = read_u32_be input 8 in
    if not (has_magic input)
    then (FrameResult.bad_magic, some header)
    else if not (at input 4 == protocol_version)
    then (FrameResult.unsupported_version, some header)
    else if not (message_type_is_valid type)
    then (FrameResult.invalid_type, some header)
    else if not (flags == 0)
    then (FrameResult.unsupported_flags, some header)
    else if ltb frame_max_payload payload_length
    then (FrameResult.payload_too_large, some header)
    else (
      FrameResult.ok,
      some (record { type = type; flags = flags; payload_length = payload_length }),
    )
