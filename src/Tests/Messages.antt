-- ===== src/Tests/Messages.antt =====
-- The codecs and the sanitizer at concrete inputs.
use printdrop.Prelude.{
  ℕ, ◌+◌, ◌^◌, ◌≤◌, ◌<◌, ◌≡◌, refl, none, some, List, [], ◌∷◌, ◌++◌, length, drop, replicate, All,
  arith,
}
use printdrop.Bytes.{IsByte, store, u16_be, u32_be, u64_be, u16_of, u32_of}
use printdrop.Bytes.Text.{codes, strlen}
use printdrop.Protocol.{message_type_is_valid}
use printdrop.Frame.{FrameHeader, FrameResult, encode_header, put_header, decode_header}
use printdrop.Frame.Codec.{IsSendable, header_bytes, decode_header-encode_header, decode_header_ok}
use printdrop.Ack.{
  Ack, AckResult, ack_encode, put_ack, ack_decode, ack_type_is_allowed, ack_status_is_valid,
}
use printdrop.Ack.Codec.{ack_bytes, ack_decode-ack_encode, ack_decode_ok}
use printdrop.FileBegin.{FileBegin, FileBeginResult, file_begin_encode, file_begin_decode}
use printdrop.FileBegin.Announcement.{Announcement, IsValid, announcement_bytes, Holds, metadata_of}
use printdrop.FileBegin.Codec.{file_begin_encode_lem, file_begin_decode-bytes}
use printdrop.FileBegin.Decode.{Announces, file_begin_decode_ok}
use printdrop.Filename.{
  FilenameResult, filename_sanitize, ascii_is_control, is_windows_forbidden,
  is_windows_reserved_device_name, ascii_equal_prefix, base_length, with_fallback, trimmed,
  trim_length, replace_byte, equal_upper, ascii_upper,
}
use printdrop.Filename.Device.{not_reserved-IsNoDevice}
use printdrop.Filename.Safe.{IsSafe}
use printdrop.Filename.Sanitize.{filename_sanitize_ok}
use printdrop.Filename.Repeat.{filename_sanitize-IsSafe}
use printdrop.RelayMessage.{
  RelayMessageResult, RelayMessageView, relay_message_encode, relay_message_decode,
}
use printdrop.RelayMessage.Codec.{
  IsMessage, at_bytes, message_view, relay_message_encode_lem, relay_message_decode-bytes, IsViewOf,
  relay_message_decode_ok,
}

abbrev chunk_header : FrameHeader
chunk_header = record { type = 4; flags = 0; payload_length = 2 }

abbrev chunk_bytes : List ℕ
chunk_bytes = 80 ∷ 68 ∷ 82 ∷ 80 ∷ 1 ∷ 4 ∷ 0 ∷ 0 ∷ 0 ∷ 0 ∷ 0 ∷ 2 ∷ []

chunk_encoded :
    encode_header (some chunk_header) (some (replicate 12 9)) ≡ (FrameResult.ok, some chunk_bytes)
unfolding encode_header put_header store message_type_is_valid u16_be u32_be
chunk_encoded = refl

abbrev old_header : FrameHeader
old_header = record { type = 1; flags = 9; payload_length = 9 }

chunk_decoded :
    decode_header (some chunk_bytes) (some old_header) ≡ (FrameResult.ok, some chunk_header)
unfolding decode_header message_type_is_valid u16_of u32_of
chunk_decoded = refl

decode_header-encode_header_example :
    decode_header (some chunk_bytes) (some old_header) ≡ (FrameResult.ok, some chunk_header)
decode_header-encode_header_example =
    decode_header-encode_header chunk_header old_header (replicate 12 9) chunk_bytes (omega arith)
      (omega arith) chunk_encoded

chunk_bytes-IsByte : All IsByte chunk_bytes
chunk_bytes-IsByte = ground arith

decode_header_ok_example :
    IsSendable chunk_header × (4 < 2 ^ 8) × (chunk_bytes ≡ header_bytes chunk_header ++ [])
decode_header_ok_example =
    decode_header_ok chunk_bytes old_header {h = chunk_header} (omega arith) chunk_bytes-IsByte
      chunk_decoded

abbrev end_ack : Ack
end_ack = record { acknowledged_type = 5; status = 0; received_bytes = 2 }

abbrev other_ack : Ack
other_ack = record { acknowledged_type = 3; status = 4; received_bytes = 0 }

abbrev end_ack_bytes : List ℕ
end_ack_bytes = 5 ∷ 0 ∷ 0 ∷ 0 ∷ 0 ∷ 0 ∷ 0 ∷ 0 ∷ 0 ∷ 0 ∷ 0 ∷ 2 ∷ []

end_ack_encoded :
    ack_encode (some end_ack) (some (replicate 12 9)) ≡ (AckResult.ok, some end_ack_bytes)
unfolding ack_encode put_ack store u64_be
end_ack_encoded = refl

end_ack_decoded : ack_decode (some end_ack_bytes) 12 (some other_ack) ≡ (AckResult.ok, some end_ack)
end_ack_decoded =
    ack_decode-ack_encode end_ack other_ack (replicate 12 9) end_ack_bytes (omega arith)
      (omega arith) (omega arith) end_ack_encoded

ack_decode-ack_encode_example :
    ack_decode (some end_ack_bytes) 12 (some other_ack) ≡ (AckResult.ok, some end_ack)
ack_decode-ack_encode_example =
    ack_decode-ack_encode end_ack other_ack (replicate 12 9) end_ack_bytes (omega arith)
      (omega arith) (omega arith) end_ack_encoded

end_ack_bytes-IsByte : All IsByte end_ack_bytes
end_ack_bytes-IsByte = ground arith

ack_decode_ok_example : printdrop.Ack.Codec.IsSendable end_ack × (end_ack_bytes ≡ ack_bytes end_ack)
ack_decode_ok_example =
    ack_decode_ok end_ack_bytes 12 other_ack {a = end_ack} refl end_ack_bytes-IsByte end_ack_decoded

abbrev picture : Announcement
picture = record { size = 2; digest = replicate 32 2; name = codes "a.png" }

picture-IsValid : IsValid picture
picture-IsValid = record {
  size_fits = omega arith;
  digest_length = refl;
  name_some = omega arith;
  name_fits = omega arith;
  name_chars = ground arith;
}

picture_held : Holds (metadata_of picture) picture
picture_held = record {
  size = refl;
  digest = refl;
  tail = replicate 115 0;
  name = refl;
  capacity = refl;
}

file_begin_encode_lem_example :
    file_begin_encode (some (metadata_of picture)) (some (replicate 48 9)) 47 (some 0)
    ≡ (FileBeginResult.ok, some (announcement_bytes picture ++ 9 ∷ []), some 47)
file_begin_encode_lem_example =
    file_begin_encode_lem (metadata_of picture) picture (replicate 48 9) 47 (some 0) picture-IsValid
      picture_held (omega arith) (omega arith)

abbrev no_metadata : FileBegin
no_metadata = record { file_size = 0; sha256 = []; filename = [] }

picture_decoded :
    file_begin_decode (some (announcement_bytes picture ++ [])) 47 (some no_metadata)
    ≡ (FileBeginResult.ok, some (metadata_of picture))
picture_decoded = file_begin_decode-bytes picture [] no_metadata picture-IsValid

file_begin_decode-bytes_example :
    file_begin_decode (some (announcement_bytes picture ++ [])) 47 (some no_metadata)
    ≡ (FileBeginResult.ok, some (metadata_of picture))
file_begin_decode-bytes_example = file_begin_decode-bytes picture [] no_metadata picture-IsValid

picture_bytes-IsByte : All IsByte (announcement_bytes picture ++ [])
unfolding announcement_bytes u64_be u16_be
picture_bytes-IsByte = ground arith

picture_bytes_size : 47 ≤ length (announcement_bytes picture ++ [])
unfolding announcement_bytes u64_be u16_be
picture_bytes_size = omega arith

file_begin_decode_ok_example :
    (a : Announcement) × Announces (announcement_bytes picture ++ []) 47 (metadata_of picture) a
file_begin_decode_ok_example =
    file_begin_decode_ok (announcement_bytes picture ++ []) 47 no_metadata {m = metadata_of picture}
      picture_bytes_size picture_bytes-IsByte picture_decoded

-- "a:b. " as a C string.
abbrev bad_name : List ℕ
bad_name = codes "a:b. " ++ 0 ∷ []

abbrev good_name : List ℕ
good_name = codes "a_b"

bad_name-IsByte : All (λ b. b < 256) bad_name
bad_name-IsByte = ground arith

bad_name_ok :
    (filename_sanitize (some bad_name) (some (replicate 8 9)) 8 none).0 ≡ FilenameResult.ok
unfolding filename_sanitize strlen is_windows_reserved_device_name ascii_is_control
    is_windows_forbidden ascii_equal_prefix base_length with_fallback trimmed trim_length
    replace_byte equal_upper ascii_upper
bad_name_ok = refl

filename_sanitize_ok_example :
    (name : List ℕ) × IsSafe name
    × (length name ≤ 120)
    × ((filename_sanitize (some bad_name) (some (replicate 8 9)) 8 none).1
        ≡ some (name ++ 0 ∷ drop (length name + 1) (replicate 8 9)))
filename_sanitize_ok_example =
    filename_sanitize_ok bad_name (replicate 8 9) 8 none bad_name-IsByte (omega arith) bad_name_ok

good_name-IsSafe : IsSafe good_name
unfolding is_windows_reserved_device_name ascii_equal_prefix base_length equal_upper ascii_upper
good_name-IsSafe = record {
  clean = ground arith;
  ends_well = ground arith;
  no_device = not_reserved-IsNoDevice good_name refl;
}

filename_sanitize-IsSafe_example :
    filename_sanitize (some (good_name ++ 0 ∷ [])) (some (replicate 8 9)) 8 none
    ≡ (FilenameResult.ok, some (good_name ++ 0 ∷ replicate 4 9), none)
filename_sanitize-IsSafe_example =
    filename_sanitize-IsSafe good_name [] (replicate 8 9) 8 none good_name-IsSafe (omega arith)
      (omega arith) (omega arith)

abbrev two_bytes : List ℕ
two_bytes = 7 ∷ 8 ∷ []

two_bytes-IsMessage : IsMessage chunk_header two_bytes
two_bytes-IsMessage = record {
  sendable = record {
    type_low = omega arith;
    type_high = omega arith;
    no_flags = refl;
    fits = omega arith;
  };
  type_small = omega arith;
  counted = refl;
  fits = omega arith;
}

relay_message_encode_lem_example :
    relay_message_encode (some chunk_header) (some two_bytes) 2 (some (replicate 15 9)) 14 none
    ≡ (RelayMessageResult.ok, some ((header_bytes chunk_header ++ two_bytes) ++ 9 ∷ []), none)
relay_message_encode_lem_example =
    relay_message_encode_lem chunk_header two_bytes (some two_bytes) (replicate 15 9) 14 none
      two_bytes-IsMessage at_bytes (omega arith) (omega arith)

abbrev old_view : RelayMessageView
old_view = record { header = old_header; payload = none; payload_size = 9 }

abbrev two_message : List ℕ
two_message = header_bytes chunk_header ++ (two_bytes ++ [])

two_message_decoded :
    relay_message_decode (some two_message) 14 (some old_view)
    ≡ (RelayMessageResult.ok, some (message_view chunk_header two_bytes []))
two_message_decoded =
    relay_message_decode-bytes chunk_header two_bytes [] old_view two_bytes-IsMessage

relay_message_decode-bytes_example :
    relay_message_decode (some two_message) 14 (some old_view)
    ≡ (RelayMessageResult.ok, some (message_view chunk_header two_bytes []))
relay_message_decode-bytes_example =
    relay_message_decode-bytes chunk_header two_bytes [] old_view two_bytes-IsMessage

two_message-IsByte : All IsByte two_message
unfolding header_bytes u16_be u32_be
two_message-IsByte = ground arith

two_message_size : 14 ≤ length two_message
unfolding header_bytes u16_be u32_be
two_message_size = omega arith

relay_message_decode_ok_example : IsViewOf two_message 14 (message_view chunk_header two_bytes [])
relay_message_decode_ok_example =
    relay_message_decode_ok two_message 14 old_view {v = message_view chunk_header two_bytes []}
      two_message_size two_message-IsByte two_message_decoded
