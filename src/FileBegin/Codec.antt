-- ===== src/FileBegin/Codec.antt =====
-- FILE_BEGIN on the wire: the encoder writes an announcement's bytes, and the decoder reads them.
use printdrop.Prelude.{
  ℕ, ◌+◌, ◌%◌, ◌^◌, ◌≤◌, ◌≡◌, ◌∙◌, Option, some, List, ◌∷◌, ◌++◌, append_assoc, length, drop,
  take-length-append, take-of_length, arith,
}
use printdrop.Bytes.{u16_be, u64_be, byte_at, write_out, write_out_twice}
use printdrop.Bytes.Text.{strlen, strlen-text, memchr-text}
use printdrop.Bytes.BigEndian.{u16_of-byte_at, u64_of-byte_at}
use printdrop.FileBegin.Wire.{four_writes, decode_wire, name_buffer}
use printdrop.FileBegin.{
  FileBegin, FileBeginResult, put_metadata, file_begin_encode, file_begin_decode,
}
use printdrop.FileBegin.Announcement.{
  Announcement, IsValid, announcement_bytes, Holds, metadata_of, length-u64_be, length-u16_be,
  announcement_parts,
}

put_metadata-bytes :
    (m : FileBegin) (a : Announcement) (out : List ℕ)
    → IsValid a
    → Holds m a
    → 42 + length a.name ≤ length out
    → put_metadata m (length a.name) out ≡ announcement_bytes a ++ drop (42 + length a.name) out
unfolding put_metadata
put_metadata-bytes m a out v h room =
    let small : length a.name % 2 ^ 16 ≡ length a.name = omega arith in
    rw
      (
        h.size,
        h.digest,
        h.name,
        take-length-append a.name (0 ∷ h.tail),
        take-of_length 32 a.digest v.digest_length,
        small,
        announcement_parts a,
      )
      (four_writes (u64_be a.size) a.digest (u16_be (length a.name)) a.name out
        (length-u64_be a.size) v.digest_length (length-u16_be (length a.name)) room)

-- Where a struct holds a valid announcement and the capacity, which the buffer has, is enough,
-- encoding writes the announcement's bytes, leaves the rest of the buffer alone, and reports the
-- length.
pub file_begin_encode_lem :
    (m : FileBegin) (a : Announcement) (out : List ℕ) (capacity : ℕ) (written : Option ℕ)
    → IsValid a
    → Holds m a
    → 42 + length a.name ≤ capacity
    → capacity ≤ length out
    → file_begin_encode (some m) (some out) capacity written ≡ (
      FileBeginResult.ok,
      some (announcement_bytes a ++ drop (42 + length a.name) out),
      write_out written (42 + length a.name),
    )
unfolding file_begin_encode
file_begin_encode_lem m a out capacity written v h room cap =
    let len : strlen m.filename ≡ length a.name =
      rw h.name (strlen-text a.name h.tail v.name_chars) in
    ground (
      arith,
      len,
      put_metadata-bytes m a out v h (omega arith),
      write_out_twice written 0 (42 + length a.name),
    )

-- Decoding the bytes of a valid announcement, whatever follows them, gives a struct with its size,
-- its digest and its name, and zeros behind the name.
pub file_begin_decode-bytes :
    (a : Announcement) (rest : List ℕ) (old : FileBegin)
    → IsValid a
    → file_begin_decode (some (announcement_bytes a ++ rest)) (42 + length a.name) (some old)
      ≡ (FileBeginResult.ok, some (metadata_of a))
unfolding announcement_bytes
file_begin_decode-bytes a rest old v =
    let n = length a.name in
    let z = a.name ++ rest in
    let s = λ (k : ℕ). byte_at a.size k in
    let e =
      decode_wire (s 56) (s 48) (s 40) (s 32) (s 24) (s 16) (s 8) (s 0) (byte_at n 8) (byte_at n 0)
        a.digest z v.digest_length (42 + n) old in
    rw (append_assoc, append_assoc)
      (e
        ∙ ground (
          arith,
          u16_of-byte_at n (omega arith),
          u64_of-byte_at a.size v.size_fits,
          memchr-text a.name rest v.name_chars,
          take-length-append a.name rest,
          name_buffer a.name v.name_fits,
        ))
