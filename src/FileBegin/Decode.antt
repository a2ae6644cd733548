-- ===== src/FileBegin/Decode.antt =====
-- The decoder on any payload: what it accepts is the bytes of a valid announcement.
use printdrop.Prelude.{
  ℕ, ◌+◌, ◌≤◌, ◌≡◌, sym, ap, ap₂, ◌∙◌, some, List, [], ◌∷◌, ◌++◌, append_assoc, length,
  length-append, length-take, All-drop, false, take-append_right, take-append-drop, length-drop,
  take, drop, replicate, All, arith,
}
use mathlib.Core.Path.{subst}
use printdrop.Bytes.{IsByte, store, u16_of, u64_of}
use printdrop.Bytes.Text.{memchr, memchr-zero_false}
use printdrop.Bytes.BigEndian.{u16_be-u16_of, u64_be-u64_of, u64_of-lt}
use printdrop.FileBegin.Wire.{wire, decoded, decode_wire, name_buffer, read_tail}
use printdrop.FileBegin.{FileBegin, FileBeginResult, file_begin_decode}
use printdrop.FileBegin.Announcement.{
  Announcement, IsValid, announcement_bytes, metadata_of, announcement_parts,
}

-- A struct that the decoder fills holds the announcement that its payload spells.
pub record Announces (payload : List ℕ) (size : ℕ) (m : FileBegin) (a : Announcement) : Type 0 where
  pub valid : IsValid a
  pub exact : size ≡ 42 + length a.name
  pub spelled : take size payload ≡ announcement_bytes a
  pub filled : m ≡ metadata_of a

abbrev AcceptsOnlyAnnouncements : List ℕ → Type 0
AcceptsOnlyAnnouncements payload =
    (size : ℕ) (old m : FileBegin)
    → size ≤ length payload
    → All IsByte payload
    → file_begin_decode (some payload) size (some old) ≡ (FileBeginResult.ok, some m)
    → (a : Announcement) × Announces payload size m a

module _ (a b c e f g h i x y : ℕ) (d z : List ℕ) (d_size : length d ≡ 32) where
  abbrev n : ℕ
  n = u16_of x y

  abbrev announced : Announcement
  announced = record { size = u64_of a b c e f g h i; digest = d; name = take n z }

  abbrev front : List ℕ
  front = a ∷ b ∷ c ∷ e ∷ f ∷ g ∷ h ∷ i ∷ (d ++ (x ∷ y ∷ []))

  wire-front : wire a b c e f g h i x y d z d_size ≡ front ++ z
  wire-front = rw append_assoc

  length-front : length front ≡ 42
  length-front = omega (arith, length-append d (x ∷ y ∷ []))

  -- The tests that an accepted payload has passed.
  record Passed (size : ℕ) (m : FileBegin) : Type 0 where
    exact : size ≡ 42 + n
    some_name : 1 ≤ n
    short : n ≤ 120
    no_nul : memchr z 0 n ≡ false
    filled : m ≡ decoded a b c e f g h i x y d z d_size

  passed :
      (size : ℕ) (old m : FileBegin)
      → file_begin_decode (some (wire a b c e f g h i x y d z d_size)) size (some old)
        ≡ (FileBeginResult.ok, some m)
      → Passed size m
  passed size old m ok = ground (arith, decode_wire a b c e f g h i x y d z d_size size old)

  spell :
      length (take n z) ≡ n
      → IsByte x
      → IsByte y
      → All IsByte (wire a b c e f g h i x y d z d_size)
      → front ++ take n z ≡ announcement_bytes announced
  spell len hx hy bytes = rw (
    announcement_parts announced,
    len,
    u16_be-u16_of x y hx hy,
    u64_be-u64_of a b c e f g h i (omega arith) (omega arith) (omega arith) (omega arith)
        (omega arith) (omega arith) (omega arith) (omega arith),
    append_assoc,
  )

  fill :
      length (take n z) ≡ n
      → n ≤ 120
      → decoded a b c e f g h i x y d z d_size ≡ metadata_of announced
  fill len short =
      ap (λ t. record { file_size = u64_of a b c e f g h i; sha256 = d; filename = t })
        (ap (λ k. store k (0 ∷ []) (store 0 (take n z) (replicate 121 0))) (sym len)
          ∙ name_buffer (take n z) (omega arith))

  accepts_wire : AcceptsOnlyAnnouncements (wire a b c e f g h i x y d z d_size)
  accepts_wire size old m room bytes ok =
      let p = passed size old m ok in
      let sizes : 42 + n ≤ 42 + length z =
        omega (arith, length-append front z, length-front, ap length wire-front, p.exact) in
      let len : length (take n z) ≡ n = omega (arith, length-take n z) in
      let tail =
        subst (All IsByte) (read_tail a b c e f g h i x y d z d_size)
          (All-drop IsByte 40 (wire a b c e f g h i x y d z d_size) bytes) in
      (
        announced,
        record {
          valid = record {
            size_fits =
                u64_of-lt a b c e f g h i (omega arith) (omega arith) (omega arith) (omega arith)
                  (omega arith) (omega arith) (omega arith) (omega arith);
            digest_length = d_size;
            name_some = omega (arith, p.some_name);
            name_fits = omega (arith, p.short);
            name_chars = memchr-zero_false z n tail.1.1 p.no_nul;
          };
          exact = omega (arith, p.exact);
          spelled =
              ap₂ take (p.exact ∙ ap (λ k. k + n) (sym length-front)) wire-front
              ∙ take-append_right front z n
              ∙ spell len tail.0 tail.1.0 bytes;
          filled = p.filled ∙ fill len p.short;
        },
      )

module _ (a b c e f g h i : ℕ) (d : List ℕ) (d_size : length d ≡ 32) where
  accepts_tail :
      (q : List ℕ)
      → 2 ≤ length q
      → AcceptsOnlyAnnouncements (a ∷ b ∷ c ∷ e ∷ f ∷ g ∷ h ∷ i ∷ (d ++ q))
  accepts_tail (x ∷ y ∷ z) two = accepts_wire a b c e f g h i x y d z d_size
  accepts_tail _ two = absurd (omega arith)

accepts : (payload : List ℕ) → 42 ≤ length payload → AcceptsOnlyAnnouncements payload
accepts (a ∷ b ∷ c ∷ e ∷ f ∷ g ∷ h ∷ i ∷ r) long =
    subst (λ r'. AcceptsOnlyAnnouncements (a ∷ b ∷ c ∷ e ∷ f ∷ g ∷ h ∷ i ∷ r'))
      (take-append-drop 32 r)
      (accepts_tail a b c e f g h i (take 32 r) (omega (arith, length-take 32 r)) (drop 32 r)
        (omega (arith, length-drop 32 r)))
accepts _ long = absurd (omega arith)

long_enough :
    (payload : List ℕ) (size : ℕ) (old : FileBegin) {m : FileBegin}
    → file_begin_decode (some payload) size (some old) ≡ (FileBeginResult.ok, some m)
    → 42 ≤ size
unfolding file_begin_decode
long_enough payload size old e = ground arith

-- A payload of bytes, at least as long as the size that it is given with, that the decoder accepts
-- is, up to that size, the bytes of a valid announcement, and the struct that it fills holds that
-- announcement.
pub file_begin_decode_ok :
    (payload : List ℕ) (size : ℕ) (old : FileBegin) {m : FileBegin}
    → size ≤ length payload
    → All IsByte payload
    → file_begin_decode (some payload) size (some old) ≡ (FileBeginResult.ok, some m)
    → (a : Announcement) × Announces payload size m a
file_begin_decode_ok payload size old {m} room bytes e =
    accepts payload (omega (arith, long_enough payload size old e)) size old m room bytes e
