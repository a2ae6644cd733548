-- ===== src/FileBegin/Announcement.antt =====
-- What FILE_BEGIN says of a file, in the abstract, and its bytes on the wire.
use printdrop.Prelude.{ℕ, ◌-◌, ◌^◌, ◌≤◌, ◌<◌, ◌≡◌, refl, List, ◌∷◌, ◌++◌, length, replicate, All}
use printdrop.Bytes.{u16_be, u64_be}
use printdrop.Bytes.Text.{IsChar}
use printdrop.FileBegin.{FileBegin}

-- A file's announcement in the abstract: its size, its digest and its name.
pub record Announcement : Type 0 where
  pub size : ℕ
  pub digest : List ℕ
  pub name : List ℕ

pub record IsValid (a : Announcement) : Type 0 where
  pub size_fits : a.size < 2 ^ 64
  pub digest_length : length a.digest ≡ 32
  pub name_some : 1 ≤ length a.name
  pub name_fits : length a.name ≤ 120
  pub name_chars : All IsChar a.name

-- Its bytes on the wire.
unfoldable pub announcement_bytes : Announcement → List ℕ
unfolding u64_be u16_be
announcement_bytes a = u64_be a.size ++ (a.digest ++ (u16_be (length a.name) ++ a.name))

-- A struct holds an announcement if its name buffer is the name, a NUL, and anything.
pub record Holds (m : FileBegin) (a : Announcement) : Type 0 where
  pub size : m.file_size ≡ a.size
  pub digest : m.sha256 ≡ a.digest
  pub tail : List ℕ
  pub name : m.filename ≡ a.name ++ 0 ∷ tail
  pub capacity : length m.filename ≡ 121

-- The struct that the decoder fills: the rest of the name buffer is zero.
abbrev pub metadata_of : Announcement → FileBegin
metadata_of a = record {
  file_size = a.size;
  sha256 = a.digest;
  filename = a.name ++ replicate (121 - length a.name) 0;
}

pub length-u64_be : (n : ℕ) → length (u64_be n) ≡ 8
unfolding u64_be
length-u64_be n = refl

pub length-u16_be : (n : ℕ) → length (u16_be n) ≡ 2
unfolding u16_be
length-u16_be n = refl

pub announcement_parts :
    (a : Announcement)
    → announcement_bytes a ≡ u64_be a.size ++ (a.digest ++ (u16_be (length a.name) ++ a.name))
unfolding announcement_bytes
announcement_parts a = refl
