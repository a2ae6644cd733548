-- ===== src/Integrity.antt =====
-- src/integrity.c and include/printdrop/integrity.h: SHA-256 digests, compared without a data
-- dependent branch and read and written as hexadecimal. The hash itself is a parameter: its
-- operations, on a world `W`, stand behind `pd_integrity_ops`.
pub mod Digest
pub mod HexText
use printdrop.Prelude.{
  ℕ, ◌+◌, ◌-◌, ◌*◌, ◌/◌, ◌%◌, ◌^◌, bit_and, bit_or, bit_xor, Bool, true, false, not, ◌&&◌, ◌||◌,
  Option, none, some, List, [], ◌∷◌, leb, ◌==◌, if◌then◌else◌, take,
}
use printdrop.Bytes.{store, at}
use printdrop.Bytes.Text.{strlen}
use printdrop.Hex.{digits, put_hex}
use printdrop.FileBegin.{sha256_bytes}

abbrev pub sha256_hex_chars : ℕ
sha256_hex_chars = sha256_bytes * 2

pub data IntegrityStatus : Type 0 where
  ok error : IntegrityStatus

-- `pd_integrity_ops`, with its context in the world.
pub record IntegrityOps (W : Type 0) : Type 0 where
  pub begin : W → IntegrityStatus × W
  pub update : List ℕ → ℕ → W → IntegrityStatus × W
  pub finish : W → IntegrityStatus × List ℕ × W
  pub abort : W → W

pub data DigestResult : Type 0 where
  ok invalid_argument invalid_hex : DigestResult

-- `pd_hex_value`: `none` is the source's -1, which its caller tests for by `< 0`.
unfoldable pub hex_value : ℕ → Option ℕ
hex_value character =
    if leb b'0' character && leb character b'9'
    then some (character - b'0')
    else if leb b'a' character && leb character b'f'
    then some (10 + (character - b'a'))
    else if leb b'A' character && leb character b'F'
    then some (10 + (character - b'A'))
    else none

-- The loop of `pd_digest_equal`, over what it has not reached.
unfoldable pub digest_difference : List ℕ → List ℕ → ℕ → ℕ
digest_difference (l ∷ left) (r ∷ right) difference =
    digest_difference left right (bit_or difference (bit_xor l r % 2 ^ 8) % 2 ^ 8)
digest_difference left right difference = difference

unfoldable pub digest_equal : Option (List ℕ) → Option (List ℕ) → Bool
digest_equal none right = false
digest_equal (some left) none = false
digest_equal (some left) (some right) =
    digest_difference (take sha256_bytes left) (take sha256_bytes right) 0 == 0

-- `(uint8_t)((high << 4) | low)`, unless one of the two is -1.
unfoldable pub hex_byte : Option ℕ → Option ℕ → Option ℕ
hex_byte none low = none
hex_byte (some high) none = none
hex_byte (some high) (some low) = some (bit_or (high * 2 ^ 4) low % 2 ^ 8)

-- The loop of `pd_sha256_from_hex`, over the characters that it has not reached. A bad character
-- ends it with the bytes before it already written.
unfoldable pub read_hex : List ℕ → ℕ → List ℕ → DigestResult × List ℕ
read_hex (h ∷ l ∷ hex) index digest = elim (hex_byte (hex_value h) (hex_value l)) [
  | none ↦ (DigestResult.invalid_hex, digest)
  | some byte ↦ read_hex hex (index + 1) (store index (byte ∷ []) digest)
]
read_hex _ index digest = (DigestResult.ok, digest)

unfoldable pub sha256_from_hex : Option (List ℕ) → Option (List ℕ) → DigestResult × Option (List ℕ)
sha256_from_hex none digest = (DigestResult.invalid_argument, digest)
sha256_from_hex (some hex) none = (DigestResult.invalid_argument, none)
sha256_from_hex (some hex) (some digest) =
    let (result, digest') = read_hex (take sha256_hex_chars hex) 0 digest in
    if not (strlen hex == sha256_hex_chars)
    then (DigestResult.invalid_hex, some digest)
    else (result, some digest')

unfoldable pub sha256_to_hex : Option (List ℕ) → Option (List ℕ) → Option (List ℕ)
sha256_to_hex none output = output
sha256_to_hex (some digest) none = none
sha256_to_hex (some digest) (some output) = some (
    store sha256_hex_chars (0 ∷ []) (
      put_hex (λ b. at digits (b / 16)) (λ b. at digits (bit_and b 0x0f)) (take sha256_bytes digest)
        0 output))
