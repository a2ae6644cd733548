-- ===== src/Integrity/HexText.antt =====
-- Digests as hexadecimal text: reading undoes writing, and reading accepts hexadecimal digits only.
use printdrop.Prelude.{
  ℕ, ◌+◌, ◌*◌, ◌/◌, ◌%◌, ◌≤◌, ◌≡◌, refl, sym, ap, ap₂, ◌∙◌, Bool, true, false, ◌==◌, Option, none,
  some, List, [], ◌∷◌, ◌++◌, append_assoc, append-nil, length, length-append, take, take-of_length,
  take-length-append, drop, drop-all, All, arith, bit_and,
}
use printdrop.Bytes.{IsByte, store, at}
use printdrop.Bytes.Store.{store_next}
use printdrop.Bytes.Text.{strlen, strlen-text}
use printdrop.Hex.{digits, put_hex}
use printdrop.Hex.Digits.{
  digit_char, hex_text, length-hex_text, put_hex_nul, low_nibble, hex_text-all_lower_hex,
  all_lower_hex-IsChar, holds, holds_below,
}
use printdrop.Integrity.{
  DigestResult, hex_value, hex_byte, read_hex, sha256_from_hex, sha256_to_hex,
}

-- Two digits read back, over all bytes.
abbrev reads_back : ℕ → Bool
reads_back b = elim (hex_byte (hex_value (digit_char (b / 16))) (hex_value (digit_char (b % 16)))) [
  | none ↦ false
  | some v ↦ v == b
]

reads_table : holds reads_back 256 ≡ true
unfolding holds hex_byte hex_value
reads_table = refl

hex_byte-digits :
    (b : ℕ)
    → IsByte b
    → hex_byte (hex_value (digit_char (b / 16))) (hex_value (digit_char (b % 16))) ≡ some b
hex_byte-digits b h = ground (arith, holds_below reads_back 256 reads_table b h)

read_hex-byte :
    (h l v : ℕ) (hex : List ℕ) (i : ℕ) (digest : List ℕ)
    → hex_byte (hex_value h) (hex_value l) ≡ some v
    → read_hex (h ∷ l ∷ hex) i digest ≡ read_hex hex (i + 1) (store i (v ∷ []) digest)
unfolding read_hex
read_hex-byte h l v hex i digest e =
    ap
      (λ (o : Option ℕ). elim o [
        | none ↦ (DigestResult.invalid_hex, digest)
        | some byte ↦ read_hex hex (i + 1) (store i (byte ∷ []) digest)
      ])
      e

read_hex-hex_text :
    (bytes pre digest : List ℕ) (i : ℕ)
    → All IsByte bytes
    → length pre ≡ i
    → i + length bytes ≤ length digest
    → read_hex (hex_text bytes) i (pre ++ drop i digest)
      ≡ (DigestResult.ok, (pre ++ bytes) ++ drop (i + length bytes) digest)
unfolding hex_text read_hex
read_hex-hex_text [] pre digest i h e room =
    ap (λ d. (DigestResult.ok, d))
      (ap₂ (λ (p : List ℕ) n. p ++ drop n digest) (sym (append-nil pre))
        (let q : i ≡ i + 0 = omega arith in q))
read_hex-hex_text (b ∷ bytes) pre digest i h e room =
    read_hex-byte (digit_char (b / 16)) (digit_char (b % 16)) b (hex_text bytes) i
      (pre ++ drop i digest) (hex_byte-digits b h.0)
    ∙ ap (λ d. read_hex (hex_text bytes) (i + 1) d)
        (store_next pre (b ∷ []) digest i (sym e) (omega arith))
    ∙ read_hex-hex_text bytes (pre ++ b ∷ []) digest (i + 1) h.1
        (ground (arith, length-append pre (b ∷ []))) (omega arith)
    ∙ ap (λ d. (DigestResult.ok, d))
        (ap₂ (λ (p : List ℕ) n. p ++ drop n digest) (append_assoc pre (b ∷ []) bytes)
          (let q : i + 1 + length bytes ≡ i + length (b ∷ bytes) = omega arith in q))

-- Writing a digest and reading it back gives the digest.
pub sha256_to_hex-hex_text :
    (digest out : List ℕ)
    → All IsByte digest
    → length digest ≡ 32
    → 65 ≤ length out
    → sha256_to_hex (some digest) (some out) ≡ some (hex_text digest ++ 0 ∷ drop 65 out)
unfolding sha256_to_hex
sha256_to_hex-hex_text digest out h n room =
    let t : take 32 digest ≡ digest = take-of_length 32 digest n in
    ap
      (λ d. some (
        store 64 (0 ∷ [])
          (put_hex (λ b. at digits (b / 16)) (λ b. at digits (bit_and b 0x0f)) d 0 out)))
      t
    ∙ ap
        (λ k. some (
          store k (0 ∷ [])
            (put_hex (λ b. at digits (b / 16)) (λ b. at digits (bit_and b 0x0f)) digest 0 out)))
        {x = 64} {y = length digest * 2} (omega arith)
    ∙ ap some (
        put_hex_nul (λ b. at digits (b / 16)) (λ b. at digits (bit_and b 0x0f)) (λ b hb. refl)
          (λ b hb. ap digit_char (low_nibble b hb)) digest out h (omega arith))
    ∙ ap (λ k. some (hex_text digest ++ 0 ∷ drop k out)) {x = length digest * 2 + 1} {y = 65}
        (omega arith)

sha256_from_hex_text :
    (hex back digest : List ℕ)
    → strlen hex ≡ 64
    → read_hex (take 64 hex) 0 back ≡ (DigestResult.ok, digest)
    → sha256_from_hex (some hex) (some back) ≡ (DigestResult.ok, some digest)
unfolding sha256_from_hex
sha256_from_hex_text hex back digest e r = rw (e, r) refl

-- Where a digest of 32 bytes is written as text into a buffer of 65 bytes or more, reading that
-- buffer back succeeds and gives the digest, whatever the 32 bytes were that it is read into.
pub sha256_from_hex-to_hex :
    (digest out back : List ℕ)
    → All IsByte digest
    → length digest ≡ 32
    → 65 ≤ length out
    → length back ≡ 32
    → sha256_from_hex (sha256_to_hex (some digest) (some out)) (some back)
      ≡ (DigestResult.ok, some digest)
unfolding sha256_from_hex
sha256_from_hex-to_hex digest out back h n room m =
    let text = hex_text digest in
    let long : length text ≡ 64 = omega (arith, length-hex_text digest) in
    ap (λ t. sha256_from_hex t (some back)) (sha256_to_hex-hex_text digest out h n room)
    ∙ sha256_from_hex_text (text ++ 0 ∷ drop 65 out) back digest
        (strlen-text text (drop 65 out)
            (all_lower_hex-IsChar text (hex_text-all_lower_hex digest h))
          ∙ long)
        (ap (λ t. read_hex t 0 back)
            (ap (λ k. take k (text ++ 0 ∷ drop 65 out)) (sym long)
              ∙ take-length-append text (0 ∷ drop 65 out))
          ∙ read_hex-hex_text digest [] back 0 h refl (omega arith)
          ∙ ap (λ d. (DigestResult.ok, d))
              (ap (◌++◌ digest) (drop-all (0 + length digest) back (omega arith))
                ∙ append-nil digest))
