-- ===== src/Bytes/BigEndian.antt =====
-- What the big-endian readers and writers do, in plain arithmetic, and that each undoes the other.
use printdrop.Prelude.{ℕ, ◌+◌, ◌*◌, ◌^◌, ◌<◌, ◌≡◌, refl, sym, ap, ◌∙◌, bit_or, arith, [], ◌∷◌}
use printdrop.Prelude.Bits.{bit_or-shifted}
use native.Mathlib.Nat.{one-le-pow}
use printdrop.Bytes.{IsByte, byte_at, u16_of, u32_of, u64_of, u16_be, u32_be, u64_be}

u16_of_sum : (a b : ℕ) → IsByte a → IsByte b → u16_of a b ≡ a * 2 ^ 8 + b
unfolding u16_of
u16_of_sum a b ha hb = rw (bit_or-shifted 8 a b hb) (omega arith)

-- One `|` of a big-endian reader: the next byte goes below what was read.
or_byte :
    (j s b p q : ℕ)
    → p ≡ 2 ^ j
    → p ≡ 256 * q
    → IsByte b
    → bit_or (s * p) (b * q) ≡ (s * 256 + b) * q
or_byte j s b p q e f h =
    let fits : b * q < 2 ^ j = grind (arith, one-le-pow j 2) in
    rw e (bit_or-shifted j s (b * q) fits ∙ omega (arith, ap (λ (t : ℕ). s * t) (sym e ∙ f)))

or_last : (s b : ℕ) → IsByte b → bit_or (s * 2 ^ 8) b ≡ s * 256 + b
or_last s b h = bit_or-shifted 8 s b h

u32_of_sum :
    (a b c d : ℕ)
    → IsByte a
    → IsByte b
    → IsByte c
    → IsByte d
    → u32_of a b c d ≡ ((a * 256 + b) * 256 + c) * 256 + d
unfolding u32_of
u32_of_sum a b c d ha hb hc hd =
    rw
      (
        or_byte 24 a b (2 ^ 24) (2 ^ 16) refl refl hb,
        or_byte 16 (a * 256 + b) c (2 ^ 16) (2 ^ 8) refl refl hc,
      )
      (or_last _ d hd)

module _ (a b c d e f g h : ℕ) (ha : IsByte a) (hb : IsByte b) (hc : IsByte c) (hd : IsByte d)
    (he : IsByte e) (hf : IsByte f) (hg : IsByte g) (hh : IsByte h) where
  abbrev high : ℕ
  high = ((a * 256 + b) * 256 + c) * 256 + d

  u64_of_sum : u64_of a b c d e f g h ≡ (((high * 256 + e) * 256 + f) * 256 + g) * 256 + h
  unfolding u64_of
  u64_of_sum =
      rw
        (
          or_byte 56 a b (2 ^ 56) (2 ^ 48) refl refl hb,
          or_byte 48 (a * 256 + b) c (2 ^ 48) (2 ^ 40) refl refl hc,
          or_byte 40 ((a * 256 + b) * 256 + c) d (2 ^ 40) (2 ^ 32) refl refl hd,
          or_byte 32 high e (2 ^ 32) (2 ^ 24) refl refl he,
          or_byte 24 (high * 256 + e) f (2 ^ 24) (2 ^ 16) refl refl hf,
          or_byte 16 ((high * 256 + e) * 256 + f) g (2 ^ 16) (2 ^ 8) refl refl hg,
        )
        (or_last _ h hh)

  -- The writer undoes the reader, on eight bytes.
  pub u64_be-u64_of : u64_be (u64_of a b c d e f g h) ≡ a ∷ b ∷ c ∷ d ∷ e ∷ f ∷ g ∷ h ∷ []
  unfolding u64_be
  u64_be-u64_of = rw u64_of_sum (ground arith)

  pub u64_of-lt : u64_of a b c d e f g h < 2 ^ 64
  u64_of-lt = rw u64_of_sum (omega arith)

pub u16_of-lt : (a b : ℕ) → u16_of a b < 2 ^ 16
unfolding u16_of
u16_of-lt a b = omega arith

pub u16_be-u16_of : (a b : ℕ) → IsByte a → IsByte b → u16_be (u16_of a b) ≡ a ∷ b ∷ []
unfolding u16_be
u16_be-u16_of a b ha hb = rw (u16_of_sum a b ha hb) (ground arith)

pub u32_be-u32_of :
    (a b c d : ℕ)
    → IsByte a
    → IsByte b
    → IsByte c
    → IsByte d
    → u32_be (u32_of a b c d) ≡ a ∷ b ∷ c ∷ d ∷ []
unfolding u32_be
u32_be-u32_of a b c d ha hb hc hd = rw (u32_of_sum a b c d ha hb hc hd) (ground arith)

-- The reader undoes the writer, on values that fit.
pub u16_of-byte_at : (v : ℕ) → v < 2 ^ 16 → u16_of (byte_at v 8) (byte_at v 0) ≡ v
u16_of-byte_at v h =
    rw (u16_of_sum (byte_at v 8) (byte_at v 0) (omega arith) (omega arith)) (omega arith)

pub u32_of-byte_at :
    (v : ℕ) → v < 2 ^ 32 → u32_of (byte_at v 24) (byte_at v 16) (byte_at v 8) (byte_at v 0) ≡ v
u32_of-byte_at v h =
    u32_of_sum (byte_at v 24) (byte_at v 16) (byte_at v 8) (byte_at v 0) (omega arith) (omega arith)
      (omega arith) (omega arith)
    ∙ omega arith

pub u64_of-byte_at :
    (v : ℕ)
    → v < 2 ^ 64
    → u64_of
        (byte_at v 56)
        (byte_at v 48)
        (byte_at v 40)
        (byte_at v 32)
        (byte_at v 24)
        (byte_at v 16)
        (byte_at v 8)
        (byte_at v 0)
      ≡ v
u64_of-byte_at v h =
    u64_of_sum (byte_at v 56) (byte_at v 48) (byte_at v 40) (byte_at v 32) (byte_at v 24)
      (byte_at v 16) (byte_at v 8) (byte_at v 0) (omega arith) (omega arith) (omega arith)
      (omega arith) (omega arith) (omega arith) (omega arith) (omega arith)
    ∙ omega arith
