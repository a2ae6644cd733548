-- ===== src/Bytes.antt =====
-- Byte buffers and the big-endian helpers that frame.c, ack.c and file_begin.c each declare for
-- themselves, with the C string functions that the sources call. A buffer is the list of its bytes.
pub mod Store
pub mod BigEndian
pub mod Text
use printdrop.Prelude.{
  ◌≡◌, refl, ℕ, zero, suc, ◌+◌, ◌*◌, ◌/◌, ◌%◌, ◌^◌, ◌<◌, bit_or, List, [], ◌∷◌, get_or, Option,
  none, some,
}

abbrev pub IsByte : ℕ → Type 0
IsByte b = b < 256

-- `memcpy(&buffer[offset], bytes, n)`. A write past the end of the buffer, which C leaves undefined,
-- is dropped.
unfoldable pub store : ℕ → List ℕ → List ℕ → List ℕ
store offset [] buffer = buffer
store offset (x ∷ xs) [] = []
store zero (x ∷ xs) (b ∷ buffer) = x ∷ store zero xs buffer
store (suc offset) (x ∷ xs) (b ∷ buffer) = b ∷ store offset (x ∷ xs) buffer

-- `buffer[i]`
abbrev pub at : List ℕ → ℕ → ℕ
at buffer i = get_or buffer i 0

-- `(uint8_t)(value >> k)`
abbrev pub byte_at : ℕ → ℕ → ℕ
byte_at value k = value / 2 ^ k % 2 ^ 8

-- `if (p != NULL) { *p = value; }` on a counter that the caller may leave out.
abbrev pub write_out : Option ℕ → ℕ → Option ℕ
write_out none value = none
write_out (some old) value = some value

pub write_out_twice : (w : Option ℕ) (a b : ℕ) → write_out (write_out w a) b ≡ write_out w b
write_out_twice none a b = refl
write_out_twice (some old) a b = refl

-- The bytes that `pd_write_u16_be`, `pd_write_u32_be` and `pd_write_u64_be` write.
unfoldable pub u16_be : ℕ → List ℕ
u16_be v = byte_at v 8 ∷ byte_at v 0 ∷ []

unfoldable pub u32_be : ℕ → List ℕ
u32_be v = byte_at v 24 ∷ byte_at v 16 ∷ byte_at v 8 ∷ byte_at v 0 ∷ []

unfoldable pub u64_be : ℕ → List ℕ
u64_be v =
    byte_at v 56
    ∷ byte_at v 48
    ∷ byte_at v 40
    ∷ byte_at v 32
    ∷ byte_at v 24
    ∷ byte_at v 16
    ∷ byte_at v 8
    ∷ byte_at v 0
    ∷ []

-- The value that two, four or eight bytes spell: the operands of `|` in `pd_read_u16_be`,
-- `pd_read_u32_be` and `pd_read_u64_be`. They are bytes, so no shift wraps.
unfoldable pub u16_of : ℕ → ℕ → ℕ
u16_of a b = bit_or (a * 2 ^ 8) b % 2 ^ 16

unfoldable pub u32_of : ℕ → ℕ → ℕ → ℕ → ℕ
u32_of a b c d = bit_or (bit_or (bit_or (a * 2 ^ 24) (b * 2 ^ 16)) (c * 2 ^ 8)) d

unfoldable pub u64_of : ℕ → ℕ → ℕ → ℕ → ℕ → ℕ → ℕ → ℕ → ℕ
u64_of a b c d e f g h =
    let high = bit_or (bit_or (bit_or (a * 2 ^ 56) (b * 2 ^ 48)) (c * 2 ^ 40)) (d * 2 ^ 32) in
    bit_or (bit_or (bit_or (bit_or high (e * 2 ^ 24)) (f * 2 ^ 16)) (g * 2 ^ 8)) h

-- `pd_read_u16_be(&input[i])` and its fellows.
abbrev pub read_u16_be : List ℕ → ℕ → ℕ
read_u16_be input i = u16_of (at input i) (at input (i + 1))

abbrev pub read_u32_be : List ℕ → ℕ → ℕ
read_u32_be input i = u32_of (at input i) (at input (i + 1)) (at input (i + 2)) (at input (i + 3))

abbrev pub read_u64_be : List ℕ → ℕ → ℕ
read_u64_be input i =
    u64_of (at input i) (at input (i + 1)) (at input (i + 2)) (at input (i + 3)) (at input (i + 4))
      (at input (i + 5)) (at input (i + 6)) (at input (i + 7))
