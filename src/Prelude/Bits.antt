-- ===== src/Prelude/Bits.antt =====
-- `|` and `^` of the native numbers at variables. The native operations mean `bitwise`, which takes
-- its first operand for fuel; the lemmas `…_digit` read one binary digit without that fuel.
use Prim.Native.Nat.{
  ℕ, zero, suc, ◌+◌, ◌*◌, ◌/◌, ◌%◌, ◌^◌, ◌≤◌, ◌<◌, max, bit_or, bit_xor, digits, differ,
  bit_or-bitwise, bit_xor-bitwise,
}
use mathlib.Core.Path.{◌≡◌, refl, sym, ap, ◌∙◌}
use native.Mathlib.Nat.{pow-suc}
use native.Mathlib.Omega.{arith}

-- Any two amounts of fuel that cover the first operand give one result.
module _ (op : ℕ → ℕ → ℕ) where
  abbrev bits : ℕ → ℕ → ℕ → ℕ
  bits = digits (λ rest. rest) op

  same_bits : (a b j k : ℕ) → a ≤ j → a ≤ k → bits j a b ≡ bits k a b
  same_bits zero b zero zero hj hk = refl
  same_bits zero b zero (suc k) hj hk = refl
  same_bits zero b (suc j) zero hj hk = refl
  same_bits zero b (suc j) (suc k) hj hk = refl
  same_bits (suc a) b zero k hj hk = absurd (omega arith)
  same_bits (suc a) b (suc j) zero hj hk = absurd (omega arith)
  same_bits (suc a) b (suc j) (suc k) hj hk =
      rw (same_bits (suc a / 2) (b / 2) j k (omega arith) (omega arith))

  low_digit :
      (a b : ℕ)
      → bits (suc a) (suc a) b ≡ bits (suc a / 2) (suc a / 2) (b / 2) * 2 + op (suc a % 2) (b % 2)
  low_digit a b = rw (same_bits (suc a / 2) (b / 2) a (suc a / 2) (omega arith) (omega arith))

pub zero-bit_or : (b : ℕ) → bit_or 0 b ≡ b
zero-bit_or b = bit_or-bitwise 0 b

zero-bit_xor : (b : ℕ) → bit_xor 0 b ≡ b
zero-bit_xor b = bit_xor-bitwise 0 b

pub bit_or_digit : (a b : ℕ) → bit_or a b ≡ bit_or (a / 2) (b / 2) * 2 + max (a % 2) (b % 2)
bit_or_digit zero b = omega (arith, zero-bit_or b, zero-bit_or (b / 2))
bit_or_digit (suc a) b = simp bit_or-bitwise (low_digit max a b)

pub bit_xor_digit : (a b : ℕ) → bit_xor a b ≡ bit_xor (a / 2) (b / 2) * 2 + differ (a % 2) (b % 2)
bit_xor_digit zero b = rw (zero-bit_xor, zero-bit_xor) (omega arith)
bit_xor_digit (suc a) b = simp bit_xor-bitwise (low_digit differ a b)

or_zero_right : (k a : ℕ) → a ≤ k → bit_or a 0 ≡ a
or_zero_right k zero h = zero-bit_or 0
or_zero_right zero (suc a) h = absurd (omega arith)
or_zero_right (suc k) (suc a) h =
    omega (arith, bit_or_digit (suc a) 0, or_zero_right k (suc a / 2) (omega arith))

pub bit_or-zero : (a : ℕ) → bit_or a 0 ≡ a
bit_or-zero a = or_zero_right a a (omega arith)

-- A field of `k` bits under a value shifted past it: `|` adds them.
pub bit_or-shifted : (k q r : ℕ) → r < 2 ^ k → bit_or (q * 2 ^ k) r ≡ q * 2 ^ k + r
bit_or-shifted zero q r h = ground (arith, bit_or-zero q)
bit_or-shifted (suc k) q r h =
    let double : q * 2 ^ suc k ≡ 2 * (q * 2 ^ k) =
      omega (arith, ap (λ (t : ℕ). q * t) (pow-suc 2 k)) in
    let half : r / 2 < 2 ^ k = omega (arith, pow-suc 2 k) in
    ground (arith, double, bit_or_digit (q * 2 ^ suc k) r, bit_or-shifted k q (r / 2) half)

-- `|` is zero only where both operands are.
or_zero_parts : (k a b : ℕ) → a ≤ k → bit_or a b ≡ 0 → (a ≡ 0) × (b ≡ 0)
or_zero_parts k zero b h e = (refl, sym (zero-bit_or b) ∙ e)
or_zero_parts zero (suc a) b h e = absurd (omega arith)
or_zero_parts (suc k) (suc a) b h e =
    let halves =
      or_zero_parts k (suc a / 2) (b / 2) (omega arith) (omega (arith, bit_or_digit (suc a) b)) in
    omega (arith, bit_or_digit (suc a) b, halves)

pub bit_or_zero : (a b : ℕ) → bit_or a b ≡ 0 → (a ≡ 0) × (b ≡ 0)
bit_or_zero a b = or_zero_parts a a b (omega arith)

differ_zero : (x y : ℕ) → differ x y ≡ 0 → x ≡ y
differ_zero zero y h = sym h
differ_zero (suc x) zero h = h
differ_zero (suc x) (suc y) h = ap suc (differ_zero x y h)

differ_self : (x : ℕ) → differ x x ≡ 0
differ_self zero = refl
differ_self (suc x) = differ_self x

xor_zero_parts : (k a b : ℕ) → a ≤ k → bit_xor a b ≡ 0 → a ≡ b
xor_zero_parts k zero b h e = sym e ∙ zero-bit_xor b
xor_zero_parts zero (suc a) b h e = absurd (omega arith)
xor_zero_parts (suc k) (suc a) b h e =
    let digit : differ (suc a % 2) (b % 2) ≡ 0 = omega (arith, bit_xor_digit (suc a) b) in
    let low = differ_zero (suc a % 2) (b % 2) digit in
    let high =
      xor_zero_parts k (suc a / 2) (b / 2) (omega arith) (omega (arith, bit_xor_digit (suc a) b)) in
    omega (arith, low, high)

-- `^` is zero only where the operands agree.
pub bit_xor_zero : (a b : ℕ) → bit_xor a b ≡ 0 → a ≡ b
bit_xor_zero a b = xor_zero_parts a a b (omega arith)

xor_self_below : (k a : ℕ) → a ≤ k → bit_xor a a ≡ 0
xor_self_below k zero h = zero-bit_xor 0
xor_self_below zero (suc a) h = absurd (omega arith)
xor_self_below (suc k) (suc a) h = omega (
  arith,
  bit_xor_digit (suc a) (suc a),
  differ_self (suc a % 2),
  xor_self_below k (suc a / 2) (omega arith),
)

pub bit_xor_self : (a : ℕ) → bit_xor a a ≡ 0
bit_xor_self a = xor_self_below a a (omega arith)

differ-lt : (x y : ℕ) → x < 2 → y < 2 → differ x y < 2
differ-lt zero y hx hy = hy
differ-lt (suc x) zero hx hy = hx
differ-lt (suc x) (suc y) hx hy = differ-lt x y (omega arith) (omega arith)

-- Operands that fit `k` bits have results that do.
pub bit_xor-lt : (k a b : ℕ) → a < 2 ^ k → b < 2 ^ k → bit_xor a b < 2 ^ k
bit_xor-lt zero zero b ha hb = omega (arith, zero-bit_xor b)
bit_xor-lt zero (suc a) b ha hb = absurd (omega arith)
bit_xor-lt (suc k) a b ha hb = omega (
  arith,
  pow-suc 2 k,
  bit_xor_digit a b,
  differ-lt (a % 2) (b % 2) (omega arith) (omega arith),
  bit_xor-lt k (a / 2) (b / 2) (omega (arith, pow-suc 2 k)) (omega (arith, pow-suc 2 k)),
)

pub bit_or-lt : (k a b : ℕ) → a < 2 ^ k → b < 2 ^ k → bit_or a b < 2 ^ k
bit_or-lt zero zero b ha hb = omega (arith, zero-bit_or b)
bit_or-lt zero (suc a) b ha hb = absurd (omega arith)
bit_or-lt (suc k) a b ha hb = omega (
  arith,
  pow-suc 2 k,
  bit_or_digit a b,
  bit_or-lt k (a / 2) (b / 2) (omega (arith, pow-suc 2 k)) (omega (arith, pow-suc 2 k)),
)
