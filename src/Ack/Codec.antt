-- ===== src/Ack/Codec.antt =====
-- The acknowledgement on the wire: encoding and decoding are inverse.
use printdrop.Prelude.{
  ℕ, ◌^◌, ◌≤◌, ◌<◌, ◌≡◌, refl, ap, ◌↔◌, ◌⊎◌, some, List, [], ◌∷◌, ◌++◌, length, take, drop, All,
  arith,
}
use printdrop.Bytes.{IsByte, u64_be}
use printdrop.Bytes.Store.{store-zero, store_next}
use printdrop.Bytes.BigEndian.{u64_of-byte_at, u64_be-u64_of, u64_of-lt}
use printdrop.Protocol.{to_u8}
use printdrop.Ack.{Ack, AckResult, put_ack, ack_encode, ack_decode}

-- The twelve bytes of an acknowledgement.
unfoldable pub ack_bytes : Ack → List ℕ
unfolding u64_be
ack_bytes a = to_u8 a.acknowledged_type ∷ to_u8 a.status ∷ 0 ∷ 0 ∷ u64_be a.received_bytes

pub put_ack-bytes :
    (a : Ack) (out : List ℕ) → 12 ≤ length out → put_ack a out ≡ ack_bytes a ++ drop 12 out
unfolding put_ack ack_bytes
put_ack-bytes a out room = rw (
  store-zero (take 1 (ack_bytes a)) out (omega arith),
  store_next (take 1 (ack_bytes a)) (to_u8 a.status ∷ []) out 1 refl (omega arith),
  store_next (take 2 (ack_bytes a)) (0 ∷ []) out 2 refl (omega arith),
  store_next (take 3 (ack_bytes a)) (0 ∷ []) out 3 refl (omega arith),
  store_next (take 4 (ack_bytes a)) (u64_be a.received_bytes) out 4 refl (omega arith),
)

-- FILE_BEGIN, CHUNK and FILE_END are acknowledged.
abbrev pub IsAllowed : ℕ → Type 0
IsAllowed type = (type ≡ 3) ⊎ (type ≡ 4) ⊎ (type ≡ 5)

-- An acknowledgement with one of the five statuses and a 64-bit count.
pub record IsSendable (a : Ack) : Type 0 where
  pub allowed : IsAllowed a.acknowledged_type
  pub status_small : a.status ≤ 4
  pub count_fits : a.received_bytes < 2 ^ 64

-- `pd_ack_encode` succeeds exactly where the type may be acknowledged and the status is known (its
-- low byte, which is all that the code looks at).
pub ack_encode_ok :
    (a : Ack) (out : List ℕ)
    → ((ack_encode (some a) (some out)).0 ≡ AckResult.ok)
      ↔ (IsAllowed a.acknowledged_type × (to_u8 a.status ≤ 4))
unfolding ack_encode
ack_encode_ok a out = (λ e. ground arith, λ s. ground arith)

-- Then it writes the twelve bytes over the start of the output.
pub ack_encode-bytes :
    (a : Ack) (out : List ℕ)
    → 12 ≤ length out
    → (ack_encode (some a) (some out)).0 ≡ AckResult.ok
    → ack_encode (some a) (some out) ≡ (AckResult.ok, some (ack_bytes a ++ drop 12 out))
unfolding ack_encode
ack_encode-bytes a out room e = ground (arith, put_ack-bytes a out room)

-- Decoding what was encoded gives the acknowledgement back.
pub ack_decode-ack_bytes :
    (a old : Ack) (rest : List ℕ)
    → IsSendable a
    → ack_decode (some (ack_bytes a ++ rest)) 12 (some old) ≡ (AckResult.ok, some a)
unfolding ack_decode ack_bytes
ack_decode-ack_bytes a old rest s = ground (arith, u64_of-byte_at a.received_bytes s.count_fits)

-- Where the status is a byte, the count has 64 bits and the output buffer has at least 12 bytes,
-- an acknowledgement that was encoded is decoded to itself.
pub ack_decode-ack_encode :
    (a old : Ack) (out buffer : List ℕ)
    → a.status < 2 ^ 8
    → a.received_bytes < 2 ^ 64
    → 12 ≤ length out
    → ack_encode (some a) (some out) ≡ (AckResult.ok, some buffer)
    → ack_decode (some buffer) 12 (some old) ≡ (AckResult.ok, some a)
ack_decode-ack_encode a old out buffer small count room e =
    let ok = ap (λ r. r.0) e in
    let (allowed, status) = (ack_encode_ok a out).0 ok in
    let same : buffer ≡ ack_bytes a ++ drop 12 out = cc (e, ack_encode-bytes a out room ok) in
    let s : IsSendable a = record {
      allowed = allowed;
      status_small = omega arith;
      count_fits = count;
    } in
    rw same (ack_decode-ack_bytes a old (drop 12 out) s)

-- Of a payload given with its true size, one that the decoder accepts is the twelve bytes of the
-- decoded acknowledgement, and that is sendable.
pub ack_decode_ok :
    (input : List ℕ) (size : ℕ) (old : Ack) {a : Ack}
    → size ≡ length input
    → All IsByte input
    → ack_decode (some input) size (some old) ≡ (AckResult.ok, some a)
    → IsSendable a × (input ≡ ack_bytes a)
unfolding ack_decode ack_bytes
ack_decode_ok (t ∷ s ∷ z ∷ z' ∷ b ∷ c ∷ d ∷ e ∷ f ∷ g ∷ h ∷ i ∷ []) size old {a} room bytes ok =
    ground (
      arith,
      u64_be-u64_of b c d e f g h i (omega arith) (omega arith) (omega arith) (omega arith)
          (omega arith) (omega arith) (omega arith) (omega arith),
      u64_of-lt b c d e f g h i (omega arith) (omega arith) (omega arith) (omega arith)
          (omega arith) (omega arith) (omega arith) (omega arith),
    )
ack_decode_ok _ size old room bytes ok = ground arith
