-- ===== src/Ack.antt =====
-- src/ack.c and include/printdrop/ack.h: the payload of an acknowledgement.
-- Pointers and output arguments are as in Frame.antt; the two C enums are numbers, since the code
-- casts bytes to them before it validates.
pub mod Codec
use printdrop.Prelude.{
  ℕ, Bool, not, ◌&&◌, ◌||◌, Option, none, some, List, [], ◌∷◌, leb, ◌==◌, if◌then◌else◌,
}
use printdrop.Bytes.{store, at, u64_be, read_u64_be}
use printdrop.Protocol.{to_u8, msg_file_begin, msg_chunk, msg_file_end}

abbrev pub ack_payload_size : ℕ
ack_payload_size = 12

abbrev pub ack_ok : ℕ
ack_ok = 0

abbrev pub ack_protocol_error : ℕ
ack_protocol_error = 1

abbrev pub ack_storage_error : ℕ
ack_storage_error = 2

abbrev pub ack_integrity_error : ℕ
ack_integrity_error = 3

abbrev pub ack_rejected : ℕ
ack_rejected = 4

pub data AckResult : Type 0 where
  ok invalid_argument invalid_type invalid_status malformed : AckResult

pub record Ack : Type 0 where
  pub acknowledged_type : ℕ
  pub status : ℕ
  pub received_bytes : ℕ

unfoldable pub ack_type_is_allowed : ℕ → Bool
ack_type_is_allowed type = type == msg_file_begin || type == msg_chunk || type == msg_file_end

unfoldable pub ack_status_is_valid : ℕ → Bool
ack_status_is_valid status = leb status ack_rejected

-- The writes of `pd_ack_encode`, in its order.
unfoldable pub put_ack : Ack → List ℕ → List ℕ
put_ack ack output = store 4 (u64_be ack.received_bytes) (
    store 3 (0 ∷ []) (
      store 2 (0 ∷ [])
        (store 1 (to_u8 ack.status ∷ []) (store 0 (to_u8 ack.acknowledged_type ∷ []) output))))

unfoldable pub ack_encode : Option Ack → Option (List ℕ) → AckResult × Option (List ℕ)
unfolding ack_type_is_allowed ack_status_is_valid
ack_encode none output = (AckResult.invalid_argument, output)
ack_encode (some ack) none = (AckResult.invalid_argument, none)
ack_encode (some ack) (some output) =
    if not (ack_type_is_allowed ack.acknowledged_type)
    then (AckResult.invalid_type, some output)
    else if not (ack_status_is_valid (to_u8 ack.status))
    then (AckResult.invalid_status, some output)
    else (AckResult.ok, some (put_ack ack output))

unfoldable pub ack_decode : Option (List ℕ) → ℕ → Option Ack → AckResult × Option Ack
unfolding ack_type_is_allowed ack_status_is_valid
ack_decode none input_size ack = (AckResult.invalid_argument, ack)
ack_decode (some input) input_size none = (AckResult.invalid_argument, none)
ack_decode (some input) input_size (some ack) =
    let type = at input 0 in
    let status = at input 1 in
    if not (input_size == ack_payload_size) || not (at input 2 == 0) || not (at input 3 == 0)
    then (AckResult.malformed, some ack)
    else if not (ack_type_is_allowed type)
    then (AckResult.invalid_type, some ack)
    else if not (ack_status_is_valid status)
    then (AckResult.invalid_status, some ack)
    else (
      AckResult.ok,
      some (record {
        acknowledged_type = type;
        status = status;
        received_bytes = read_u64_be input 4;
      }),
    )
