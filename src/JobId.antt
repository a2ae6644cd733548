-- ===== src/JobId.antt =====
-- src/job_id.c and include/printdrop/job_id.h: the random name of a print job. The random source is
-- a parameter, as in ReceiverSession.antt.
pub mod Create
use printdrop.Prelude.{
  ℕ, ◌*◌, ◌+◌, ◌/◌, ◌%◌, Bool, false, not, Option, none, some, List, [], ◌∷◌, ◌==◌, if◌then◌else◌,
  take,
}
use printdrop.Bytes.{store}
use printdrop.Bytes.Text.{strlen}
use printdrop.Hex.{hex_digit, put_hex, all_lower_hex}

abbrev pub job_id_bytes : ℕ
job_id_bytes = 16

abbrev pub job_id_hex_chars : ℕ
job_id_hex_chars = job_id_bytes * 2

abbrev pub job_id_capacity : ℕ
job_id_capacity = job_id_hex_chars + 1

pub data JobIdResult : Type 0 where
  ok invalid_argument entropy_failure : JobIdResult

module _ {R : Type 0} where
  -- The answer of the random source to a request for the 16 bytes.
  unfoldable pub after_fill : List ℕ → Bool × List ℕ × R → JobIdResult × Option (List ℕ) × R
  after_fill output (filled, random_bytes, random) =
      if not filled then (JobIdResult.entropy_failure, some output, random) else (
        JobIdResult.ok,
        some (
            store job_id_hex_chars (0 ∷ []) (
              put_hex (λ b. hex_digit (b / 16 % 256)) hex_digit (take job_id_bytes random_bytes) 0
                output)),
        random,
      )

  unfoldable pub job_id_create :
      Option (List ℕ) → Option (R → ℕ → Bool × List ℕ × R) → R → JobIdResult × Option (List ℕ) × R
  job_id_create none random_fill random = (JobIdResult.invalid_argument, none, random)
  job_id_create (some output) none random = (JobIdResult.invalid_argument, some output, random)
  job_id_create (some output) (some random_fill) random =
      after_fill (store 0 (0 ∷ []) output) (random_fill random job_id_bytes)

unfoldable pub job_id_is_valid : Option (List ℕ) → Bool
job_id_is_valid none = false
job_id_is_valid (some value) =
    if not (strlen value == job_id_hex_chars)
    then false
    else all_lower_hex (take job_id_hex_chars value)
