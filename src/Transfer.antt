-- ===== src/Transfer.antt =====
-- src/session.c and include/printdrop/session.h: how far a transfer has come. A NULL progress is
-- `none`; each operation gives back the progress after it.
pub mod Steps
use printdrop.Prelude.{
  ℕ, ◌+◌, ◌-◌, ◌%◌, ◌^◌, Bool, true, false, not, ◌||◌, Option, none, some, ltb, ◌==◌, if◌then◌else◌,
}

pub data TransferState : Type 0 where
  waiting receiving verifying complete failed : TransferState

pub data TransferResult : Type 0 where
  ok invalid_argument invalid_state exceeds_expected_size : TransferResult

pub record TransferProgress : Type 0 where
  pub expected_bytes : ℕ
  pub received_bytes : ℕ
  pub state : TransferState

-- WAITING or RECEIVING.
abbrev pub takes_chunks : TransferState → Bool
takes_chunks TransferState.waiting = true
takes_chunks TransferState.receiving = true
takes_chunks _ = false

abbrev pub is_verifying : TransferState → Bool
is_verifying TransferState.verifying = true
is_verifying _ = false

abbrev pub is_complete : TransferState → Bool
is_complete TransferState.complete = true
is_complete _ = false

unfoldable pub transfer_init : Option TransferProgress → ℕ → Option TransferProgress
transfer_init none expected_bytes = none
transfer_init (some progress) expected_bytes =
    some (record {
      expected_bytes = expected_bytes;
      received_bytes = 0;
      state = TransferState.waiting;
    })

unfoldable pub accept_chunk : Option TransferProgress → ℕ → TransferResult × Option TransferProgress
accept_chunk none chunk_bytes = (TransferResult.invalid_argument, none)
accept_chunk (some progress) chunk_bytes =
    if chunk_bytes == 0
    then (TransferResult.invalid_argument, some progress)
    else if not (takes_chunks progress.state)
    then (TransferResult.invalid_state, some progress)
    else if ltb progress.expected_bytes progress.received_bytes
        || ltb (progress.expected_bytes - progress.received_bytes) chunk_bytes
    then (TransferResult.exceeds_expected_size, some progress)
    else (
      TransferResult.ok,
      some (record progress {
        state = TransferState.receiving;
        received_bytes = (progress.received_bytes + chunk_bytes) % 2 ^ 64;
      }),
    )

unfoldable pub begin_verification : Option TransferProgress → Bool × Option TransferProgress
begin_verification none = (false, none)
begin_verification (some progress) =
    if not (progress.received_bytes == progress.expected_bytes)
    then (false, some progress)
    else if not (takes_chunks progress.state)
    then (false, some progress)
    else (true, some (record progress { state = TransferState.verifying }))

unfoldable pub mark_complete : Option TransferProgress → Bool × Option TransferProgress
mark_complete none = (false, none)
mark_complete (some progress) =
    if not (is_verifying progress.state)
    then (false, some progress)
    else (true, some (record progress { state = TransferState.complete }))

unfoldable pub mark_failed : Option TransferProgress → Option TransferProgress
mark_failed none = none
mark_failed (some progress) =
    if is_complete progress.state
    then some progress
    else some (record progress { state = TransferState.failed })
