-- ===== src/Transfer/Steps.antt =====
-- Runs of a transfer: the number of bytes stays in bounds, and a complete transfer has them all.
use printdrop.Prelude.{ℕ, ◌^◌, ◌≤◌, ◌<◌, ◌≡◌, refl, some, arith}
use printdrop.Transfer.{
  TransferState, TransferProgress, accept_chunk, begin_verification, mark_complete, mark_failed,
}

-- One call on a transfer, whatever it answers.
pub data Step (p : TransferProgress) : TransferProgress → Type 0 where
  accepts : {q : TransferProgress} (n : ℕ) → (accept_chunk (some p) n).1 ≡ some q → Step p q
  verifies : {q : TransferProgress} → (begin_verification (some p)).1 ≡ some q → Step p q
  completes : {q : TransferProgress} → (mark_complete (some p)).1 ≡ some q → Step p q
  fails : {q : TransferProgress} → mark_failed (some p) ≡ some q → Step p q

-- The calls of a run, with how many bytes it has accepted.
pub data Reach (p : TransferProgress) : TransferProgress → Type 0 where
  here : Reach p p
  next : {q r : TransferProgress} → Reach p q → Step q r → Reach p r

-- All bytes are there once the transfer is being verified.
abbrev pub IsWhole : TransferState → TransferProgress → Type 0
IsWhole TransferState.verifying p = p.received_bytes ≡ p.expected_bytes
IsWhole TransferState.complete p = p.received_bytes ≡ p.expected_bytes
IsWhole _ p = Unit

pub record IsSound (p : TransferProgress) : Type 0 where
  pub in_range : p.expected_bytes < 2 ^ 64
  pub bounded : p.received_bytes ≤ p.expected_bytes
  pub whole : IsWhole p.state p

mk :
    (p : TransferProgress)
    → p.expected_bytes < 2 ^ 64
    → p.received_bytes ≤ p.expected_bytes
    → IsWhole p.state p
    → IsSound p
mk p a b c = record { in_range = a; bounded = b; whole = c }

accept_facts :
    (p q : TransferProgress) (n : ℕ)
    → IsSound p
    → (accept_chunk (some p) n).1 ≡ some q
    → (q.expected_bytes ≡ p.expected_bytes)
      × (q.received_bytes ≤ q.expected_bytes)
      × IsWhole q.state q
      × (p.received_bytes ≤ q.received_bytes)
unfolding accept_chunk
accept_facts p q n i e = ground (arith, i.whole, i.bounded, i.in_range)

verify_facts :
    (p q : TransferProgress)
    → (begin_verification (some p)).1 ≡ some q
    → IsSound p
    → (q.expected_bytes ≡ p.expected_bytes)
      × (q.received_bytes ≡ p.received_bytes)
      × IsWhole q.state q
unfolding begin_verification
verify_facts p q e i = ground (arith, i.whole)

complete_facts :
    (p q : TransferProgress)
    → (mark_complete (some p)).1 ≡ some q
    → IsSound p
    → (q.expected_bytes ≡ p.expected_bytes)
      × (q.received_bytes ≡ p.received_bytes)
      × IsWhole q.state q
unfolding mark_complete
complete_facts p q e i = ground (arith, i.whole)

fail_facts :
    (p q : TransferProgress)
    → mark_failed (some p) ≡ some q
    → IsSound p
    → (q.expected_bytes ≡ p.expected_bytes)
      × (q.received_bytes ≡ p.received_bytes)
      × IsWhole q.state q
unfolding mark_failed
fail_facts p q e i = ground (arith, i.whole)

Step-facts :
    {p q : TransferProgress}
    → IsSound p
    → Step p q
    → IsSound q × (q.expected_bytes ≡ p.expected_bytes) × (p.received_bytes ≤ q.received_bytes)
Step-facts {p} {q} i (accepts n e) =
    let (same, bound, whole, more) = accept_facts p q n i e in
    (mk q (omega (arith, i.in_range)) bound whole, same, more)
Step-facts {p} {q} i (verifies e) =
    let (same, kept, whole) = verify_facts p q e i in
    (mk q (omega (arith, i.in_range)) (omega (arith, i.bounded)) whole, same, omega arith)
Step-facts {p} {q} i (completes e) =
    let (same, kept, whole) = complete_facts p q e i in
    (mk q (omega (arith, i.in_range)) (omega (arith, i.bounded)) whole, same, omega arith)
Step-facts {p} {q} i (fails e) =
    let (same, kept, whole) = fail_facts p q e i in
    (mk q (omega (arith, i.in_range)) (omega (arith, i.bounded)) whole, same, omega arith)

-- From a sound transfer, calls reach sound ones only: the bytes received never exceed the bytes
-- expected, and are all of them while the transfer verifies or is complete. The expected number
-- never changes and the received one never falls.
pub Reach-facts :
    {p q : TransferProgress}
    → IsSound p
    → Reach p q
    → IsSound q × (q.expected_bytes ≡ p.expected_bytes) × (p.received_bytes ≤ q.received_bytes)
Reach-facts i here = (i, refl, omega arith)
Reach-facts i (next r st) =
    let (j, same, more) = Reach-facts i r in
    let (k, same', more') = Step-facts j st in (k, omega arith, omega arith)
