-- ===== src/Tests/Texts.antt =====
-- Digests, job ids, addresses and transfers at concrete inputs.
use printdrop.Prelude.{
  ℕ, zero, suc, ◌+◌, ◌≤◌, ◌<◌, ◌≡◌, ◌↔◌, refl, Bool, true, none, some, List, [], ◌∷◌, ◌++◌, drop,
  replicate, All, arith,
}
use printdrop.Bytes.{IsByte, store}
use printdrop.Bytes.Text.{codes, strlen, text_of}
use printdrop.Hex.Digits.{hex_text}
use printdrop.Integrity.{DigestResult, digest_equal, sha256_from_hex, sha256_to_hex}
use printdrop.Integrity.Digest.{digest_equal_iff}
use printdrop.Integrity.HexText.{sha256_from_hex-to_hex}
use printdrop.JobId.{JobIdResult, job_id_create, job_id_is_valid}
use printdrop.JobId.Create.{job_id_create_ok}
use printdrop.ReceiverSession.{ReceiverSession, SessionState}
use printdrop.ReceiverSession.Lifecycle.{IsLive}
use printdrop.SessionUrl.{SessionUrlResult, build_url}
use printdrop.SessionUrl.Build.{build_url_ok}
use printdrop.Transfer.{TransferState, TransferProgress, accept_chunk, begin_verification}
use printdrop.Transfer.Steps.{IsSound, Reach, here, next, accepts, verifies, Reach-facts}

abbrev ones : List ℕ
ones = replicate 32 1

abbrev twos : List ℕ
twos = replicate 32 2

replicate-IsByte : (n b : ℕ) → b < 256 → All IsByte (replicate n b)
replicate-IsByte zero b h = tt
replicate-IsByte (suc n) b h = (h, replicate-IsByte n b h)

digest_equal_iff_example : (digest_equal (some ones) (some twos) ≡ true) ↔ (ones ≡ twos)
digest_equal_iff_example =
    digest_equal_iff ones twos (replicate-IsByte 32 1 (omega arith))
      (replicate-IsByte 32 2 (omega arith)) refl refl

sha256_from_hex-to_hex_example :
    sha256_from_hex (sha256_to_hex (some ones) (some (replicate 66 9))) (some twos)
    ≡ (DigestResult.ok, some ones)
sha256_from_hex-to_hex_example =
    sha256_from_hex-to_hex ones (replicate 66 9) twos (replicate-IsByte 32 1 (omega arith)) refl
      (omega arith) refl

abbrev constant_fill : ℕ → ℕ → Bool × List ℕ × ℕ
constant_fill r n = (true, replicate n 0xab, r + 1)

job_id_create_ok_example :
    ((job_id_create (some (replicate 34 9)) (some constant_fill) 0).0 ≡ JobIdResult.ok)
    × ((job_id_create (some (replicate 34 9)) (some constant_fill) 0).1
        ≡ some (hex_text (replicate 16 0xab) ++ 0 ∷ drop 33 (store 0 (0 ∷ []) (replicate 34 9))))
    × (job_id_is_valid (job_id_create (some (replicate 34 9)) (some constant_fill) 0).1 ≡ true)
job_id_create_ok_example =
    job_id_create_ok (replicate 34 9) constant_fill 0 (omega arith) refl
      (replicate-IsByte 16 0xab (omega arith)) refl

abbrev armed : ReceiverSession
armed = record {
  token = hex_text (replicate 16 0xab) ++ 0 ∷ [];
  receiver_secret = replicate 65 0;
  created_at_ms = 5;
  expires_at_ms = 1005;
  state = SessionState.waiting;
}

abbrev address : List ℕ
address = codes "s/" ++ 0 ∷ []

address_built :
    (build_url (some armed) (some address) (some (replicate 40 9)) 40 none).0 ≡ SessionUrlResult.ok
unfolding build_url strlen hex_text
address_built = refl

build_url_ok_example :
    IsLive SessionState.waiting
    × (strlen armed.token ≡ 32)
    × (0 < strlen address)
    × ((build_url (some armed) (some address) (some (replicate 40 9)) 40 none).1
        ≡ some (
            ((text_of address ++ text_of armed.token) ++ 0 ∷ [])
            ++ drop (strlen address + 33) (replicate 40 9)))
build_url_ok_example =
    build_url_ok armed address (replicate 40 9) 40 none (omega arith) address_built

abbrev progress_of : TransferState → ℕ → TransferProgress
progress_of state received = record { expected_bytes = 5; received_bytes = received; state = state }

whole_reached : Reach (progress_of TransferState.waiting 0) (progress_of TransferState.verifying 5)
unfolding accept_chunk begin_verification
whole_reached =
    next
      (next (next here (accepts {q = progress_of TransferState.receiving 2} 2 refl))
        (accepts {q = progress_of TransferState.receiving 5} 3 refl))
      (verifies refl)

Reach-facts_example : IsSound (progress_of TransferState.verifying 5) × (◌≡◌ {A = ℕ} 5 5) × (0 ≤ 5)
Reach-facts_example =
    Reach-facts {p = progress_of TransferState.waiting 0}
      {q = progress_of TransferState.verifying 5}
      (record { in_range = omega arith; bounded = omega arith; whole = tt }) whole_reached
