-- ===== src/JobId/Create.antt =====
-- A new job id is valid, and what a valid one is.
use printdrop.Prelude.{
  ℕ, ◌+◌, ◌*◌, ◌/◌, ◌%◌, ◌≤◌, ◌≡◌, refl, sym, ap, ◌∙◌, Bool, true, false, some, List, [], ◌∷◌, ◌++◌,
  length, take, take-of_length, take-length-append, drop, All, arith,
}
use printdrop.Bytes.{IsByte, store}
use printdrop.Bytes.Store.{length-store}
use printdrop.Bytes.Text.{strlen, strlen-text}
use printdrop.Hex.{hex_digit, put_hex, all_lower_hex}
use printdrop.Hex.Digits.{
  hex_text, length-hex_text, put_hex_nul, hex_digit_high, hex_digit_low, hex_text-all_lower_hex,
  all_lower_hex-IsChar,
}
use printdrop.JobId.{JobIdResult, after_fill, job_id_create, job_id_is_valid}

valid_text :
    (t rest : List ℕ)
    → all_lower_hex t ≡ true
    → length t ≡ 32
    → job_id_is_valid (some (t ++ 0 ∷ rest)) ≡ true
unfolding job_id_is_valid
valid_text t rest h n =
    let len : strlen (t ++ 0 ∷ rest) ≡ 32 = strlen-text t rest (all_lower_hex-IsChar t h) ∙ n in
    let head : take 32 (t ++ 0 ∷ rest) ≡ t =
      ap (λ k. take k (t ++ 0 ∷ rest)) (sym n) ∙ take-length-append t (0 ∷ rest) in
    rw (len, head) h

after_fill_ok :
    {R : Type 0} (out : List ℕ) (x : Bool × List ℕ × R)
    → 33 ≤ length out
    → x.0 ≡ true
    → All IsByte x.1
    → length x.1 ≡ 16
    → ((after_fill out x).0 ≡ JobIdResult.ok)
      × ((after_fill out x).1 ≡ some (hex_text x.1 ++ 0 ∷ drop 33 out))
      × (job_id_is_valid (after_fill out x).1 ≡ true)
unfolding after_fill
after_fill_ok out (false, bytes, r) room a b c = absurd (cc)
after_fill_ok out (true, bytes, r) room a b c = (
  refl,
  ap some written,
  ap (λ t. job_id_is_valid (some t)) written
      ∙ valid_text (hex_text bytes) (drop 33 out) (hex_text-all_lower_hex bytes b)
          (omega (arith, length-hex_text bytes)),
)
  where
    written :
        store 32 (0 ∷ []) (put_hex (λ b. hex_digit (b / 16 % 256)) hex_digit (take 16 bytes) 0 out)
        ≡ hex_text bytes ++ 0 ∷ drop 33 out
    written =
        ap (λ d. store 32 (0 ∷ []) (put_hex (λ b. hex_digit (b / 16 % 256)) hex_digit d 0 out))
          (take-of_length 16 bytes c)
        ∙ ap (λ k. store k (0 ∷ []) (put_hex (λ b. hex_digit (b / 16 % 256)) hex_digit bytes 0 out))
            {x = 32} {y = length bytes * 2} (omega arith)
        ∙ put_hex_nul (λ b. hex_digit (b / 16 % 256)) hex_digit hex_digit_high hex_digit_low bytes
            out b (omega arith)
        ∙ ap (λ k. hex_text bytes ++ 0 ∷ drop k out) {x = length bytes * 2 + 1} {y = 33}
            (omega arith)

-- Where the random source fills its buffer with 16 bytes, creating a job id in a buffer of 33 bytes
-- or more succeeds, writes the lower-case digits of the bytes and a NUL, and what it has written is
-- a valid job id.
pub job_id_create_ok :
    {R : Type 0} (out : List ℕ) (fill : R → ℕ → Bool × List ℕ × R) (random : R)
    → 33 ≤ length out
    → (fill random 16).0 ≡ true
    → All IsByte (fill random 16).1
    → length (fill random 16).1 ≡ 16
    → ((job_id_create (some out) (some fill) random).0 ≡ JobIdResult.ok)
      × ((job_id_create (some out) (some fill) random).1
          ≡ some (hex_text (fill random 16).1 ++ 0 ∷ drop 33 (store 0 (0 ∷ []) out)))
      × (job_id_is_valid (job_id_create (some out) (some fill) random).1 ≡ true)
unfolding job_id_create
job_id_create_ok {R} out fill random room filled bytes n =
    after_fill_ok (store 0 (0 ∷ []) out) (fill random 16)
      (omega (arith, length-store 0 (0 ∷ []) out)) filled bytes n
