-- ===== src/RelayRegistration/Body.antt =====
-- What the body of the registration is.
use printdrop.Prelude.{
  ℕ, ◌+◌, ◌≤◌, ◌≡◌, ◌↔◌, sym, ap, ◌∙◌, true, Option, some, List, [], ◌∷◌, ◌++◌, append_assoc,
  length, length-append, length-take, take, drop, arith,
}
use printdrop.Bytes.{store, write_out, write_out_twice}
use printdrop.Bytes.Store.{store-zero, store_next}
use printdrop.Bytes.Text.{strlen, strlen-le, text_of}
use printdrop.Hex.{all_lower_hex}
use printdrop.RelayRegistration.{
  RegistrationResult, is_lower_hex, body_prefix, body_suffix, put_body, build_body,
}

-- `{"session_id":"…"}`
abbrev pub body_text : List ℕ → List ℕ
body_text id = (body_prefix ++ id) ++ body_suffix

put_body-text :
    (id out : List ℕ)
    → length id ≡ 32
    → 50 ≤ length out
    → put_body id out ≡ (body_text id ++ 0 ∷ []) ++ drop 50 out
unfolding put_body
put_body-text id out size room =
    ap (λ b. store 47 (body_suffix ++ 0 ∷ []) (store 15 id b))
      (store-zero body_prefix out (omega arith))
    ∙ ap (store 47 (body_suffix ++ 0 ∷ [])) (
        store_next body_prefix id out 15 (omega arith) (omega arith)
        ∙ ap (λ k. (body_prefix ++ id) ++ drop k out) {x = 15 + length id} {y = 47} (omega arith))
    ∙ store_next (body_prefix ++ id) (body_suffix ++ 0 ∷ []) out 47
        (omega (arith, length-append body_prefix id)) (omega arith)
    ∙ ap (λ xs. xs ++ drop 50 out) (sym (append_assoc (body_prefix ++ id) body_suffix (0 ∷ [])))

build_body_facts :
    (id out : List ℕ) (capacity : ℕ) (size : Option ℕ)
    → (build_body (some id) (some out) capacity size).0 ≡ RegistrationResult.ok
    → (strlen id ≡ 32)
      × (all_lower_hex (take 32 id) ≡ true)
      × (50 ≤ capacity)
      × ((build_body (some id) (some out) capacity size).1 ≡ some (put_body (take 32 id) out))
      × ((build_body (some id) (some out) capacity size).2 ≡ write_out (write_out size 0) 49)
unfolding build_body is_lower_hex
build_body_facts id out capacity size e = ground (arith, e)

build_body-accepts :
    (id out : List ℕ) (capacity : ℕ) (size : Option ℕ)
    → strlen id ≡ 32
    → all_lower_hex (take 32 id) ≡ true
    → 50 ≤ capacity
    → (build_body (some id) (some out) capacity size).0 ≡ RegistrationResult.ok
unfolding build_body is_lower_hex
build_body-accepts id out capacity size n hex fits = ground (arith, n, hex, fits)

-- With a buffer at least as long as the capacity that it is told, building the body succeeds exactly
-- where the session's id is 32 lower-case hexadecimal digits and the capacity is at least 50; the
-- buffer then holds `{"session_id":"…"}` around the id and a NUL, with the rest as it was, and the
-- size that is written out, if one is asked for, is 49, the length of that text.
pub build_body_iff :
    (id out : List ℕ) (capacity : ℕ) (size : Option ℕ)
    → capacity ≤ length out
    → (((build_body (some id) (some out) capacity size).0 ≡ RegistrationResult.ok)
        ↔ ((strlen id ≡ 32) × (all_lower_hex (text_of id) ≡ true) × (50 ≤ capacity)))
      × ((build_body (some id) (some out) capacity size).0 ≡ RegistrationResult.ok
          → ((build_body (some id) (some out) capacity size).1
              ≡ some ((body_text (text_of id) ++ 0 ∷ []) ++ drop 50 out))
            × ((build_body (some id) (some out) capacity size).2 ≡ write_out size 49)
            × (length (body_text (text_of id)) ≡ 49))
build_body_iff id out capacity size room =
    let facts = build_body_facts id out capacity size in
    let text = λ (n : strlen id ≡ 32). ap (λ k. take k id) {x = 32} {y = strlen id} (sym n) in
    (
      (
        λ e.
            let (n, hex, fits, written, count) = facts e in
            (n, ap all_lower_hex (sym (text n)) ∙ hex, fits),
        λ (n, hex, fits).
            build_body-accepts id out capacity size n (ap all_lower_hex (text n) ∙ hex) fits,
      ),
      λ e.
          let (n, hex, fits, written, count) = facts e in
          let size_id = length-take (strlen id) id in
          (
            written
                ∙ ap (λ xs. some (put_body xs out)) (text n)
                ∙ ap some (
                    put_body-text (text_of id) out (omega (arith, size_id, strlen-le id, n))
                      (omega (arith, fits, room))),
            count ∙ write_out_twice size 0 49,
            omega (
              arith,
              size_id,
              strlen-le id,
              n,
              length-append (body_prefix ++ text_of id) body_suffix,
              length-append body_prefix (text_of id),
            ),
          ),
    )
