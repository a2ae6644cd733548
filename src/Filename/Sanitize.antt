-- ===== src/Filename/Sanitize.antt =====
-- `pd_filename_sanitize` as a whole: its result is safe, and a safe name is its own result.
use printdrop.Prelude.{
  ℕ, suc, ◌+◌, ◌≤◌, ◌<◌, ◌≡◌, refl, ap, ◌∙◌, ◌↔◌, ◌⊎◌, inl, inr, false, Option, some, List, [], ◌∷◌,
  ◌++◌, append_assoc, map, length, take, drop, length-append, length-take, All, All-take, arith,
  if◌then◌else◌, Bool-cases,
}
use printdrop.Bytes.{store, write_out, write_out_twice}
use printdrop.Bytes.Text.{strlen, text_of, All-text_of}
use printdrop.Bytes.Store.{store-zero, store_next}
use printdrop.Filename.{
  FilenameResult, ascii_is_control, is_windows_forbidden, is_windows_reserved_device_name,
  replace_byte, trim_length, trimmed, with_fallback, ascii_upper, equal_upper, ascii_equal_prefix,
  base_length, is_numbered_device, filename_sanitize, put_name,
}
use printdrop.Filename.Device.{not_reserved-IsNoDevice}
use printdrop.Filename.Safe.{
  IsClean, EndsWell, IsSafe, map-replace_byte-IsClean, trim_length-EndsWell,
}

length-map : (s : List ℕ) → length (map replace_byte s) ≡ length s
length-map [] = refl
length-map (c ∷ s) = ap suc (length-map s)

long_kept : (x y z : ℕ) (s : List ℕ) → with_fallback (x ∷ y ∷ z ∷ s) ≡ x ∷ y ∷ z ∷ s
unfolding with_fallback
long_kept x y z s = ground arith

-- "file" is a good name.
fallback_good :
    (s : List ℕ)
    → (s ≡ []) ⊎ EndsWell s
    → All IsClean s
    → EndsWell (with_fallback s) × All IsClean (with_fallback s)
unfolding with_fallback ascii_is_control is_windows_forbidden
fallback_good [] e c = ground arith
fallback_good (x ∷ []) (inl e) c = cc
fallback_good (x ∷ []) (inr e) c = ground arith
fallback_good (x ∷ y ∷ []) (inl e) c = cc
fallback_good (x ∷ y ∷ []) (inr e) c = ground arith
fallback_good (x ∷ y ∷ z ∷ s) (inl e) c = cc
fallback_good (x ∷ y ∷ z ∷ s) (inr e) c = rw (long_kept x y z s) (e, c)

length-with_fallback : (s : List ℕ) → length s ≤ 120 → length (with_fallback s) ≤ 120
unfolding with_fallback
length-with_fallback s h = ground arith

empty_of_length : (s : List ℕ) → length s ≡ 0 → s ≡ []
empty_of_length [] h = refl
empty_of_length (x ∷ s) h = absurd (omega arith)

module _ (input : List ℕ) (bytes : All (λ b. b < 256) input) where
  abbrev pub candidate : List ℕ
  candidate = with_fallback (trimmed input)

  abbrev text : List ℕ
  text = map replace_byte (text_of input)

  trimmed_good :
      ((trimmed input ≡ []) ⊎ EndsWell (trimmed input))
      × All IsClean (trimmed input)
      × (length (trimmed input) ≤ strlen input)
  unfolding trimmed
  trimmed_good = (
    elim (trim_length-EndsWell text (length text) (omega arith)) [
      | inl e ↦ inl (ap (λ n. take n text) e)
      | inr e ↦ inr e
    ],
    All-take IsClean (trim_length text (length text)) text
        (map-replace_byte-IsClean (text_of input) (All-text_of input bytes)),
    omega (
      arith,
      length-take (trim_length text (length text)) text,
      length-map (text_of input),
      length-take (strlen input) input,
    ),
  )

  candidate_good : EndsWell candidate × All IsClean candidate
  candidate_good = fallback_good (trimmed input) trimmed_good.0 trimmed_good.1

-- With an underscore in front, no name is a device's.
underscore_no_device : (s : List ℕ) → is_windows_reserved_device_name (b'_' ∷ s) ≡ false
unfolding is_windows_reserved_device_name ascii_equal_prefix equal_upper ascii_upper base_length
    is_numbered_device
underscore_no_device s = ground arith

-- The name that `pd_filename_sanitize` gives: a device's name gets an underscore.
abbrev pub sanitized : List ℕ → List ℕ
sanitized input =
    let name = with_fallback (trimmed input) in
    if is_windows_reserved_device_name name then b'_' ∷ name else name

EndsWell-cons : (x : ℕ) (s : List ℕ) → EndsWell s → EndsWell (x ∷ s)
EndsWell-cons x [] e = absurd e
EndsWell-cons x (y ∷ s) e = e

underscore-IsClean : IsClean b'_'
unfolding ascii_is_control is_windows_forbidden
underscore-IsClean = ground arith

pub sanitized-IsSafe : (input : List ℕ) → All (λ b. b < 256) input → IsSafe (sanitized input)
sanitized-IsSafe input bytes =
    let (ends, clean) = candidate_good input bytes in
    let name = with_fallback (trimmed input) in
    elim (Bool-cases (is_windows_reserved_device_name name)) [
      | inl e ↦ rw e (record {
        clean = (underscore-IsClean, clean);
        ends_well = EndsWell-cons b'_' name ends;
        no_device = not_reserved-IsNoDevice (b'_' ∷ name) (underscore_no_device name);
      })
      | inr e ↦
          rw e
            (record { clean = clean; ends_well = ends; no_device = not_reserved-IsNoDevice name e })
    ]

-- A name and its NUL, written behind `pre`.
name_behind :
    (pre name out : List ℕ) (p : ℕ)
    → p ≡ length pre
    → p + length name + 1 ≤ length out
    → store (p + length name) (0 ∷ []) (store p name (pre ++ drop p out))
      ≡ (pre ++ name) ++ 0 ∷ drop (p + length name + 1) out
name_behind pre name out p e room = rw (store_next pre name out p e (omega arith)) (
    store_next (pre ++ name) (0 ∷ []) out (p + length name) (omega (arith, length-append pre name))
      (omega arith)
    ∙ append_assoc (pre ++ name) (0 ∷ []) (drop (p + length name + 1) out))

put_name-plain :
    (name out : List ℕ)
    → length name + 1 ≤ length out
    → put_name name 0 out ≡ name ++ 0 ∷ drop (length name + 1) out
unfolding put_name
put_name-plain name out room =
    name_behind [] name out 0 refl (omega arith)
    ∙ ap (λ n. name ++ 0 ∷ drop n out) {x = 0 + length name + 1} {y = length name + 1} (omega arith)

put_name-underscore :
    (name out : List ℕ)
    → length name + 2 ≤ length out
    → put_name name 1 out ≡ (b'_' ∷ name) ++ 0 ∷ drop (length (b'_' ∷ name) + 1) out
unfolding put_name
put_name-underscore name out room = rw (store-zero (b'_' ∷ []) out (omega arith)) (
    name_behind (b'_' ∷ []) name out 1 refl (omega arith)
    ∙ ap (λ n. (b'_' ∷ name) ++ 0 ∷ drop n out) {x = 1 + length name + 1}
        {y = suc (length name) + 1} (omega arith))

pub filename_sanitize_lem :
    (input out : List ℕ) (capacity : ℕ) (required : Option ℕ)
    → capacity ≤ length out
    → strlen input ≤ 120
    → length (sanitized input) ≤ 120
    → length (sanitized input) + 1 ≤ capacity
    → filename_sanitize (some input) (some out) capacity required ≡ (
      FilenameResult.ok,
      some (sanitized input ++ 0 ∷ drop (length (sanitized input) + 1) out),
      write_out required (length (sanitized input) + 1),
    )
unfolding filename_sanitize
filename_sanitize_lem input out capacity required c short fits room =
    let name = with_fallback (trimmed input) in
    ground (
      arith,
      write_out_twice required 0 (length (sanitized input) + 1),
      put_name-plain name out,
      put_name-underscore name out,
    )

-- The limits within which sanitizing succeeds: those of the input, of the name and of its buffer.
pub record Fits (input : List ℕ) (capacity : ℕ) : Type 0 where
  pub input_short : strlen input ≤ 120
  pub name_short : length (sanitized input) ≤ 120
  pub room : length (sanitized input) + 1 ≤ capacity

pub filename_sanitize_limits :
    (input out : List ℕ) (capacity : ℕ) (required : Option ℕ)
    → ((filename_sanitize (some input) (some out) capacity required).0 ≡ FilenameResult.ok)
      ↔ Fits input capacity
unfolding filename_sanitize
filename_sanitize_limits input out capacity required = (λ e. ground arith, λ f. ground arith)

-- Where the input is bytes and the output buffer has the capacity that is told, sanitizing
-- succeeds only with a safe name of at most 120 bytes, a NUL behind it, at the start of the
-- output, and the rest of the buffer as it was. A safe name has no control byte and none of
-- < > : " / \ | ? *, does not end in a space or a dot, and is not empty; what is in front of its
-- first dot, in capital or small letters, is none of CON, PRN, AUX, NUL, COM1 to COM9 and LPT1 to
-- LPT9. Other names that Windows may keep, such as CONIN$ or NUL with a space behind it, are not
-- among these.
pub filename_sanitize_ok :
    (input out : List ℕ) (capacity : ℕ) (required : Option ℕ)
    → All (λ b. b < 256) input
    → capacity ≤ length out
    → (filename_sanitize (some input) (some out) capacity required).0 ≡ FilenameResult.ok
    → (name : List ℕ) × IsSafe name
      × (length name ≤ 120)
      × ((filename_sanitize (some input) (some out) capacity required).1
          ≡ some (name ++ 0 ∷ drop (length name + 1) out))
filename_sanitize_ok input out capacity required bytes c e =
    let f = (filename_sanitize_limits input out capacity required).0 e in
    (
      sanitized input,
      sanitized-IsSafe input bytes,
      f.name_short,
      rw (filename_sanitize_lem input out capacity required c f.input_short f.name_short f.room),
    )
