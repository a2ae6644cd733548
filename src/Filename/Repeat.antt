-- ===== src/Filename/Repeat.antt =====
-- Sanitizing twice: a safe name comes out as it went in. (The Windows file sink relies on it: it
-- refuses a name that sanitizing would change.)
use printdrop.Prelude.{
  ℕ, ◌+◌, ◌≤◌, ◌≡◌, ◌≢◌, Option, some, List, [], ◌∷◌, ◌++◌, length, drop, take-all,
  take-length-append, All, arith,
}
use printdrop.Bytes.{at, write_out}
use printdrop.Bytes.Text.{strlen, text_of, IsChar, strlen-text}
use printdrop.Filename.{
  FilenameResult, ascii_is_control, trim_length, trimmed, with_fallback, filename_sanitize,
}
use printdrop.Filename.Device.{IsNoDevice-not_reserved}
use printdrop.Filename.Safe.{IsClean, EndsWell, IsSafe, map-replace_byte_clean}
use printdrop.Filename.Sanitize.{sanitized, filename_sanitize_lem}

IsClean-IsChar : (s : List ℕ) → All IsClean s → All IsChar s
unfolding ascii_is_control
IsClean-IsChar [] h = tt
IsClean-IsChar (c ∷ s) h = ((ground arith, h.0.2), IsClean-IsChar s h.1)

last_byte :
    (x : ℕ) (s : List ℕ)
    → EndsWell (x ∷ s)
    → (at (x ∷ s) (length s) ≢ b' ') × (at (x ∷ s) (length s) ≢ b'.')
last_byte x [] e = e
last_byte x (y ∷ s) e = last_byte y s e

trim_length-EndsWell_all : (s : List ℕ) → EndsWell s → trim_length s (length s) ≡ length s
unfolding trim_length
trim_length-EndsWell_all [] e = absurd e
trim_length-EndsWell_all (x ∷ s) e = ground (arith, last_byte x s e)

fallback_kept : (s : List ℕ) → EndsWell s → with_fallback s ≡ s
unfolding with_fallback
fallback_kept [] e = absurd e
fallback_kept (x ∷ []) e = ground arith
fallback_kept (x ∷ y ∷ []) e = ground arith
fallback_kept (x ∷ y ∷ z ∷ s) e = ground arith

text_of-name : (name rest : List ℕ) → All IsClean name → text_of (name ++ 0 ∷ rest) ≡ name
text_of-name name rest c =
    rw (strlen-text name rest (IsClean-IsChar name c)) (take-length-append name (0 ∷ rest))

trimmed-name : (name rest : List ℕ) → IsSafe name → trimmed (name ++ 0 ∷ rest) ≡ name
unfolding trimmed
trimmed-name name rest s =
    rw
      (
        text_of-name name rest s.clean,
        map-replace_byte_clean name s.clean,
        trim_length-EndsWell_all name s.ends_well,
      )
      (take-all name)

sanitized-name : (name rest : List ℕ) → IsSafe name → sanitized (name ++ 0 ∷ rest) ≡ name
sanitized-name name rest s = rw (
  trimmed-name name rest s,
  fallback_kept name s.ends_well,
  IsNoDevice-not_reserved name s.no_device,
)

-- A safe name of at most 120 bytes is accepted and given back unchanged, where the capacity is
-- enough for it and the buffer has that capacity.
pub filename_sanitize-IsSafe :
    (name rest out : List ℕ) (capacity : ℕ) (required : Option ℕ)
    → IsSafe name
    → length name ≤ 120
    → length name + 1 ≤ capacity
    → capacity ≤ length out
    → filename_sanitize (some (name ++ 0 ∷ rest)) (some out) capacity required ≡ (
      FilenameResult.ok,
      some (name ++ 0 ∷ drop (length name + 1) out),
      write_out required (length name + 1),
    )
filename_sanitize-IsSafe name rest out capacity required s short room c =
    let e = sanitized-name name rest s in
    let len : strlen (name ++ 0 ∷ rest) ≡ length name =
      strlen-text name rest (IsClean-IsChar name s.clean) in
    rw e at (
      filename_sanitize_lem (name ++ 0 ∷ rest) out capacity required c (omega arith) (rw e short)
        (rw e room))
