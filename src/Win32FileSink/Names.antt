-- ===== src/Win32FileSink/Names.antt =====
-- What `pd_win32_file_sink_init` accepts, and where it then puts the file.
use printdrop.Prelude.{
  ℕ, ◌+◌, ◌≤◌, ◌<◌, ◌≡◌, ◌≢◌, refl, sym, ap, subst, ◌∙◌, true, if_cases, true-ne-false, not,
  true_of_not, Option, none, some, ◌==◌, List, [], ◌∷◌, ◌++◌, replicate, take, drop, length, All,
  arith,
}
use printdrop.Bytes.{at}
use printdrop.Bytes.Text.{
  strlen, text_of, length-text_of, text_of_nonzero, text_of_nul, strings_equal, mem_equal→≡,
}
use printdrop.FileBegin.{filename_capacity}
use printdrop.Filename.{FilenameResult, ascii_is_control, filename_sanitize}
use printdrop.Filename.Safe.{IsSafe, IsClean}
use printdrop.Filename.Sanitize.{filename_sanitize_ok}
use printdrop.JobId.{job_id_is_valid}
use printdrop.Win32FileSink.{Win32SinkResult, FileApi, FileSink, job_id_to_wide}
use printdrop.Win32FileSink.Init.{
  is_same_name, is_sanitized, Checked, check_name, check_names, after_check, sink_init,
}
use printdrop.Win32FileSink.Place.{IsPlaced, Places, put_job_directory-Places}

valid_id : (id : List ℕ) → job_id_is_valid (some id) ≡ true → strlen id ≡ 32
unfolding job_id_is_valid
valid_id id e = ground (arith, e)

is_same_name-true :
    (name : List ℕ) (o : FilenameResult × Option (List ℕ) × Option ℕ)
    → is_same_name name o ≡ true
    → (o.0 ≡ FilenameResult.ok)
      × (checked : List ℕ) × (o.1 ≡ some checked)
      × (strings_equal checked name ≡ true)
unfolding is_same_name
is_same_name-true name (FilenameResult.ok, some checked, required) e = (refl, checked, refl, e)
is_same_name-true name (FilenameResult.ok, none, required) e = absurd (true-ne-false (sym e))
is_same_name-true name (FilenameResult.invalid_argument, _, _) e = absurd (true-ne-false (sym e))
is_same_name-true name (FilenameResult.too_long, _, _) e = absurd (true-ne-false (sym e))
is_same_name-true name (FilenameResult.buffer_too_small, _, _) e = absurd (true-ne-false (sym e))

clean_nonzero : (t : List ℕ) → All IsClean t → All (λ c. c ≢ 0) t
unfolding ascii_is_control
clean_nonzero [] h = tt
clean_nonzero (c ∷ t) h = ((λ e. clean_zero c h.0 e), clean_nonzero t h.1)
  where
    clean_zero : (c : ℕ) → IsClean c → c ≡ 0 → ⊥
    clean_zero c h e = ground (arith, h, e)

the_text : {x y : List ℕ} {o : Option (List ℕ)} → o ≡ some x → o ≡ some y → x ≡ y
the_text p q = cc

-- A name that sanitizing leaves as it is is safe.
is_sanitized-IsSafe :
    (name : List ℕ)
    → All (λ b. b < 256) name
    → is_sanitized name ≡ true
    → IsSafe (text_of name) × (strlen name ≤ 120)
unfolding is_sanitized
is_sanitized-IsSafe name bytes e =
    let blank = replicate filename_capacity 0 in
    let (fine, checked, written, same) =
      is_same_name-true name (filename_sanitize (some name) (some blank) filename_capacity none)
        e in
    let (safe, safe-IsSafe, short, text) =
      filename_sanitize_ok name blank filename_capacity none bytes (omega arith) fine in
    let nonzero = clean_nonzero safe safe-IsSafe.clean in
    let rest = drop (length safe + 1) blank in
    let e' : text_of name ≡ safe =
      sym (mem_equal→≡ (text_of checked) (text_of name) same)
      ∙ ap text_of (the_text written text)
      ∙ text_of_nul safe rest nonzero in
    (subst IsSafe (sym e') safe-IsSafe, omega (arith, short, ap length e', length-text_of name))

-- What the checks accept.
unfoldable Accepts : List ℕ → List ℕ → Checked → Type 0
Accepts job_id name (Checked.refused result) = result ≢ Win32SinkResult.ok
Accepts job_id name (Checked.accepted wide) =
    (job_id_is_valid (some job_id) ≡ true)
    × (text_of wide ≡ text_of job_id)
    × (is_sanitized name ≡ true)

wide_id : (id : List ℕ) → strlen id ≡ 32 → text_of (take 32 id ++ 0 ∷ []) ≡ text_of id
wide_id id e =
    let text = ap (λ k. take k id) {x = 32} {y = strlen id} (sym e) in
    ap (λ t. text_of (t ++ 0 ∷ [])) text ∙ text_of_nul (text_of id) [] (text_of_nonzero id)

check_names-Accepts : (job_id name : List ℕ) → Accepts job_id name (check_names job_id name)
unfolding check_names check_name Accepts job_id_to_wide
check_names-Accepts job_id name =
    if_cases (λ o. Accepts job_id name (check_name name o)) (not (job_id_is_valid (some job_id))) _
      _ (λ e f. absurd (cc))
      (λ e.
        if_cases (Accepts job_id name) (not (is_sanitized name)) _ _ (λ f g. absurd (cc))
          (λ f.
            (true_of_not _ e, wide_id job_id (valid_id job_id (true_of_not _ e)), true_of_not _ f)))

module _ {S : Type 0} (api : FileApi S) where
  -- The name in wide characters, as the system gives it.
  abbrev pub wide_name : List ℕ → List ℕ
  wide_name name = text_of (api.multi_byte_to_wide_char name filename_capacity).1

  unfoldable Initializes : List ℕ → List ℕ → List ℕ → Win32SinkResult × FileSink × S → Type 0
  Initializes root job_id name (result, sink, s) =
      result ≡ Win32SinkResult.ok
      → IsPlaced sink (text_of root) (text_of job_id) (wide_name name)
        × (job_id_is_valid (some job_id) ≡ true)
        × (is_sanitized name ≡ true)

  after_check-Initializes :
      (root job_id name : List ℕ) (c : Checked) (s : S)
      → Accepts job_id name c
      → Initializes root job_id name (after_check api root name c s)
  unfolding after_check Accepts Initializes Places
  after_check-Initializes root job_id name (Checked.refused result) s a = λ e. absurd (a e)
  after_check-Initializes root job_id name (Checked.accepted wide) s (valid, same, fine) =
      let converted = api.multi_byte_to_wide_char name filename_capacity in
      if_cases (Initializes root job_id name) (converted.0 == 0) _ _ (λ f g. absurd (cc))
        (λ f g. (
          put_job_directory-Places api (text_of root) (text_of job_id) (wide_name name) root wide
              converted.1 s refl same refl g,
          valid,
          fine,
        ))

  sink_init-Initializes :
      (sink : FileSink) (root job_id name : List ℕ) (s : S)
      → Initializes root job_id name (sink_init api sink (some root) (some job_id) (some name) s)
  unfolding sink_init Initializes
  sink_init-Initializes sink root job_id name s =
      if_cases (Initializes root job_id name) (at root 0 == 0) _ _ (λ f g. absurd (cc))
        (λ f.
          after_check-Initializes root job_id name (check_names job_id name) s
            (check_names-Accepts job_id name))

  -- Where the sink of a name of bytes is initialized with success, the job's id is 32 lower-case
  -- hexadecimal digits, the name is safe and at most 120 bytes long, and the three paths are
  -- NUL-terminated in their buffers: the job's directory below the root, the file of that name below
  -- it, in the system's wide characters, and the same followed by `.part`; no file is open yet.
  pub sink_init_ok :
      (sink : FileSink) (root job_id name : List ℕ) (s : S)
      → All (λ b. b < 256) name
      → (sink_init api sink (some root) (some job_id) (some name) s).0 ≡ Win32SinkResult.ok
      → IsPlaced
          (sink_init api sink (some root) (some job_id) (some name) s).1
          (text_of root)
          (text_of job_id)
          (wide_name name)
        × (job_id_is_valid (some job_id) ≡ true)
        × IsSafe (text_of name)
        × (strlen name ≤ 120)
  unfolding Initializes
  sink_init_ok sink root job_id name s bytes e =
      let (placed, valid, fine) = sink_init-Initializes sink root job_id name s e in
      let (safe, short) = is_sanitized-IsSafe name bytes fine in (placed, valid, safe, short)
