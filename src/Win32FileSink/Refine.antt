-- ===== src/Win32FileSink/Refine.antt =====
-- The sink does what its machine allows, call by call.
use printdrop.Prelude.{
  ℕ, ◌≡◌, ◌≢◌, sym, ap, ◌∙◌, Bool, true, false, if_cases, true_of_not, not, ◌||◌, ltb, ◌==◌, List,
  [], ◌++◌, take, arith,
}
use printdrop.Bytes.Text.{text_of}
use printdrop.FileReceive.{FileSinkStatus}
use printdrop.Win32FileSink.{
  FileApi, FileSink, max_dword, null_handle, invalid_handle_value, handle_is_open, ensure_directory,
  after_create, after_ensure, sink_begin, after_write_file, sink_write,
}
use printdrop.Win32FileSink.Files.{
  SinkState, SinkCall, IsShut, Allows, begins, begin_fails, writes, write_fails, write_refused,
  stays_broken, FileView, FileLaws, Stands,
}

module _ {S : Type 0} (api : FileApi S) (v : FileView S) (laws : FileLaws api v) where
  pub not_open : (a b : Bool) → (a || b) ≡ false → b ≡ true → ⊥
  not_open a b e h = ground (arith, e, h)

  -- The call, with this answer, is one that the machine allows.
  unfoldable pub Simulates : SinkState → SinkCall → FileSinkStatus × ℕ × FileSink × S → Type 0
  Simulates a call (status, written, sink, s) =
      (a' : SinkState) × Allows a call status written a' × Stands v a' sink s

  -- Where no file changes, what stands for a shut state still does.
  shut-Stands :
      (a : SinkState) (sink : FileSink) (s s' : S)
      → IsShut a
      → ((path : List ℕ) → v.file path s' ≡ v.file path s)
      → Stands v a sink s
      → Stands v a sink s'
  unfolding Stands IsShut
  shut-Stands SinkState.closed sink s s' shut same h = h
  shut-Stands (SinkState.stored c) sink s s' shut same h =
      (h.0, same (text_of sink.final_path) ∙ h.1)
  shut-Stands SinkState.broken sink s s' shut same h = tt
  shut-Stands (SinkState.open_with c) sink s s' shut same h = absurd shut

  unfoldable pub begin_answer : FileSinkStatus × FileSink × S → FileSinkStatus × ℕ × FileSink × S
  begin_answer (status, sink, s) = (status, 0, sink, s)

  unfoldable pub write_answer :
      FileSink → FileSinkStatus × ℕ × S → FileSinkStatus × ℕ × FileSink × S
  write_answer sink (status, written, s) = (status, written, sink, s)

  opened_handle :
      (sink : FileSink) (h : ℕ)
      → h ≢ null_handle
      → h ≢ invalid_handle_value
      → handle_is_open (record sink { file_handle = h }) ≡ true
  unfolding handle_is_open
  opened_handle sink h p q = ground (arith, p, q)

  create-Simulates :
      (a : SinkState) (n : ℕ) (sink : FileSink) (s : S)
      → IsShut a
      → Stands v a sink s
      → Simulates a
          (SinkCall.begin n)
          (begin_answer (after_create api sink (api.create_new_file (text_of sink.staging_path) s)))
  unfolding Simulates after_create begin_answer Stands handle_is_open
  create-Simulates a n sink s shut stands =
      let o = api.create_new_file (text_of sink.staging_path) s in
      if_cases (λ x. Simulates a (SinkCall.begin n) (begin_answer x)) (o.0 == invalid_handle_value)
        _ _
        (λ e. (
          a,
          begin_fails,
          shut-Stands a sink s o.1 shut
              (λ p. laws.create_failed (text_of sink.staging_path) p s (ground (arith, e))) stands,
        ))
        (λ e.
          let (nonzero, path, empty) =
            laws.create_ok (text_of sink.staging_path) s (ground (arith, e)) in
          (
            SinkState.open_with [],
            begins shut,
            (opened_handle sink _ nonzero (ground (arith, e)), path, empty),
          ))

  ensure_keeps :
      (directory path : List ℕ) (s : S)
      → v.file path (ensure_directory api directory s).1 ≡ v.file path s
  unfolding ensure_directory
  ensure_keeps directory path s =
      let (created, s') = api.create_directory (text_of directory) s in
      let kept = laws.directory_keeps (text_of directory) path s in
      let P = λ (o : Bool × S). v.file path o.1 ≡ v.file path s in
      if_cases P created _ _ (λ e. kept)
        (λ e. if_cases P (api.get_last_error s' == 183) _ _ (λ f. kept) (λ f. kept))

  -- What the machine allows where the call is refused, whatever the state.
  stays :
      (a : SinkState) (n : ℕ) (sink : FileSink) (s s' : S)
      → ((path : List ℕ) → v.file path s' ≡ v.file path s)
      → IsShut a
      → Stands v a sink s
      → Simulates a (SinkCall.begin n) (FileSinkStatus.io_error, 0, sink, s')
  unfolding Simulates
  stays a n sink s s' same shut stands = (a, begin_fails, shut-Stands a sink s s' shut same stands)

  ensure-Simulates :
      (a : SinkState) (n : ℕ) (sink : FileSink) (s : S)
      → IsShut a
      → Stands v a sink s
      → Simulates a
          (SinkCall.begin n)
          (begin_answer (after_ensure api sink (ensure_directory api sink.job_directory s)))
  unfolding after_ensure begin_answer
  ensure-Simulates a n sink s shut stands =
      let o = ensure_directory api sink.job_directory s in
      let same = λ (p : List ℕ). ensure_keeps sink.job_directory p s in
      if_cases (λ x. Simulates a (SinkCall.begin n) (begin_answer x)) (not o.0) _ _
        (λ e. stays a n sink s o.1 same shut stands)
        (λ e. create-Simulates a n sink o.1 shut (shut-Stands a sink s o.1 shut same stands))

  pub begin-Simulates :
      (a : SinkState) (n : ℕ) (sink : FileSink) (s : S)
      → Stands v a sink s
      → Simulates a (SinkCall.begin n) (begin_answer (sink_begin api sink n s))
  unfolding sink_begin begin_answer Simulates IsShut Stands
  begin-Simulates a n sink s stands =
      if_cases (λ x. Simulates a (SinkCall.begin n) (begin_answer x))
        (not sink.initialized || handle_is_open sink) _ _ (λ e. (a, begin_fails, stands))
        (λ e. shut_or a stands e)
    where
      shut_or :
          (a : SinkState)
          → Stands v a sink s
          → (not sink.initialized || handle_is_open sink) ≡ false
          → Simulates a
              (SinkCall.begin n)
              (begin_answer (after_ensure api sink (ensure_directory api sink.job_directory s)))
      shut_or SinkState.closed h e = ensure-Simulates SinkState.closed n sink s tt h
      shut_or (SinkState.stored c) h e = ensure-Simulates (SinkState.stored c) n sink s tt h
      shut_or SinkState.broken h e = (SinkState.broken, stays_broken, tt)
      shut_or (SinkState.open_with c) h e =
          absurd (not_open (not sink.initialized) (handle_is_open sink) e h.0)

  written-Simulates :
      (c xs : List ℕ) (n : ℕ) (sink : FileSink) (s : S)
      → Stands v (SinkState.open_with c) sink s
      → Simulates
          (SinkState.open_with c)
          (SinkCall.write xs n)
          (write_answer sink (after_write_file api (api.write_file sink.file_handle xs n s)))
  unfolding after_write_file write_answer Simulates Stands
  written-Simulates c xs n sink s (is_open, path, contents) =
      let o = api.write_file sink.file_handle xs n s in
      let staging = text_of sink.staging_path in
      if_cases (λ x. Simulates (SinkState.open_with c) (SinkCall.write xs n) (write_answer sink x))
        (not o.0) _ _ (λ e. (SinkState.broken, write_fails, tt))
        (λ e.
          let (appended, same) = laws.write_ok sink.file_handle xs n s (true_of_not o.0 e) in
          (
            SinkState.open_with (c ++ take o.1 xs),
            writes,
            (
              is_open,
              same ∙ path,
              ap (λ p. v.file p o.2) (sym path)
                  ∙ appended
                  ∙ ap (λ ys. ys ++ take o.1 xs) (ap (λ p. v.file p s) path ∙ contents),
            ),
          ))

  -- A sink that is not open refuses.
  pub shut-closed :
      (a : SinkState) (sink : FileSink) (s : S)
      → IsShut a
      → Stands v a sink s
      → handle_is_open sink ≡ false
  unfolding IsShut Stands
  shut-closed SinkState.closed sink s shut h = h
  shut-closed (SinkState.stored c) sink s shut h = h.0
  shut-closed SinkState.broken sink s shut h = absurd shut
  shut-closed (SinkState.open_with c) sink s shut h = absurd shut

  refused-Simulates :
      (a : SinkState) (xs : List ℕ) (n : ℕ) (sink : FileSink) (s : S)
      → IsShut a
      → Stands v a sink s
      → Simulates a (SinkCall.write xs n) (write_answer sink (sink_write api sink xs n s))
  unfolding sink_write write_answer Simulates
  refused-Simulates a xs n sink s shut h =
      if_cases (λ x. Simulates a (SinkCall.write xs n) (write_answer sink x))
        (not (handle_is_open sink) || ltb max_dword n) _ _ (λ e. (a, write_refused shut, h))
        (λ e. absurd (closed_handle (handle_is_open sink) _ e (shut-closed a sink s shut h)))
    where
      closed_handle : (b c : Bool) → (not b || c) ≡ false → b ≡ false → ⊥
      closed_handle b c e h = ground (arith, e, h)

  pub write-Simulates :
      (a : SinkState) (xs : List ℕ) (n : ℕ) (sink : FileSink) (s : S)
      → Stands v a sink s
      → Simulates a (SinkCall.write xs n) (write_answer sink (sink_write api sink xs n s))
  unfolding sink_write write_answer Simulates Stands IsShut
  write-Simulates SinkState.closed xs n sink s h =
      refused-Simulates SinkState.closed xs n sink s tt h
  write-Simulates (SinkState.stored c) xs n sink s h =
      refused-Simulates (SinkState.stored c) xs n sink s tt h
  write-Simulates SinkState.broken xs n sink s h = (SinkState.broken, stays_broken, tt)
  write-Simulates (SinkState.open_with c) xs n sink s h =
      if_cases (λ x. Simulates (SinkState.open_with c) (SinkCall.write xs n) (write_answer sink x))
        (not (handle_is_open sink) || ltb max_dword n) _ _
        (λ e. (SinkState.broken, write_fails, tt)) (λ e. written-Simulates c xs n sink s h)
