-- ===== src/Win32FileSink/Place.antt =====
-- Where `pd_win32_file_sink_init` puts a file.
use printdrop.Prelude.{
  ℕ, ◌+◌, ◌≤◌, ◌≡◌, refl, sym, ap, subst, ◌∙◌, Bool, true, false, if_cases, not, true_of_not, ltb,
  List, [], ◌∷◌, ◌++◌, append_assoc, length, length-append, replicate, drop, arith,
}
use printdrop.Bytes.{store}
use printdrop.Bytes.Store.{store-zero, length-store}
use printdrop.Bytes.Text.{strlen, text_of, length-text_of, text_of_nonzero}
use printdrop.Win32FileSink.{
  win32_path_capacity, Win32SinkResult, FileApi, FileSink, handle_is_open, put_path,
  ensure_directory,
}
use printdrop.Win32FileSink.Init.{
  part_suffix, staging_name_capacity, staging_name, cleared_sink, after_root, put_staging_path,
  put_final_path, put_job_directory,
}
use printdrop.Win32FileSink.Paths.{IsText, join, Holds, Puts, put_path-Puts, behind}

-- The directory of the job below the root, the file in it, and the name under which it is written.
pub record IsPlaced (sink : FileSink) (root job_id name : List ℕ) : Type 0 where
  pub directory : Holds sink.job_directory (join root job_id)
  pub final : Holds sink.final_path (join (join root job_id) name)
  pub staging : Holds sink.staging_path (join (join root job_id) name ++ part_suffix)
  pub is_closed : handle_is_open sink ≡ false
  pub is_initialized : sink.initialized ≡ true

part_suffix-IsText : IsText part_suffix
part_suffix-IsText = (omega arith, (omega arith, (omega arith, (omega arith, (omega arith, tt)))))

staging_name-text :
    (w : List ℕ)
    → strlen w + 6 ≤ staging_name_capacity
    → text_of (staging_name w) ≡ text_of w ++ part_suffix
unfolding staging_name
staging_name-text w room =
    let blank = replicate staging_name_capacity 0 in
    let name = store 0 (text_of w ++ 0 ∷ []) blank in
    (behind (text_of w) part_suffix name ((0 ∷ []) ++ drop (length (text_of w ++ 0 ∷ [])) blank)
      (strlen w)
      (store-zero (text_of w ++ 0 ∷ []) blank
          (omega (arith, length-append (text_of w) (0 ∷ []), length-text_of w, room))
        ∙ append_assoc (text_of w) (0 ∷ []) (drop (length (text_of w ++ 0 ∷ [])) blank))
      (length-text_of w) (text_of_nonzero w) part_suffix-IsText
      (omega (arith, room, length-store 0 (text_of w ++ 0 ∷ []) blank))).is_text

join_suffix : (path name suffix : List ℕ) → join path (name ++ suffix) ≡ join path name ++ suffix
join_suffix path name suffix = sym (append_assoc (path ++ _) name suffix)

made : {text : List ℕ} (o : Bool × List ℕ) → Puts text o → o.0 ≡ true → Holds o.1 text
unfolding Puts
made (b, path) p e = p.0 e

module _ {S : Type 0} (api : FileApi S) (root job_id name : List ℕ) where
  unfoldable pub Places : Win32SinkResult × FileSink × S → Type 0
  Places (result, sink, s) = result ≡ Win32SinkResult.ok → IsPlaced sink root job_id name

  -- The paths that are there before each step.
  record HasDirectory (sink : FileSink) : Type 0 where
    pub directory : Holds sink.job_directory (join root job_id)
    pub final_size : length sink.final_path ≡ win32_path_capacity
    pub staging_size : length sink.staging_path ≡ win32_path_capacity
    pub is_closed : handle_is_open sink ≡ false

  record HasFinal (sink : FileSink) : Type 0 where
    pub directory : Holds sink.job_directory (join root job_id)
    pub final : Holds sink.final_path (join (join root job_id) name)
    pub staging_size : length sink.staging_path ≡ win32_path_capacity
    pub is_closed : handle_is_open sink ≡ false

  record HasStaging (sink : FileSink) : Type 0 where
    pub directory : Holds sink.job_directory (join root job_id)
    pub final : Holds sink.final_path (join (join root job_id) name)
    pub staging : Holds sink.staging_path (join (join root job_id) name ++ part_suffix)
    pub is_closed : handle_is_open sink ≡ false

  after_root-Places :
      (sink : FileSink) (o : Bool × S) → HasStaging sink → Places (after_root api sink o)
  unfolding after_root Places handle_is_open
  after_root-Places sink (exists, s) h =
      if_cases Places (not exists) _ _ (λ e f. absurd (cc))
        (λ e f. record {
          directory = h.directory;
          final = h.final;
          staging = h.staging;
          is_closed = h.is_closed;
          is_initialized = refl;
        })

  put_staging_path-Places :
      (root_buffer wide : List ℕ) (sink : FileSink) (s : S)
      → text_of wide ≡ name
      → HasFinal sink
      → Places (put_staging_path api root_buffer wide sink s)
  unfolding put_staging_path Places handle_is_open
  put_staging_path-Places root_buffer wide sink s w h =
      let o = put_path sink.staging_path sink.job_directory (staging_name wide) in
      let p =
        put_path-Puts sink.staging_path sink.job_directory (staging_name wide) h.staging_size in
      let placed = record sink { staging_path = o.1 } in
      if_cases Places (ltb staging_name_capacity (strlen wide + 6)) _ _ (λ e f. absurd (cc))
        (λ e.
          if_cases Places (not o.0) _ _ (λ f g. absurd (cc))
            (λ f. after_root-Places placed (ensure_directory api root_buffer s) (record {
              directory = h.directory;
              final = h.final;
              staging =
                  subst (Holds o.1)
                    (ap (join (text_of sink.job_directory))
                        (staging_name-text wide (ground (arith, e)) ∙ ap (λ t. t ++ part_suffix) w)
                      ∙ ap (λ t. join t (name ++ part_suffix)) h.directory.is_text
                      ∙ join_suffix (join root job_id) name part_suffix)
                    (made o p (true_of_not o.0 f));
              is_closed = h.is_closed;
            })))

  put_final_path-Places :
      (root_buffer wide : List ℕ) (sink : FileSink) (s : S)
      → text_of wide ≡ name
      → HasDirectory sink
      → Places (put_final_path api root_buffer wide sink s)
  unfolding put_final_path Places handle_is_open
  put_final_path-Places root_buffer wide sink s w h =
      let o = put_path sink.final_path sink.job_directory wide in
      let p = put_path-Puts sink.final_path sink.job_directory wide h.final_size in
      if_cases Places (not o.0) _ _ (λ f g. absurd (cc))
        (λ f.
          put_staging_path-Places root_buffer wide (record sink { final_path = o.1 }) s w
            (record {
              directory = h.directory;
              final =
                  subst (Holds o.1)
                    (ap (join (text_of sink.job_directory)) w
                      ∙ ap (λ t. join t name) h.directory.is_text)
                    (made o p (true_of_not o.0 f));
              staging_size = h.staging_size;
              is_closed = h.is_closed;
            }))

  pub put_job_directory-Places :
      (root_buffer wide_job wide : List ℕ) (s : S)
      → text_of root_buffer ≡ root
      → text_of wide_job ≡ job_id
      → text_of wide ≡ name
      → Places (put_job_directory api root_buffer wide_job wide cleared_sink s)
  unfolding put_job_directory Places handle_is_open
  put_job_directory-Places root_buffer wide_job wide s r j w =
      let o = put_path cleared_sink.job_directory root_buffer wide_job in
      let p = put_path-Puts cleared_sink.job_directory root_buffer wide_job refl in
      if_cases Places (not o.0) _ _ (λ f g. absurd (cc))
        (λ f.
          put_final_path-Places root_buffer wide (record cleared_sink { job_directory = o.1 }) s w
            (record {
              directory =
                  subst (Holds o.1) (ap (join (text_of root_buffer)) j ∙ ap (λ t. join t job_id) r)
                    (made o p (true_of_not o.0 f));
              final_size = refl;
              staging_size = refl;
              is_closed = refl;
            }))
