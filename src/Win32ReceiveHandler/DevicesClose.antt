-- ===== src/Win32ReceiveHandler/DevicesClose.antt =====
-- Which of the devices' operations leave a file open or a hash running.
use printdrop.Prelude.{
  ℕ, ◌+◌, ◌≡◌, refl, false, if_cases, not, ◌||◌, ◌==◌, Option, none, some, List, ltb, replicate,
}
use printdrop.Bytes.{at}
use printdrop.Bytes.Text.{strlen}
use printdrop.FileBegin.{filename_capacity, sha256_bytes}
use printdrop.Integrity.{IntegrityStatus}
use printdrop.FileReceive.{FileSinkStatus}
use printdrop.FileReceive.Closing.{CloseLaws}
use printdrop.Win32FileSink.{
  FileApi, FileSink, SinkOutcome, Win32SinkResult, invalid_handle_value, put_path, handle_is_open,
  ensure_directory, after_create, after_ensure, sink_begin, after_move, after_close, after_flush,
  sink_commit, close_if_open, sink_abort,
}
use printdrop.Win32FileSink.Init.{
  Checked, cleared_sink, staging_name, staging_name_capacity, check_names, after_root,
  put_staging_path, put_final_path, put_job_directory, after_check, sink_init,
}
use printdrop.Win32Sha256.{
  CryptoApi, Sha256, sha256_cleanup, dword_size, after_create_hash, after_alloc, after_property,
  after_open, sha256_begin, after_finish_hash, sha256_finish, sha256_abort,
}
use printdrop.Win32ReceiveHandler.{Devices, System, device_sink, device_hash}

-- The sink's operations.
module _ {S : Type 0} (api : FileApi S) where
  pub begin_failed-closed :
      (sink : FileSink) (n : ℕ) (s : S)
      → handle_is_open sink ≡ false
      → (sink_begin api sink n s).0 ≡ FileSinkStatus.io_error
      → handle_is_open (sink_begin api sink n s).1 ≡ false
  unfolding sink_begin after_ensure after_create
  begin_failed-closed sink n s e =
      let P = λ (o : SinkOutcome S). o.0 ≡ FileSinkStatus.io_error → handle_is_open o.1 ≡ false in
      let exists = ensure_directory api sink.job_directory s in
      if_cases P (not sink.initialized || handle_is_open sink) _ _ (λ f g. e)
        (λ f.
          if_cases P (not exists.0) _ _ (λ g h. e)
            (λ g.
              if_cases P ((api.create_new_file _ exists.1).0 == invalid_handle_value) _ _ (λ h i. e)
                (λ h i. absurd (cc))))

  closed_handle :
      (sink : FileSink)
      → handle_is_open (record sink { file_handle = invalid_handle_value }) ≡ false
  unfolding handle_is_open
  closed_handle sink = refl

  pub commit_ok-closed :
      (sink : FileSink) (s : S)
      → (sink_commit api sink s).0 ≡ FileSinkStatus.ok
      → handle_is_open (sink_commit api sink s).1 ≡ false
  unfolding sink_commit after_flush after_close after_move
  commit_ok-closed sink s =
      let P = λ (o : SinkOutcome S). o.0 ≡ FileSinkStatus.ok → handle_is_open o.1 ≡ false in
      let flushed = api.flush_file_buffers sink.file_handle s in
      let closed = api.close_handle sink.file_handle flushed.1 in
      if_cases P (not (handle_is_open sink)) _ _ (λ e f. absurd (cc))
        (λ e.
          if_cases P (not flushed.0) _ _ (λ f g. absurd (cc))
            (λ f.
              if_cases P (not closed.0) _ _ (λ g h. absurd (cc))
                (λ g.
                  if_cases P (not (api.move_file _ _ closed.1).0) _ _ (λ h i. closed_handle sink)
                    (λ h i. closed_handle sink))))

  pub abort-closed : (sink : FileSink) (s : S) → handle_is_open (sink_abort api sink s).0 ≡ false
  unfolding sink_abort close_if_open
  abort-closed sink s =
      if_cases (λ (o : FileSink × S). handle_is_open o.0 ≡ false) (handle_is_open sink) _ _
        (λ e. closed_handle sink) (λ e. e)

-- The initialization of the sink, which opens no file, whatever is wrong with the names and the
-- paths.
module _ {S : Type 0} (api : FileApi S) where
  abbrev SameHandle : FileSink → Win32SinkResult × FileSink × S → Type 0
  SameHandle sink o = o.1.file_handle ≡ sink.file_handle

  put_staging_path-SameHandle :
      (root wide : List ℕ) (sink : FileSink) (s : S)
      → SameHandle sink (put_staging_path api root wide sink s)
  unfolding put_staging_path after_root
  put_staging_path-SameHandle root wide sink s =
      let (made, path) = put_path sink.staging_path sink.job_directory (staging_name wide) in
      if_cases (SameHandle sink) (ltb staging_name_capacity (strlen wide + 6)) _ _ (λ e. refl)
        (λ e.
          if_cases (SameHandle sink) (not made) _ _ (λ f. refl)
            (λ f.
              if_cases (SameHandle sink) (not (ensure_directory api root s).0) _ _ (λ g. refl)
                (λ g. refl)))

  put_final_path-SameHandle :
      (root wide : List ℕ) (sink : FileSink) (s : S)
      → SameHandle sink (put_final_path api root wide sink s)
  unfolding put_final_path
  put_final_path-SameHandle root wide sink s =
      let (made, path) = put_path sink.final_path sink.job_directory wide in
      if_cases (SameHandle sink) (not made) _ _ (λ e. refl)
        (λ e. put_staging_path-SameHandle root wide (record sink { final_path = path }) s)

  put_job_directory-SameHandle :
      (root id wide : List ℕ) (sink : FileSink) (s : S)
      → SameHandle sink (put_job_directory api root id wide sink s)
  unfolding put_job_directory
  put_job_directory-SameHandle root id wide sink s =
      let (made, path) = put_path sink.job_directory root id in
      if_cases (SameHandle sink) (not made) _ _ (λ e. refl)
        (λ e. put_final_path-SameHandle root wide (record sink { job_directory = path }) s)

  after_check-SameHandle :
      (root name : List ℕ) (checked : Checked) (s : S)
      → SameHandle cleared_sink (after_check api root name checked s)
  unfolding after_check
  after_check-SameHandle root name (Checked.refused result) s = refl
  after_check-SameHandle root name (Checked.accepted id) s =
      if_cases (SameHandle cleared_sink)
        ((api.multi_byte_to_wide_char name filename_capacity).0 == 0) _ _ (λ e. refl)
        (λ e. put_job_directory-SameHandle root id _ cleared_sink s)

  handle-closed :
      (sink : FileSink) → sink.file_handle ≡ invalid_handle_value → handle_is_open sink ≡ false
  unfolding handle_is_open
  handle-closed sink e = rw e refl

  pub sink_init-closed :
      (sink : FileSink) (root id name : Option (List ℕ)) (s : S)
      → handle_is_open sink ≡ false
      → handle_is_open (sink_init api sink root id name s).1 ≡ false
  unfolding sink_init
  sink_init-closed sink none id name s e = e
  sink_init-closed sink (some root) none name s e = e
  sink_init-closed sink (some root) (some id) none s e = e
  sink_init-closed sink (some root) (some id) (some name) s e =
      if_cases (λ (o : Win32SinkResult × FileSink × S). handle_is_open o.1 ≡ false) (at root 0 == 0)
        _ _ (λ f. e)
        (λ f. handle-closed _ (after_check-SameHandle root name (check_names id name) s))

-- The hash's operations.
module _ {S : Type 0} (api : CryptoApi S) where
  pub hash_failed-inactive :
      (context : Sha256) (s : S)
      → context.active ≡ false
      → (sha256_begin api context s).0 ≡ IntegrityStatus.error
      → (sha256_begin api context s).1.active ≡ false
  unfolding sha256_begin sha256_cleanup after_open after_property after_alloc after_create_hash
  hash_failed-inactive context s e =
      let P =
        λ (o : IntegrityStatus × Sha256 × S). o.0 ≡ IntegrityStatus.error → o.1.active ≡ false in
      let cleaned = (sha256_cleanup api context s).1 in
      let opened = api.open_algorithm_provider cleaned in
      let property = api.get_object_length opened.1 opened.2 in
      let alloc = api.heap_alloc property.1 property.3 in
      if_cases P context.active _ _ (λ f g. e)
        (λ f.
          if_cases P (not opened.0) _ _ (λ g h. refl)
            (λ g.
              if_cases P (not property.0 || not (property.2 == dword_size) || property.1 == 0) _ _
                (λ h i. refl)
                (λ h.
                  if_cases P (alloc.0 == 0) _ _ (λ i j. refl)
                    (λ i.
                      if_cases P (not (api.create_hash opened.1 alloc.0 property.1 alloc.1).0) _ _
                        (λ j k. refl) (λ j k. absurd (cc))))))

  pub finish_ok-inactive :
      (context : Sha256) (digest : List ℕ) (s : S)
      → (sha256_finish api context digest s).0 ≡ IntegrityStatus.ok
      → (sha256_finish api context digest s).2.active ≡ false
  unfolding sha256_finish after_finish_hash sha256_cleanup
  finish_ok-inactive context digest s =
      if_cases
        (λ (o : IntegrityStatus × List ℕ × Sha256 × S).
          o.0 ≡ IntegrityStatus.ok → o.2.active ≡ false)
        (not context.active || context.hash_handle == 0) _ _ (λ e f. absurd (cc)) (λ e f. refl)

-- The devices of the handler keep to what the file receiver relies on, with the sink's handle and the
-- hash's flag.
pub device_laws :
    {S : Type 0} (system : System S)
    → CloseLaws
        (λ (d : Devices S). handle_is_open d.sink)
        (λ (d : Devices S). d.sha256.active)
        (device_sink system)
        (device_hash system)
unfolding device_sink device_hash sha256_abort sha256_cleanup
device_laws system = record {
  begin_failed = λ n d. begin_failed-closed system.files d.sink n d.system;
  begin_hash = λ n d. refl;
  write_hash = λ xs n d. refl;
  commit_ok = λ d. commit_ok-closed system.files d.sink d.system;
  commit_hash = λ d. refl;
  abort_closes = λ d. abort-closed system.files d.sink d.system;
  abort_hash = λ d. refl;
  hash_begin_failed = λ d. hash_failed-inactive system.crypto d.sha256 d.system;
  update_hash = λ xs n d. refl;
  finish_ok = λ d. finish_ok-inactive system.crypto d.sha256 (replicate sha256_bytes 0) d.system;
  abort_stops = λ d. refl;
}
