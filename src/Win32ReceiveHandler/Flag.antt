-- ===== src/Win32ReceiveHandler/Flag.antt =====
-- The flag of the handler after each operation.
use printdrop.Prelude.{
  ℕ, ◌≡◌, refl, ◌∙◌, Bool, true, false, if_cases, not, ◌||◌, Option, none, some, List, arith,
}
use printdrop.FileBegin.{FileBegin}
use printdrop.FileReceive.{
  FileReceiveResult, FileReceiver, Outcome, configure_integrity, receiver_begin,
}
use printdrop.JobId.{JobIdResult}
use printdrop.Win32FileSink.{FileSink, Win32SinkResult}
use printdrop.Win32ReceiveHandler.{
  Devices, Win32ReceiveHandler, System, device_hash, put_receiver, put_job_id, after_receiver_begin,
  after_configure, after_receiver_init, after_sink_init, after_job_id, handler_begin, report,
  handler_chunk, handler_finish, handler_abort,
}

inactive : (b : Bool) → not b ≡ true → b ≡ false
inactive b e = ground (arith, e)

module _ {S : Type 0} where
  -- An answer that is true exactly where the handler is then active.
  abbrev pub Tells : Bool × Win32ReceiveHandler S × Devices S → Type 0
  Tells (answer, handler, d) = handler.active ≡ answer

  put_receiver-active :
      (handler : Win32ReceiveHandler S) (r : Option (FileReceiver (Devices S)))
      → (put_receiver handler r).active ≡ handler.active
  put_receiver-active handler none = refl
  put_receiver-active handler (some r) = refl

  put_job_id-active :
      (handler : Win32ReceiveHandler S) (id : Option (List ℕ))
      → (put_job_id handler id).active ≡ handler.active
  put_job_id-active handler none = refl
  put_job_id-active handler (some id) = refl

  after_receiver_begin-Tells :
      (handler : Win32ReceiveHandler S) (o : Outcome (Devices S))
      → handler.active ≡ false
      → Tells (after_receiver_begin handler o)
  unfolding after_receiver_begin
  after_receiver_begin-Tells handler (FileReceiveResult.ok, r, d) e = refl
  after_receiver_begin-Tells handler (_, r, d) e = put_receiver-active handler r ∙ e

  report-active :
      (handler : Win32ReceiveHandler S) (o : Outcome (Devices S))
      → (report handler o).1.active ≡ handler.active
  unfolding report
  report-active handler (FileReceiveResult.ok, r, d) = put_receiver-active handler r
  report-active handler (_, r, d) = put_receiver-active handler r

module _ {S : Type 0} (system : System S) where
  after_configure-Tells :
      (handler : Win32ReceiveHandler S) (o : Outcome (Devices S))
      → handler.active ≡ false
      → Tells (after_configure system handler o)
  unfolding after_configure
  after_configure-Tells handler (FileReceiveResult.ok, r, d) e =
      after_receiver_begin-Tells handler (receiver_begin r d) e
  after_configure-Tells handler (_, r, d) e = put_receiver-active handler r ∙ e

  after_receiver_init-Tells :
      (handler : Win32ReceiveHandler S) (metadata : FileBegin) (o : Outcome (Devices S))
      → handler.active ≡ false
      → Tells (after_receiver_init system handler metadata o)
  unfolding after_receiver_init
  after_receiver_init-Tells handler metadata (FileReceiveResult.ok, r, d) e =
      after_configure-Tells handler
        (configure_integrity r (some (device_hash system)) (some metadata.sha256) d) e
  after_receiver_init-Tells handler metadata (_, r, d) e = put_receiver-active handler r ∙ e

  after_sink_init-Tells :
      (handler : Win32ReceiveHandler S) (metadata : FileBegin) (d : Devices S)
      (o : Win32SinkResult × FileSink × S)
      → handler.active ≡ false
      → Tells (after_sink_init system handler metadata d o)
  unfolding after_sink_init
  after_sink_init-Tells handler metadata d (Win32SinkResult.ok, sink, s) e =
      after_receiver_init-Tells handler metadata _ e
  after_sink_init-Tells handler metadata d (_, sink, s) e = e

  after_job_id-Tells :
      (handler : Win32ReceiveHandler S) (metadata : FileBegin) (name : List ℕ) (d : Devices S)
      (o : JobIdResult × Option (List ℕ) × S)
      → handler.active ≡ false
      → Tells (after_job_id system handler metadata name d o)
  unfolding after_job_id
  after_job_id-Tells handler metadata name d (JobIdResult.ok, id, s) e =
      after_sink_init-Tells (put_job_id handler id) metadata d _ (put_job_id-active handler id ∙ e)
  after_job_id-Tells handler metadata name d (_, id, s) e = put_job_id-active handler id ∙ e

  pub handler_begin-Tells :
      (metadata : FileBegin) (name : List ℕ) (handler : Win32ReceiveHandler S) (d : Devices S)
      → handler.active ≡ false
      → Tells (handler_begin system metadata name handler d)
  unfolding handler_begin
  handler_begin-Tells metadata name handler d e =
      if_cases Tells (not handler.initialized || handler.active) _ _ (λ f. e)
        (λ f. after_job_id-Tells handler metadata name d _ e)

  handler_chunk-active :
      (xs : List ℕ) (n : ℕ) (handler : Win32ReceiveHandler S) (d : Devices S)
      → (handler_chunk system xs n handler d).1.active ≡ handler.active
  unfolding handler_chunk
  handler_chunk-active xs n handler d =
      if_cases (λ (o : Bool × Win32ReceiveHandler S × Devices S). o.1.active ≡ handler.active)
        (not handler.active) _ _ (λ e. refl) (λ e. report-active handler _)

  pub handler_finish-active :
      (handler : Win32ReceiveHandler S) (d : Devices S)
      → (handler_finish system handler d).1.active ≡ false
  unfolding handler_finish
  handler_finish-active handler d =
      if_cases (λ (o : Bool × Win32ReceiveHandler S × Devices S). o.1.active ≡ false)
        (not handler.active) _ _ (λ e. inactive handler.active e)
        (λ e. report-active (record handler { active = false }) _)

  pub handler_abort-active :
      (handler : Win32ReceiveHandler S) (d : Devices S)
      → (handler_abort system handler d).0.active ≡ false
  unfolding handler_abort
  handler_abort-active handler d =
      if_cases (λ (o : Win32ReceiveHandler S × Devices S). o.0.active ≡ false) (not handler.active)
        _ _ (λ e. inactive handler.active e) (λ e. refl)
