-- ===== src/Win32ReceiveHandler/Closing.antt =====
-- What the handler leaves open of the file and of the hash.
use printdrop.Prelude.{◌≡◌, Bool, true, false}
use printdrop.FileBegin.{FileBegin}
use printdrop.FileReceive.{FileReceiver}
use printdrop.FileReceive.Closing.{IsTidy}
use printdrop.Win32FileSink.{handle_is_open}
use printdrop.Win32ReceiveHandler.{Devices, Win32ReceiveHandler, System, device_sink, device_hash}

module _ {S : Type 0} (system : System S) where
  abbrev file_open : Devices S → Bool
  file_open d = handle_is_open d.sink

  abbrev hash_runs : Devices S → Bool
  hash_runs d = d.sha256.active

  -- Neither is the file open nor does the hash run.
  abbrev pub AllClosed : Devices S → Type 0
  AllClosed d = (handle_is_open d.sink ≡ false) × (d.sha256.active ≡ false)

  abbrev TidyReceiver : FileReceiver (Devices S) → Devices S → Type 0
  TidyReceiver = IsTidy file_open hash_runs (device_sink system) (device_hash system)

  -- Nothing is open while the handler is inactive; while it is active, its receiver will close what
  -- is open.
  pub record IsKept (w : Win32ReceiveHandler S × Devices S) : Type 0 where
    pub inactive : w.0.active ≡ false → AllClosed w.1
    pub active : w.0.active ≡ true → TidyReceiver w.0.receiver w.1

  -- The bytes of the file that an active handler receives are all there.
  abbrev pub AllThere : Win32ReceiveHandler S × Devices S → Type 0
  AllThere (handler, d) =
      handler.active ≡ true → handler.receiver.received_bytes ≡ handler.receiver.expected_bytes

  abbrev Kept : Bool × Win32ReceiveHandler S × Devices S → Type 0
  Kept (answer, handler, d) = IsKept (handler, d)
