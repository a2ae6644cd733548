-- ===== src/Tests/Devices.antt =====
-- The Windows devices on a machine with one file, at concrete inputs.
use printdrop.Prelude.{
  ℕ, ◌+◌, suc, ◌-◌, ◌^◌, ◌≤◌, ◌≡◌, refl, true, false, none, some, List, [], ◌∷◌, ◌++◌, take,
  replicate, arith,
}
use printdrop.Bytes.Text.{codes, strlen, text_of}
use printdrop.FileBegin.{FileBegin}
use printdrop.FileReceive.{FileReceiver, FileReceiveState, FileSinkStatus}
use printdrop.Filename.Safe.{IsSafe}
use printdrop.JobId.{job_id_is_valid}
use printdrop.ReceiverProtocol.{ProtocolState, ProtocolResult, protocol_handle, protocol_abort}
use printdrop.Win32FileSink.{FileApi, FileSink, Win32SinkResult}
use printdrop.Win32FileSink.Init.{cleared_sink, sink_init}
use printdrop.Win32FileSink.Place.{IsPlaced}
use printdrop.Win32FileSink.Names.{wide_name, sink_init_ok}
use printdrop.Win32FileSink.Files.{SinkState, SinkCall, FileView, FileLaws, Stands, sink_call}
use printdrop.Win32FileSink.Runs.{here, then, AllowsRun, Answers-AllowsRun}
use printdrop.Resources.{Resource, algorithm, block, hash, Account, one, Keeps, Holds, take_off}
use printdrop.Win32Sha256.{
  CryptoApi, Sha256, sha256_begin, sha256_update, sha256_finish, sha256_abort,
}
use printdrop.Win32Sha256.Balance.{owned, LiveLaws, IsBalanced}
use printdrop.Win32Sha256.Release.{sha256-IsBalanced}
use printdrop.Win32ReceiveHandler.{
  Devices, Win32ReceiveHandler, System, device_sink, device_hash, zero_handler,
}
use printdrop.Win32ReceiveHandler.EarlyEnd.{file_end_header, protocol_at, early_end-keeps_open}

-- The path that the file was opened by, what is in it, and how many handles of the hash are open.
record Machine : Type 0 where
  name : List ℕ
  contents : List ℕ
  live : Account

abbrev files : FileApi Machine
files = record {
  get_file_attributes = λ path m. 0x10;
  create_directory = λ path m. (true, m);
  get_last_error = λ m. 0;
  create_new_file = λ path m. (7, record m { name = path; contents = [] });
  write_file = λ h xs n m. (true, n, record m { contents = m.contents ++ take n xs });
  flush_file_buffers = λ h m. (true, m);
  close_handle = λ h m. (true, m);
  move_file = λ from to m. (true, m);
  delete_file = λ path m. m;
  multi_byte_to_wide_char = λ xs n. (suc (strlen xs), text_of xs ++ 0 ∷ []);
}

abbrev view : FileView Machine
view = record { file = λ path m. m.contents; opened = λ h m. m.name }

files_laws : FileLaws files view
files_laws = record {
  directory_keeps = λ directory path m. refl;
  create_failed = λ path other m e. absurd (omega (arith, e));
  create_ok = λ path m e. (omega arith, refl, refl);
  write_ok = λ h xs n m e. (refl, refl);
  flush_keeps = λ h path m. refl;
  close_keeps = λ h path m. refl;
  move_ok = λ from to m e. refl;
}

abbrev with_one : Resource → Machine → Machine
with_one q m = record m { live = λ r. m.live r + one q r }

abbrev drop_one : Resource → Machine → Machine
drop_one q m = record m { live = λ r. m.live r - one q r }

abbrev crypto : CryptoApi Machine
crypto = record {
  open_algorithm_provider = λ m. (true, 11, with_one (algorithm 11) m);
  get_object_length = λ h m. (true, 100, 4, m);
  heap_alloc = λ n m. (12, with_one (block 12) m);
  create_hash = λ h p n m. (true, 13, with_one (hash 13) m);
  hash_data = λ h xs n m. (true, m);
  finish_hash = λ h m. (true, replicate 32 0, m);
  destroy_hash = λ h m. drop_one (hash h) m;
  heap_free = λ p m. drop_one (block p) m;
  close_algorithm_provider = λ h m. drop_one (algorithm h) m;
}

crypto_laws : LiveLaws crypto (λ m. m.live)
crypto_laws = record {
  open_ok = λ m e. (omega arith, λ r. refl);
  open_failed = λ m e. absurd (cc);
  property_keeps = λ h m r. refl;
  alloc_ok = λ n m e r. refl;
  alloc_failed = λ n m e. absurd (omega (arith, e));
  create_ok = λ h p n m e. (omega arith, λ r. refl);
  create_failed = λ h p n m e. absurd (cc);
  data_keeps = λ h xs n m r. refl;
  finish_keeps = λ h m r. refl;
  destroy_one = λ h m e r. take_off m.live (hash h) e r;
  free_one = λ p m e r. take_off m.live (block p) e r;
  close_one = λ h m e r. take_off m.live (algorithm h) e r;
}

-- A hash of somebody else's.
abbrev others : Account
others = one (hash 99)

abbrev running : Sha256
running = record {
  algorithm_handle = 11;
  hash_handle = 13;
  object_buffer = 12;
  object_length = 100;
  active = true;
}

abbrev machine : Machine
machine = record { name = []; contents = []; live = λ r. others r + owned running r }

abbrev root : List ℕ
root = codes "D:\\jobs" ++ 0 ∷ []

abbrev id : List ℕ
id = codes "0123456789abcdef0123456789abcdef" ++ 0 ∷ []

abbrev name : List ℕ
name = codes "a.txt" ++ 0 ∷ []

ready_init :
    (sink_init files cleared_sink (some root) (some id) (some name) machine).0 ≡ Win32SinkResult.ok
unfolding sink_init printdrop.Win32FileSink.Init.after_check
    printdrop.Win32FileSink.Init.check_names printdrop.Win32FileSink.Init.check_name
    printdrop.Win32FileSink.job_id_to_wide job_id_is_valid strlen printdrop.Hex.all_lower_hex
    printdrop.Hex.is_lower_hex_digit printdrop.Win32FileSink.Init.is_sanitized
    printdrop.Win32FileSink.Init.is_same_name printdrop.Filename.filename_sanitize
    printdrop.Filename.is_windows_reserved_device_name printdrop.Filename.ascii_equal_prefix
    printdrop.Filename.base_length printdrop.Filename.with_fallback printdrop.Filename.trimmed
    printdrop.Bytes.Text.mem_equal printdrop.Bytes.store printdrop.Filename.ascii_is_control
    printdrop.Filename.ascii_upper printdrop.Filename.equal_upper
    printdrop.Filename.is_numbered_device printdrop.Filename.is_windows_forbidden
    printdrop.Filename.put_name printdrop.Filename.replace_byte printdrop.Filename.trim_length
    printdrop.Win32FileSink.Init.after_root printdrop.Win32FileSink.Init.put_final_path
    printdrop.Win32FileSink.Init.put_job_directory printdrop.Win32FileSink.Init.put_staging_path
    printdrop.Win32FileSink.Init.staging_name printdrop.Win32FileSink.after_append
    printdrop.Win32FileSink.after_copy printdrop.Win32FileSink.append_component
    printdrop.Win32FileSink.copy_path printdrop.Win32FileSink.directory_exists
    printdrop.Win32FileSink.ensure_directory printdrop.Win32FileSink.put_path
ready_init = refl

sink_init_ok_example :
    IsPlaced
      (sink_init files cleared_sink (some root) (some id) (some name) machine).1
      (text_of root)
      (text_of id)
      (wide_name files name)
    × (job_id_is_valid (some id) ≡ true)
    × IsSafe (text_of name)
    × (strlen name ≤ 120)
sink_init_ok_example =
    sink_init_ok files cleared_sink root id name machine
      (omega arith, (omega arith, (omega arith, (omega arith, (omega arith, (omega arith, tt))))))
      ready_init

abbrev disk : FileSink
disk = record {
  file_handle = 2 ^ 64 - 1;
  job_directory = codes "D:\\jobs" ++ 0 ∷ [];
  staging_path = codes "D:\\jobs\\a.part" ++ 0 ∷ [];
  final_path = codes "D:\\jobs\\a" ++ 0 ∷ [];
  initialized = true;
}

-- A file begun, written and committed.
abbrev begun : FileSinkStatus × ℕ × FileSink × Machine
begun = sink_call files (SinkCall.begin 2) disk machine

abbrev put : FileSinkStatus × ℕ × FileSink × Machine
put = sink_call files (SinkCall.write (1 ∷ 2 ∷ []) 2) begun.2 begun.3

abbrev kept : FileSinkStatus × ℕ × FileSink × Machine
kept = sink_call files SinkCall.commit put.2 put.3

disk_closed : Stands view SinkState.closed disk machine
unfolding Stands printdrop.Win32FileSink.handle_is_open
disk_closed = refl

Answers-AllowsRun_example :
    (b : SinkState) × AllowsRun SinkState.closed
      ((SinkCall.commit, kept.0, kept.1)
        ∷ (SinkCall.write (1 ∷ 2 ∷ []) 2, put.0, put.1)
        ∷ (SinkCall.begin 2, begun.0, begun.1)
        ∷ [])
      b
    × Stands view b kept.2 kept.3
Answers-AllowsRun_example =
    Answers-AllowsRun files view files_laws SinkState.closed disk_closed
      (then SinkCall.commit (then (SinkCall.write (1 ∷ 2 ∷ []) 2) (then (SinkCall.begin 2) here)))

stored_whole : (kept.0 ≡ FileSinkStatus.ok) × (kept.3.contents ≡ 1 ∷ 2 ∷ [])
unfolding sink_call printdrop.Win32FileSink.sink_begin printdrop.Win32FileSink.handle_is_open
    printdrop.Win32FileSink.ensure_directory printdrop.Win32FileSink.after_ensure
    printdrop.Win32FileSink.after_create printdrop.Win32FileSink.sink_write
    printdrop.Win32FileSink.after_write_file printdrop.Win32FileSink.sink_commit
    printdrop.Win32FileSink.after_flush printdrop.Win32FileSink.after_close
    printdrop.Win32FileSink.after_move
stored_whole = (refl, refl)

running-IsBalanced : IsBalanced crypto (λ m. m.live) others running machine
running-IsBalanced = record {
  balance = λ r. refl;
  whole = λ e. (omega arith, omega arith, omega arith);
  empty = λ e. absurd (cc);
}

sha256-IsBalanced_example :
    IsBalanced crypto
      (λ m. m.live)
      others
      (sha256_begin crypto running machine).1
      (sha256_begin crypto running machine).2
    × Keeps (λ m. m.live) machine (sha256_update crypto running (1 ∷ []) 1 machine).1
    × (Holds (λ m. m.live) (sha256_finish crypto running [] machine).3 others
        × ((sha256_finish crypto running [] machine).2.active ≡ false))
    × (Holds (λ m. m.live) (sha256_abort crypto running machine).1 others
        × ((sha256_abort crypto running machine).0.active ≡ false))
sha256-IsBalanced_example =
    sha256-IsBalanced crypto (λ m. m.live) crypto_laws others running (1 ∷ []) [] 1 machine
      running-IsBalanced

abbrev windows : System Machine
windows = record { files = files; crypto = crypto; gen_random = λ n m. (true, replicate n 7, m) }

-- A file of five bytes, of which three are there.
abbrev half_received : FileReceiver (Devices Machine)
half_received = record {
  sink_ops = some (device_sink windows);
  integrity_ops = none;
  expected_sha256 = replicate 32 0;
  expected_bytes = 5;
  received_bytes = 3;
  state = FileReceiveState.receiving;
  sink_started = true;
  integrity_configured = false;
  integrity_started = false;
}

abbrev busy : Win32ReceiveHandler Machine
busy = record zero_handler { receiver = half_received; initialized = true; active = true }

abbrev given_up : Win32ReceiveHandler Machine
given_up = record zero_handler { receiver = half_received; initialized = true }

abbrev devices : Devices Machine
devices = record { sink = record disk { file_handle = 7 }; sha256 = running; system = machine }

abbrev file : FileBegin
file = record { file_size = 5; sha256 = replicate 32 0; filename = name }

-- The same file with all its bytes there and a hash.
abbrev full : FileReceiver (Devices Machine)
full = record half_received {
  received_bytes = 5;
  integrity_ops = some (device_hash windows);
  integrity_configured = true;
  integrity_started = true;
}

abbrev full_handler : Win32ReceiveHandler Machine
full_handler = record busy { receiver = full }

early_end-keeps_open_example :
    (protocol_handle
        (some (protocol_at windows ProtocolState.receiving true file name))
        (some file_end_header)
        none
        0
        (busy, devices)
      ≡ (
        ProtocolResult.handler_error,
        some (protocol_at windows ProtocolState.failed false file name),
        (given_up, devices),
      ))
    × (protocol_abort
          (some (protocol_at windows ProtocolState.failed false file name))
          (given_up, devices)
        ≡ (some (protocol_at windows ProtocolState.failed false file name), (given_up, devices)))
early_end-keeps_open_example =
    early_end-keeps_open windows file name busy devices refl refl (omega arith)
