-- ===== src/Tests/Files.antt =====
-- Receiving a file of two bytes into a list, with a toy hash.
use printdrop.Prelude.{
  ℕ, zero, suc, ◌%◌, ◌<◌, ◌≡◌, refl, Bool, true, false, some, List, [], ◌∷◌, ◌++◌, length, take,
  replicate, All, arith,
}
use printdrop.Bytes.{IsByte}
use printdrop.Frame.{FrameHeader}
use printdrop.Integrity.{IntegrityOps, IntegrityStatus, digest_equal, digest_difference}
use printdrop.FileReceive.{
  FileSinkOps, FileSinkStatus, FileReceiveState, FileReceiveResult, FileReceiver, receiver_begin,
  after_sink_begin, after_hash_begin, receiver_write, write_chunk, after_sink_write, after_update,
  receiver_finish, after_digest, after_commit,
}
use printdrop.FileReceive.Laws.{View, SinkLaws, HashLaws, IsDigest}
use printdrop.FileReceive.Invariant.{IsSound}
use printdrop.FileReceive.Run.{
  Reach, here, next, begins, writes, finishes, receiver_finish_ok, receiver-releases,
}
use printdrop.ReceiverProtocol.{
  ProtocolState, ProtocolResult, ReceiverProtocolOps, ReceiverProtocol, no_file, protocol_handle,
  handle_message, write_chunk as protocol_write, after_write, protocol_abort,
}
use printdrop.Protocol.{message_type_is_valid}
use printdrop.ReceiverProtocol.Invariant.{HandlerLaws, Accepts, is_receiving}
use printdrop.ReceiverProtocol.Handle.{protocol_handle-IsSound}

record Disk : Type 0 where
  stored : List ℕ
  read : List ℕ
  is_open : Bool
  is_running : Bool

abbrev disk_view : View Disk
disk_view = record {
  contents = λ d. d.stored;
  hashed = λ d. d.read;
  is_open = λ d. d.is_open;
  is_running = λ d. d.is_running;
}

abbrev disk_sink : FileSinkOps Disk
disk_sink = record {
  begin = λ n d. (FileSinkStatus.ok, record d { stored = []; is_open = true });
  write = λ xs n d. (FileSinkStatus.ok, n, record d { stored = d.stored ++ take n xs });
  commit = λ d. (FileSinkStatus.ok, record d { is_open = false });
  abort = λ d. record d { is_open = false };
}

abbrev toy_sha : List ℕ → List ℕ
toy_sha xs = replicate 32 (length xs % 256)

abbrev disk_hash : IntegrityOps Disk
disk_hash = record {
  begin = λ d. (IntegrityStatus.ok, record d { read = []; is_running = true });
  update = λ xs n d. (IntegrityStatus.ok, record d { read = d.read ++ take n xs });
  finish = λ d. (IntegrityStatus.ok, toy_sha d.read, record d { is_running = false });
  abort = λ d. record d { is_running = false };
}

disk_sink_laws : SinkLaws disk_view disk_sink
disk_sink_laws = record {
  begin_ok = λ n d e. (refl, refl);
  begin_failed = λ n d o e. cc;
  write_ok = λ xs n d e f. (refl, refl);
  commit_ok = λ d e. (refl, refl);
  abort_closes = λ d. refl;
  begin_hash = λ n d. record { hashed = refl; is_running = refl };
  write_hash = λ xs n d. record { hashed = refl; is_running = refl };
  commit_hash = λ d. record { hashed = refl; is_running = refl };
  abort_hash = λ d. record { hashed = refl; is_running = refl };
}

disk_hash_laws : HashLaws disk_view toy_sha disk_hash
disk_hash_laws = record {
  begin_ok = λ d e. (refl, refl);
  begin_failed = λ d o e. cc;
  update_ok = λ xs n d e. (refl, refl);
  finish_ok = λ d e. (refl, refl);
  abort_stops = λ d. refl;
  begin_sink = λ d. record { contents = refl; is_open = refl };
  update_sink = λ xs n d. record { contents = refl; is_open = refl };
  finish_sink = λ d. record { contents = refl; is_open = refl };
  abort_sink = λ d. record { contents = refl; is_open = refl };
}

replicate-IsByte : (n b : ℕ) → b < 256 → All IsByte (replicate n b)
replicate-IsByte zero b h = tt
replicate-IsByte (suc n) b h = (h, replicate-IsByte n b h)

toy_sha-IsDigest : (xs : List ℕ) → IsDigest (toy_sha xs)
toy_sha-IsDigest xs = record {
  bytes = replicate-IsByte 32 (length xs % 256) (omega arith);
  size = refl;
}

abbrev empty_disk : Disk
empty_disk = record { stored = []; read = []; is_open = false; is_running = false }

abbrev two_digest : List ℕ
two_digest = replicate 32 2

-- A receiver of two bytes in a given state of its life.
abbrev receiver_of : FileReceiveState → ℕ → Bool → Bool → FileReceiver Disk
receiver_of state received sink_started integrity_started = record {
  sink_ops = some disk_sink;
  integrity_ops = some disk_hash;
  expected_sha256 = two_digest;
  expected_bytes = 2;
  received_bytes = received;
  state = state;
  sink_started = sink_started;
  integrity_configured = true;
  integrity_started = integrity_started;
}

abbrev start : FileReceiver Disk
start = receiver_of FileReceiveState.idle 0 false false

abbrev two_bytes : List ℕ
two_bytes = 7 ∷ 8 ∷ []

abbrev open_disk : List ℕ → Disk
open_disk xs = record { stored = xs; read = xs; is_open = true; is_running = true }

abbrev full_disk : Disk
full_disk = record { stored = two_bytes; read = two_bytes; is_open = false; is_running = false }

start-IsSound : IsSound disk_view toy_sha disk_sink disk_hash start empty_disk
start-IsSound = record {
  uses = record { sink_table = refl; hash_table = λ e. refl; in_range = omega arith };
  sink_flag = refl;
  hash_flag = refl;
  at_state = (refl, refl, refl);
}

two_written :
    Reach disk_hash start empty_disk
      (receiver_of FileReceiveState.receiving 2 true true)
      (open_disk two_bytes)
unfolding receiver_begin after_sink_begin after_hash_begin receiver_write write_chunk
    after_sink_write after_update
two_written =
    next (next here (begins FileReceiveResult.ok refl))
      (writes FileReceiveResult.ok two_bytes 2 (omega arith) refl)

two_finish :
    receiver_finish
      (some (receiver_of FileReceiveState.receiving 2 true true))
      (open_disk two_bytes)
    ≡ (FileReceiveResult.ok, some (receiver_of FileReceiveState.complete 2 false false), full_disk)
unfolding receiver_finish after_digest after_commit digest_equal digest_difference
two_finish = refl

receiver_finish_ok_example :
    (length two_bytes ≡ 2) × (true ≡ true → toy_sha two_bytes ≡ two_digest) × (false ≡ false)
receiver_finish_ok_example =
    receiver_finish_ok disk_view toy_sha disk_sink disk_hash disk_sink_laws disk_hash_laws start
      (receiver_of FileReceiveState.receiving 2 true true)
      (receiver_of FileReceiveState.complete 2 false false) empty_disk (open_disk two_bytes)
      full_disk start-IsSound two_written two_finish toy_sha-IsDigest
      (record { bytes = replicate-IsByte 32 2 (omega arith); size = refl })

receiver-releases_example : (false ≡ false) × (false ≡ false)
receiver-releases_example =
    receiver-releases disk_view toy_sha disk_sink disk_hash disk_sink_laws disk_hash_laws start
      (receiver_of FileReceiveState.complete 2 false false) empty_disk full_disk start-IsSound
      (next two_written (finishes FileReceiveResult.ok two_finish)) (λ e. cc)

-- A handler that accepts everything; its world is whether it has a file open.
abbrev agreeable : ReceiverProtocolOps Bool
agreeable = record {
  begin_file = λ f name w. (true, true);
  write_chunk = λ xs n w. (true, w);
  finish_file = λ w. (true, false);
  abort_file = λ w. false;
}

agreeable_laws : HandlerLaws (λ w. w) agreeable
agreeable_laws = record {
  begins = λ f name w o. refl;
  writes = λ xs n w. refl;
  finishes = λ w e. refl;
  aborts = λ w. refl;
}

abbrev receiving_protocol : ReceiverProtocol Bool
receiving_protocol = record {
  ops = some agreeable;
  current_file = no_file;
  sanitized_filename = replicate 121 0;
  state = ProtocolState.receiving;
  file_active = true;
}

abbrev chunk_header : FrameHeader
chunk_header = record { type = 4; flags = 0; payload_length = 2 }

abbrev IsOpenSound : ReceiverProtocol Bool → Bool → Type 0
IsOpenSound p w = printdrop.ReceiverProtocol.Invariant.IsSound (λ w. w) agreeable p w

receiving-IsSound : IsOpenSound receiving_protocol true
receiving-IsSound = record { table = refl; flag = refl; at_state = refl }

chunk_handled :
    protocol_handle (some receiving_protocol) (some chunk_header) (some two_bytes) 2 true
    ≡ (ProtocolResult.ok, some receiving_protocol, true)
unfolding protocol_handle handle_message protocol_write after_write message_type_is_valid
chunk_handled = refl

protocol_handle-IsSound_example :
    IsOpenSound receiving_protocol true
    × (ProtocolResult.ok ≡ ProtocolResult.ok → Accepts receiving_protocol 4 receiving_protocol)
protocol_handle-IsSound_example =
    protocol_handle-IsSound (λ w. w) agreeable agreeable_laws receiving_protocol receiving_protocol
      chunk_header (some two_bytes) 2 true true ProtocolResult.ok receiving-IsSound chunk_handled
