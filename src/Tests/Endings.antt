-- ===== src/Tests/Endings.antt =====
-- A loop on a connection with a queue of frames.
use printdrop.Prelude.{
  ℕ, zero, suc, ◌<◌, ◌≡◌, refl, Bool, true, false, Option, none, some, replicate, arith,
}
use printdrop.ReceiverProtocol.{ProtocolState, ReceiverProtocol, ReceiverProtocolOps, no_file}
use printdrop.ReceiverProtocol.Invariant.{HandlerLaws}
use printdrop.ReceiverLoop.{LoopIoOps, ReceiverLoop, Received, receiver_loop_run}
use printdrop.ReceiverLoop.Round.{KeepsFile}
use printdrop.ReceiverLoop.Total.{IsBounded, IsEnded, receiver_loop_run-IsEnded}

-- The frames that are left, and whether a file is open.
abbrev Queue : Type 0
Queue = ℕ × Bool

abbrev willing : ReceiverProtocolOps Queue
willing = record {
  begin_file = λ f name w. (true, (w.0, true));
  write_chunk = λ xs n w. (true, w);
  finish_file = λ w. (true, (w.0, false));
  abort_file = λ w. (w.0, false);
}

willing_laws : HandlerLaws (λ (w : Queue). w.1) willing
willing_laws = record {
  begins = λ f name w o. refl;
  writes = λ xs n w. refl;
  finishes = λ w e. refl;
  aborts = λ w. refl;
}

abbrev waiting_protocol : ReceiverProtocol Queue
waiting_protocol = record {
  ops = some willing;
  current_file = no_file;
  sanitized_filename = replicate 121 0;
  state = ProtocolState.wait_file;
  file_active = false;
}

-- A FILE_END, as long as frames are left.
abbrev next_frame : Queue → Option Received × Queue
next_frame (zero, b) = (none, (zero, b))
next_frame (suc n, b) = (
  some (record {
    header = record { type = 5; flags = 0; payload_length = 0 };
    payload = none;
    payload_size = 0;
  }),
  (n, b),
)

abbrev io : LoopIoOps Queue
io = record { receive_frame = next_frame; send_frame = λ header xs n w. (true, w) }

abbrev loop : ReceiverLoop Queue
loop = record {
  io_ops = some io;
  protocol = some waiting_protocol;
  progress = none;
  event_callback = none;
}

next_frame_keeps : (w : Queue) → (next_frame w).1.1 ≡ w.1
next_frame_keeps (zero, b) = refl
next_frame_keeps (suc n, b) = refl

io_keeps : KeepsFile (λ (w : Queue). w.1) loop io
io_keeps = record {
  receives = next_frame_keeps;
  sends = λ header xs n w. refl;
  progresses = λ f w e. absurd (cc);
  reports = λ f event a b w e. absurd (cc);
}

next_frame_fewer :
    (w : Queue) (frame : Received) → (next_frame w).0 ≡ some frame → (next_frame w).1.0 < w.0
next_frame_fewer (zero, b) frame e = absurd (cc)
next_frame_fewer (suc n, b) frame e = omega arith

io_bounded : IsBounded (λ (w : Queue). w.1) (λ (w : Queue). w.0) willing loop io
io_bounded = record {
  receives = next_frame_fewer;
  keeps = λ n. record {
    begins = λ f name w h. h;
    writes = λ xs k w h. h;
    finishes = λ w h. h;
    aborts = λ w h. h;
    sends = λ header xs k w h. h;
    progresses = λ f w e h. absurd (cc);
    reports = λ f event a b w e h. absurd (cc);
  };
}

receiver_loop_run-IsEnded_example :
    IsEnded
      (λ (w : Queue). w.1)
      (λ (w : Queue). w.0)
      willing
      loop
      io
      (receiver_loop_run 5 (some loop) (4, false))
receiver_loop_run-IsEnded_example =
    receiver_loop_run-IsEnded (λ (w : Queue). w.1) (λ (w : Queue). w.0) willing loop io willing_laws
      io_keeps io_bounded 5 waiting_protocol (4, false) refl refl
      (record { table = refl; flag = refl; at_state = refl }) (omega arith)
