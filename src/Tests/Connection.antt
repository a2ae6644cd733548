-- ===== src/Tests/Connection.antt =====
-- A transport at a concrete input; the world is whether the connection is open.
use printdrop.Prelude.{refl, Bool, true, false, none, some, List, [], ◌∷◌}
use printdrop.Transport.{TransportStatus, TransportOps}
use printdrop.Transport.Guard.{
  Call, opens, writes, reads, closes, over, IsGuarded, run, run-IsGuarded,
}

abbrev wire : TransportOps Bool
wire = record {
  open_connection = λ w. (TransportStatus.ok, true);
  write = λ b n w. (TransportStatus.ok, n, w);
  read = λ b n w. (TransportStatus.would_block, b, 0, w);
  close = λ w. false;
}

abbrev session_calls : List Call
session_calls =
    opens
    ∷ writes (some (7 ∷ [])) 1 (some 0)
    ∷ reads (some (9 ∷ [])) 1 none
    ∷ closes
    ∷ closes
    ∷ opens
    ∷ []

run-IsGuarded_example : IsGuarded wire (run session_calls (over wire false) (false, []))
run-IsGuarded_example =
    run-IsGuarded wire session_calls (over wire false) (false, []) (false, refl, refl)
