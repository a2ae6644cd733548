-- ===== src/ReceiverProtocol/Invariant.antt =====
-- The invariant of the protocol against its handler, and which messages are accepted.
use printdrop.Prelude.{ℕ, ◌≡◌, Bool, true, false, some, List}
use printdrop.Protocol.{msg_file_begin, msg_chunk, msg_file_end}
use printdrop.FileBegin.{FileBegin}
use printdrop.ReceiverProtocol.{ProtocolState, ReceiverProtocolOps, ReceiverProtocol}

-- What the protocol relies on from a handler, of which can be seen whether it has a file open: a
-- begin with none open opens one or fails with none open, a write leaves it open, a finish that succeeds and an
-- abort close it. Nothing is said of what a failed finish leaves.
pub record HandlerLaws {W : Type 0} (is_open : W → Bool) (ops : ReceiverProtocolOps W)
    : Type 0 where
  pub begins :
      (f : FileBegin) (name : List ℕ) (w : W)
      → is_open w ≡ false
      → is_open (ops.begin_file f name w).1 ≡ (ops.begin_file f name w).0
  pub writes : (xs : List ℕ) (n : ℕ) (w : W) → is_open (ops.write_chunk xs n w).1 ≡ is_open w
  pub finishes : (w : W) → (ops.finish_file w).0 ≡ true → is_open (ops.finish_file w).1 ≡ false
  pub aborts : (w : W) → is_open (ops.abort_file w) ≡ false

abbrev pub is_receiving : ProtocolState → Bool
is_receiving ProtocolState.receiving = true
is_receiving _ = false

module _ {W : Type 0} (is_open : W → Bool) (ops : ReceiverProtocolOps W) where
  -- The flag is the truth, and is set in one state only.
  pub record IsSound (p : ReceiverProtocol W) (w : W) : Type 0 where
    pub table : p.ops ≡ some ops
    pub flag : is_open w ≡ p.file_active
    pub at_state : p.file_active ≡ is_receiving p.state

-- The messages that are accepted, and where each leads.
pub data Accepts {W : Type 0} (p : ReceiverProtocol W) (type : ℕ) (q : ReceiverProtocol W)
    : Type 0 where
  announced :
      p.state ≡ ProtocolState.wait_file
      → type ≡ msg_file_begin
      → q.state ≡ ProtocolState.receiving
      → Accepts p type q
  continued : p.state ≡ ProtocolState.receiving → type ≡ msg_chunk → q ≡ p → Accepts p type q
  ended :
      p.state ≡ ProtocolState.receiving
      → type ≡ msg_file_end
      → q.state ≡ ProtocolState.complete
      → Accepts p type q
