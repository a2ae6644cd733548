-- ===== src/FileReceive/Closing.antt =====
-- What a file receiver leaves open, told of any sink and hash of which can be seen whether they are
-- open, whatever they hold.
pub mod Write
pub mod End
pub mod Begin
use printdrop.Prelude.{
  ℕ, ◌-◌, ◌≡◌, ◌≢◌, refl, sym, subst, ◌∙◌, ap, Bool, true, false, true-ne-false, if_cases, not,
  ◌||◌, ◌==◌, Option, none, some, if◌then◌else◌, List, ltb, arith,
}
use printdrop.Integrity.{IntegrityOps, IntegrityStatus, digest_equal}
use printdrop.Frame.{frame_max_payload}
use printdrop.FileReceive.{
  FileSinkOps, FileSinkStatus, FileReceiveState, FileReceiveResult, FileReceiver, Outcome, is_idle,
  is_receiving, sink_is_configured, sink_of, integrity_of, abort_resources, receiver_fail,
  after_hash_begin, after_sink_begin, receiver_begin, after_update, after_sink_write, write_chunk,
  receiver_write, after_commit, after_digest, receiver_finish, receiver_abort,
}
use printdrop.FileReceive.Invariant.{receiving_of}

pub not_receiving :
    (x : FileReceiveState) → not (is_receiving x) ≡ true → x ≢ FileReceiveState.receiving
not_receiving x e = ground arith

-- What each operation of a sink and of a hash does to what is open. Only aborting closes in any
-- case; a begin that fails opens nothing, a commit or a finish that succeeds closes.
pub record CloseLaws {W : Type 0} (is_open is_running : W → Bool) (sink : FileSinkOps W)
    (hash : IntegrityOps W) : Type 0 where
  pub begin_failed :
      (n : ℕ) (w : W)
      → is_open w ≡ false
      → (sink.begin n w).0 ≡ FileSinkStatus.io_error
      → is_open (sink.begin n w).1 ≡ false
  pub begin_hash : (n : ℕ) (w : W) → is_running (sink.begin n w).1 ≡ is_running w
  pub write_hash : (xs : List ℕ) (n : ℕ) (w : W) → is_running (sink.write xs n w).2 ≡ is_running w
  pub commit_ok :
      (w : W) → (sink.commit w).0 ≡ FileSinkStatus.ok → is_open (sink.commit w).1 ≡ false
  pub commit_hash : (w : W) → is_running (sink.commit w).1 ≡ is_running w
  pub abort_closes : (w : W) → is_open (sink.abort w) ≡ false
  pub abort_hash : (w : W) → is_running (sink.abort w) ≡ is_running w
  pub hash_begin_failed :
      (w : W)
      → is_running w ≡ false
      → (hash.begin w).0 ≡ IntegrityStatus.error
      → is_running (hash.begin w).1 ≡ false
  pub update_hash : (xs : List ℕ) (n : ℕ) (w : W) → is_running (hash.update xs n w).1 ≡ is_running w
  pub finish_ok :
      (w : W) → (hash.finish w).0 ≡ IntegrityStatus.ok → is_running (hash.finish w).2 ≡ false
  pub abort_stops : (w : W) → is_running (hash.abort w) ≡ false

module _ {W : Type 0} (is_open is_running : W → Bool) (sink : FileSinkOps W)
    (hash : IntegrityOps W) where
  abbrev pub Closed : W → Type 0
  Closed w = (is_open w ≡ false) × (is_running w ≡ false)

  -- The receiver uses this sink and this hash, and aborting it will stop the hash where it runs.
  pub record Tracks (r : FileReceiver W) (w : W) : Type 0 where
    pub sink_table : r.sink_ops ≡ some sink
    pub hash_table : r.integrity_configured ≡ true → r.integrity_ops ≡ some hash
    pub configured : r.integrity_started ≡ true → r.integrity_configured ≡ true
    pub stopped : r.integrity_started ≡ false → is_running w ≡ false

  -- A receiver that has begun: while it receives, it will abort the sink; afterwards nothing is
  -- open.
  pub record IsTidy (r : FileReceiver W) (w : W) : Type 0 where
    pub tracks : Tracks r w
    pub receiving : r.state ≡ FileReceiveState.receiving → r.sink_started ≡ true
    pub over : r.state ≢ FileReceiveState.receiving → Closed w

  -- What an operation of a receiver that has begun leaves.
  unfoldable pub Leaves : Outcome W → Type 0
  Leaves (result, none, w) = ⊥
  Leaves (result, some r, w) = IsTidy r w

  unfoldable pub Ends : Outcome W → Type 0
  Ends (result, r, w) = Closed w

  module _ (laws : CloseLaws is_open is_running sink hash) where
    stop_hash :
        (b : Bool) (t : Option (IntegrityOps W)) (w : W)
        → (b ≡ true → t ≡ some hash)
        → (b ≡ false → is_running w ≡ false)
        → is_running (if b then (integrity_of t).abort w else w) ≡ false
    stop_hash true t w e k = rw (e refl) (laws.abort_stops w)
    stop_hash false t w e k = k refl

    pub abort-Closed :
        (r : FileReceiver W) (w : W)
        → Tracks r w
        → r.sink_started ≡ true
        → Closed (abort_resources r w).1
    unfolding abort_resources
    abort-Closed r w t b =
        let w' = if r.integrity_started then (integrity_of r.integrity_ops).abort w else w in
        let stopped =
          stop_hash r.integrity_started r.integrity_ops w (λ e. t.hash_table (t.configured e))
            t.stopped in
        rw (b, t.sink_table) (laws.abort_closes w', laws.abort_hash w' ∙ stopped)

    pub fail-Ends :
        (r : FileReceiver W) (result : FileReceiveResult) (w : W)
        → Tracks r w
        → r.sink_started ≡ true
        → Ends (receiver_fail r result w)
    unfolding receiver_fail Ends
    fail-Ends r result w t b = abort-Closed r w t b

    pub fail-Leaves :
        (r : FileReceiver W) (result : FileReceiveResult) (w : W)
        → Tracks r w
        → r.sink_started ≡ true
        → Leaves (receiver_fail r result w)
    unfolding receiver_fail abort_resources Leaves
    fail-Leaves r result w t b =
        let closed = abort-Closed r w t b in
        record {
          tracks = record {
            sink_table = t.sink_table;
            hash_table = t.hash_table;
            configured = λ e. absurd (true-ne-false (sym e));
            stopped = λ e. closed.1;
          };
          receiving = λ e. absurd (cc);
          over = λ e. closed;
        }

    pub if-Leaves :
        (b : Bool) (x y : Outcome W)
        → (b ≡ true → Leaves x)
        → (b ≡ false → Leaves y)
        → Leaves (if b then x else y)
    if-Leaves b x y p q = if_cases Leaves b x y p q

    pub same_hash-Tracks :
        (r : FileReceiver W) (w w' : W) → Tracks r w → is_running w' ≡ is_running w → Tracks r w'
    same_hash-Tracks r w w' t e = record {
      sink_table = t.sink_table;
      hash_table = t.hash_table;
      configured = t.configured;
      stopped = λ f. e ∙ t.stopped f;
    }
