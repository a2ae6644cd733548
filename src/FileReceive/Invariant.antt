-- ===== src/FileReceive/Invariant.antt =====
-- The invariant of a file receiver against its sink and its hash, and that each operation keeps it.
use printdrop.Prelude.{
  ℕ, ◌^◌, ◌≤◌, ◌<◌, ◌≡◌, refl, subst, not, ◌∙◌, Bool, true, false, Option, none, some,
  if◌then◌else◌, List, length, arith,
}
use printdrop.Integrity.{IntegrityOps, digest_equal}
use printdrop.FileReceive.{
  FileSinkOps, FileReceiveState, FileReceiveResult, FileReceiver, Outcome, is_idle, is_receiving,
  sink_of, integrity_of, abort_resources, receiver_fail,
}
use printdrop.FileReceive.Laws.{View, SinkLaws, HashLaws}

pub idle_of : (x : FileReceiveState) → not (is_idle x) ≡ false → x ≡ FileReceiveState.idle
idle_of x = ground arith

pub receiving_of :
    (x : FileReceiveState) → not (is_receiving x) ≡ false → x ≡ FileReceiveState.receiving
receiving_of x = ground arith

module _ {W : Type 0} (v : View W) (sha : List ℕ → List ℕ) where
  -- What is true in each state, besides the two resources.
  abbrev pub IsAt : FileReceiveState → FileReceiver W → W → Type 0
  IsAt FileReceiveState.idle r w =
      (r.sink_started ≡ false) × (r.integrity_started ≡ false) × (r.received_bytes ≡ 0)
  IsAt FileReceiveState.receiving r w =
      (r.sink_started ≡ true)
      × (r.integrity_started ≡ r.integrity_configured)
      × (length (v.contents w) ≡ r.received_bytes)
      × (r.received_bytes ≤ r.expected_bytes)
      × (r.integrity_configured ≡ true → v.hashed w ≡ v.contents w)
  IsAt FileReceiveState.complete r w =
      (r.sink_started ≡ false)
      × (r.integrity_started ≡ false)
      × (length (v.contents w) ≡ r.expected_bytes)
      × (r.integrity_configured ≡ true
          → digest_equal (some (sha (v.contents w))) (some r.expected_sha256) ≡ true)
  IsAt _ r w = (r.sink_started ≡ false) × (r.integrity_started ≡ false)

  module _ (sink : FileSinkOps W) (hash : IntegrityOps W) where
    -- The receiver uses this sink and, where a digest is configured, this hash.
    pub record Uses (r : FileReceiver W) : Type 0 where
      pub sink_table : r.sink_ops ≡ some sink
      pub hash_table : r.integrity_configured ≡ true → r.integrity_ops ≡ some hash
      pub in_range : r.expected_bytes < 2 ^ 64

    -- The flags are the truth about the two resources, and the state's facts hold.
    pub record IsSound (r : FileReceiver W) (w : W) : Type 0 where
      pub uses : Uses r
      pub sink_flag : v.is_open w ≡ r.sink_started
      pub hash_flag : v.is_running w ≡ r.integrity_started
      pub at_state : IsAt r.state r w

    -- What an operation leaves is sound.
    unfoldable pub Leaves : Outcome W → Type 0
    Leaves (result, none, w) = Unit
    Leaves (result, some r, w) = IsSound r w

    pub if-Leaves :
        (b : Bool) (x y : Outcome W)
        → (b ≡ true → Leaves x)
        → (b ≡ false → Leaves y)
        → Leaves (if b then x else y)
    if-Leaves true x y p q = p refl
    if-Leaves false x y p q = q refl

    pub kept :
        (result : FileReceiveResult) (r : FileReceiver W) (w : W)
        → IsSound r w
        → Leaves (result, some r, w)
    unfolding Leaves
    kept result r w i = i

    module _ (s : SinkLaws v sink) (h : HashLaws v sha hash) where
      stop_hash :
          (b : Bool) (t : Option (IntegrityOps W)) (w : W)
          → (b ≡ true → t ≡ some hash)
          → (b ≡ false → v.is_running w ≡ false)
          → (v.is_running (if b then (integrity_of t).abort w else w) ≡ false)
            × (v.is_open (if b then (integrity_of t).abort w else w) ≡ v.is_open w)
      stop_hash true t w e k = rw (e refl) (h.abort_stops w, (h.abort_sink w).is_open)
      stop_hash false t w e k = (k refl, refl)

      pub stop_sink :
          (b : Bool) (t : Option (FileSinkOps W)) (w : W)
          → t ≡ some sink
          → (b ≡ false → v.is_open w ≡ false)
          → (v.is_open (if b then (sink_of t).abort w else w) ≡ false)
            × (v.is_running (if b then (sink_of t).abort w else w) ≡ v.is_running w)
      stop_sink true t w e k = rw e (s.abort_closes w, (s.abort_hash w).is_running)
      stop_sink false t w e k = (k refl, refl)

      -- Whatever an operation of the two has left, aborting closes both.
      pub abort_resources-closed :
          (r : FileReceiver W) (w : W)
          → Uses r
          → (r.integrity_started ≡ true → r.integrity_configured ≡ true)
          → (r.sink_started ≡ false → v.is_open w ≡ false)
          → (r.integrity_started ≡ false → v.is_running w ≡ false)
          → (v.is_open (abort_resources r w).1 ≡ false)
            × (v.is_running (abort_resources r w).1 ≡ false)
      unfolding abort_resources
      abort_resources-closed r w u c o k =
          let w' = if r.integrity_started then (integrity_of r.integrity_ops).abort w else w in
          let (stopped, same) =
            stop_hash r.integrity_started r.integrity_ops w (λ e. u.hash_table (c e)) k in
          let (closed, kept) =
            stop_sink r.sink_started r.sink_ops w' u.sink_table (λ e. same ∙ o e) in
          (closed, kept ∙ stopped)

      pub fail-Leaves :
          (r : FileReceiver W) (result : FileReceiveResult) (w : W)
          → Uses r
          → (r.integrity_started ≡ true → r.integrity_configured ≡ true)
          → (r.sink_started ≡ false → v.is_open w ≡ false)
          → (r.integrity_started ≡ false → v.is_running w ≡ false)
          → Leaves (receiver_fail r result w)
      unfolding receiver_fail abort_resources Leaves
      fail-Leaves r result w u c o k =
          let (closed, stopped) = abort_resources-closed r w u c o k in
          record {
            uses = record {
              sink_table = u.sink_table;
              hash_table = u.hash_table;
              in_range = u.in_range;
            };
            sink_flag = closed;
            hash_flag = stopped;
            at_state = (refl, refl);
          }

      pub is_at :
          (x : FileReceiveState) (r : FileReceiver W) (w : W)
          → IsSound r w
          → r.state ≡ x
          → IsAt x r w
      is_at x r w i e = subst (λ y. IsAt y r w) e i.at_state
