-- ===== src/FileReceive/Run.antt =====
-- Runs of a file receiver: what is stored when `finish` succeeds, and that nothing stays open.
use printdrop.Prelude.{
  ℕ, ◌≤◌, ◌≡◌, ◌≢◌, refl, subst, ◌∙◌, ap, Bool, true, false, not, ◌==◌, if◌then◌else◌, Option, some,
  List, length,
}
use printdrop.Integrity.{IntegrityOps, IntegrityStatus, digest_equal}
use printdrop.Integrity.Digest.{digest_equal_iff}
use printdrop.FileReceive.{
  FileSinkOps, FileReceiveState, FileReceiveResult, FileReceiver, Outcome, FileSinkStatus,
  is_receiving, sink_of, integrity_of, after_commit, after_digest, receiver_fail,
  configure_integrity, receiver_begin, receiver_write, receiver_finish, receiver_abort,
}
use printdrop.FileReceive.Laws.{View, SinkLaws, HashLaws, IsDigest}
use printdrop.FileReceive.Invariant.{IsSound, IsAt, Leaves, is_at}
use printdrop.FileReceive.Begin.{receiver_begin-IsSound, configure_integrity-IsSound}
use printdrop.FileReceive.Write.{receiver_write-IsSound}
use printdrop.FileReceive.Finish.{receiver_finish-IsSound, receiver_abort-IsSound}

module _ {W : Type 0} (hash : IntegrityOps W) where
  -- One call on a receiver, whatever it answers. A write is given as many bytes as it says.
  pub data Step (r : FileReceiver W) (w : W) : FileReceiver W → W → Type 0 where
    configures :
        {t : FileReceiver W} {w' : W} (expected : Option (List ℕ)) (result : FileReceiveResult)
        → configure_integrity (some r) (some hash) expected w ≡ (result, some t, w')
        → Step r w t w'
    begins :
        {t : FileReceiver W} {w' : W} (result : FileReceiveResult)
        → receiver_begin (some r) w ≡ (result, some t, w')
        → Step r w t w'
    writes :
        {t : FileReceiver W} {w' : W} (result : FileReceiveResult) (xs : List ℕ) (n : ℕ)
        → n ≤ length xs
        → receiver_write (some r) (some xs) n w ≡ (result, some t, w')
        → Step r w t w'
    finishes :
        {t : FileReceiver W} {w' : W} (result : FileReceiveResult)
        → receiver_finish (some r) w ≡ (result, some t, w')
        → Step r w t w'
    aborts :
        {t : FileReceiver W} {w' : W} → receiver_abort (some r) w ≡ (some t, w') → Step r w t w'

  pub data Reach (r : FileReceiver W) (w : W) : FileReceiver W → W → Type 0 where
    here : Reach r w r w
    next : {t u : FileReceiver W} {w' w'' : W} → Reach r w t w' → Step t w' u w'' → Reach r w u w''

-- An operation that answers `ok` here has completed.
unfoldable Completes : {W : Type 0} → Outcome W → Type 0
Completes (FileReceiveResult.ok, some t, w) = t.state ≡ FileReceiveState.complete
Completes _ = Unit

if-Completes :
    {W : Type 0} (b : Bool) (x y : Outcome W)
    → Completes x
    → Completes y
    → Completes (if b then x else y)
if-Completes true x y p q = p
if-Completes false x y p q = q

refused :
    {W : Type 0} (result : FileReceiveResult) (o : Option (FileReceiver W)) (w : W)
    → result ≢ FileReceiveResult.ok
    → Completes (result, o, w)
unfolding Completes
refused FileReceiveResult.ok o w n = absurd (n refl)
refused _ o w n = tt

after_commit-Completes :
    {W : Type 0} (r : FileReceiver W) (x : FileSinkStatus × W) → Completes (after_commit r x)
unfolding after_commit receiver_fail Completes
after_commit-Completes r (FileSinkStatus.ok, w) = refl
after_commit-Completes r (FileSinkStatus.io_error, w) = tt

after_digest-Completes :
    {W : Type 0} (r : FileReceiver W) (x : IntegrityStatus × List ℕ × W)
    → Completes (after_digest r x)
unfolding after_digest receiver_fail
after_digest-Completes r (IntegrityStatus.error, actual, w) =
    refused FileReceiveResult.integrity_error _ _ (λ e. cc)
after_digest-Completes r (IntegrityStatus.ok, actual, w) =
    let hashed = record r { integrity_started = false } in
    if-Completes (not (digest_equal (some actual) (some r.expected_sha256))) _ _
      (refused FileReceiveResult.integrity_mismatch _ _ (λ e. cc))
      (after_commit-Completes hashed ((sink_of r.sink_ops).commit w))

failed_refused :
    {W : Type 0} (r : FileReceiver W) (result : FileReceiveResult) (w : W)
    → result ≢ FileReceiveResult.ok
    → Completes (receiver_fail r result w)
unfolding receiver_fail
failed_refused r result w n = refused result _ _ n

finish-Completes :
    {W : Type 0} (r : FileReceiver W) (w : W) → Completes (receiver_finish (some r) w)
unfolding receiver_finish
finish-Completes r w =
    if-Completes (not (is_receiving r.state)) _ _
      (refused FileReceiveResult.invalid_state _ _ (λ e. cc))
      (if-Completes (not (r.received_bytes == r.expected_bytes)) _ _
        (refused FileReceiveResult.incomplete _ _ (λ e. cc))
        (if-Completes (not r.integrity_configured) _ _
          (after_commit-Completes r ((sink_of r.sink_ops).commit w))
          (if-Completes (not r.integrity_started) _ _
            (failed_refused r FileReceiveResult.integrity_error w (λ e. cc))
            (after_digest-Completes r ((integrity_of r.integrity_ops).finish w)))))

finish_ok :
    {W : Type 0} (r t : FileReceiver W) (w w' : W)
    → receiver_finish (some r) w ≡ (FileReceiveResult.ok, some t, w')
    → t.state ≡ FileReceiveState.complete
unfolding Completes
finish_ok r t w w' e = subst (λ x. Completes x) e (finish-Completes r w)

module _ {W : Type 0} (v : View W) (sha : List ℕ → List ℕ) (sink : FileSinkOps W)
    (hash : IntegrityOps W) (s : SinkLaws v sink) (h : HashLaws v sha hash) where
  left :
      (x : Outcome W) (result : FileReceiveResult) (t : FileReceiver W) (w : W)
      → Leaves v sha sink hash x
      → x ≡ (result, some t, w)
      → IsSound v sha sink hash t w
  unfolding Leaves
  left x result t w l e = subst (λ y. Leaves v sha sink hash y) e l

  Step-IsSound :
      {r t : FileReceiver W} {w w' : W}
      → IsSound v sha sink hash r w
      → Step hash r w t w'
      → IsSound v sha sink hash t w'
  Step-IsSound {r} {t} {w} {w'} i (configures expected result e) =
      left _ result t w' (configure_integrity-IsSound v sha sink hash s h r expected w i) e
  Step-IsSound {r} {t} {w} {w'} i (begins result e) =
      left _ result t w' (receiver_begin-IsSound v sha sink hash s h r w i) e
  Step-IsSound {r} {t} {w} {w'} i (writes result xs n long e) =
      left _ result t w' (receiver_write-IsSound v sha sink hash s h r w xs n long i) e
  Step-IsSound {r} {t} {w} {w'} i (finishes result e) =
      left _ result t w' (receiver_finish-IsSound v sha sink hash s h r w i) e
  Step-IsSound {r} {t} {w} {w'} i (aborts e) =
      left _ FileReceiveResult.ok t w' (receiver_abort-IsSound v sha sink hash s h r w i)
        (ap (λ x. (FileReceiveResult.ok, x.0, x.1)) e)

  pub Reach-sound :
      {r : FileReceiver W} {w : W} {t : FileReceiver W} {w' : W}
      → IsSound v sha sink hash r w
      → Reach hash r w t w'
      → IsSound v sha sink hash t w'
  Reach-sound i here = i
  Reach-sound i (next p st) = Step-IsSound (Reach-sound i p) st

  -- Where a sink and a hash keep to their laws, the hash gives digests, and the expected digest is
  -- one: if `finish` succeeds on a receiver that any calls have reached from a sound one, then the
  -- sink has exactly the expected number of bytes, their hash is the expected digest if one was
  -- configured, and the sink is closed.
  pub receiver_finish_ok :
      (r t u : FileReceiver W) (w w' w'' : W)
      → IsSound v sha sink hash r w
      → Reach hash r w t w'
      → receiver_finish (some t) w' ≡ (FileReceiveResult.ok, some u, w'')
      → ((xs : List ℕ) → IsDigest (sha xs))
      → IsDigest u.expected_sha256
      → (length (v.contents w'') ≡ u.expected_bytes)
        × (u.integrity_configured ≡ true → sha (v.contents w'') ≡ u.expected_sha256)
        × (v.is_open w'' ≡ false)
  receiver_finish_ok r t u w w' w'' i p e digests d =
      let j = Step-IsSound (Reach-sound i p) (finishes FileReceiveResult.ok e) in
      let (b, c, len, equal) =
        is_at v sha sink hash s h FileReceiveState.complete u w'' j (finish_ok t u w' w'' e) in
      let z = digests (v.contents w'') in
      (
        len,
        λ g.
            (digest_equal_iff (sha (v.contents w'')) u.expected_sha256 z.bytes d.bytes z.size
                d.size).0
              (equal g),
        j.sink_flag ∙ b,
      )

  -- Where a sink and a hash keep to their laws, a receiver that any calls have reached from a sound one
  -- and that is not receiving has neither the sink open nor the hash running, whatever failed on
  -- the way.
  pub receiver-releases :
      (r t : FileReceiver W) (w w' : W)
      → IsSound v sha sink hash r w
      → Reach hash r w t w'
      → t.state ≢ FileReceiveState.receiving
      → (v.is_open w' ≡ false) × (v.is_running w' ≡ false)
  receiver-releases r t w w' i p n = let j = Reach-sound i p in released t.state j.at_state n j
    where
      released :
          (x : FileReceiveState)
          → IsAt v sha x t w'
          → x ≢ FileReceiveState.receiving
          → IsSound v sha sink hash t w'
          → (v.is_open w' ≡ false) × (v.is_running w' ≡ false)
      released FileReceiveState.receiving a n j = absurd (n refl)
      released FileReceiveState.idle a n j = (j.sink_flag ∙ a.0, j.hash_flag ∙ a.1)
      released FileReceiveState.complete a n j = (j.sink_flag ∙ a.0, j.hash_flag ∙ a.1)
      released FileReceiveState.failed a n j = (j.sink_flag ∙ a.0, j.hash_flag ∙ a.1)
      released FileReceiveState.aborted a n j = (j.sink_flag ∙ a.0, j.hash_flag ∙ a.1)
