-- ===== src/FileReceive/Closing/Begin.antt =====
-- Beginning, and what it leaves open.
use printdrop.Prelude.{
  ◌≡◌, refl, sym, subst, ◌∙◌, Bool, true, false, true-ne-false, if_cases, not, none, some,
}
use printdrop.Integrity.{IntegrityOps, IntegrityStatus}
use printdrop.FileReceive.{
  FileSinkOps, FileSinkStatus, FileReceiveResult, FileReceiver, Outcome, is_idle,
  sink_is_configured, sink_of, integrity_of, receiver_fail, after_hash_begin, after_sink_begin,
  receiver_begin,
}
use printdrop.FileReceive.Closing.{CloseLaws, Closed, IsTidy, abort-Closed}

module _ {W : Type 0} (is_open is_running : W → Bool) (sink : FileSinkOps W) (hash : IntegrityOps W)
    (laws : CloseLaws is_open is_running sink hash) where
  -- What beginning leaves: a tidy receiver if it answers that it has begun, and nothing open
  -- otherwise.
  unfoldable pub Begins : Outcome W → Type 0
  Begins (FileReceiveResult.ok, some r, w) = IsTidy is_open is_running sink hash r w
  Begins (FileReceiveResult.ok, none, w) = ⊥
  Begins (_, r, w) = Closed is_open is_running sink hash w

  after_hash_begin-Begins :
      (r : FileReceiver W) (o : IntegrityStatus × W)
      → r.sink_ops ≡ some sink
      → r.integrity_ops ≡ some hash
      → r.integrity_configured ≡ true
      → r.integrity_started ≡ false
      → r.sink_started ≡ true
      → (o.0 ≡ IntegrityStatus.error → is_running o.1 ≡ false)
      → Begins (after_hash_begin r o)
  unfolding after_hash_begin receiver_fail Begins
  after_hash_begin-Begins r (IntegrityStatus.error, w) s h c g b bad =
      abort-Closed is_open is_running sink hash laws r w
        (record {
          sink_table = s;
          hash_table = λ e. h;
          configured = λ e. c;
          stopped = λ e. bad refl;
        })
        b
  after_hash_begin-Begins r (IntegrityStatus.ok, w) s h c g b bad = record {
    tracks = record {
      sink_table = s;
      hash_table = λ e. h;
      configured = λ e. c;
      stopped = λ e. absurd (true-ne-false e);
    };
    receiving = λ e. b;
    over = λ e. absurd (e refl);
  }

  after_sink_begin-Begins :
      (r : FileReceiver W) (o : FileSinkStatus × W)
      → r.sink_ops ≡ some sink
      → r.integrity_ops ≡ some hash
      → r.integrity_configured ≡ true
      → r.integrity_started ≡ false
      → is_running o.1 ≡ false
      → (o.0 ≡ FileSinkStatus.io_error → is_open o.1 ≡ false)
      → Begins (after_sink_begin r o)
  unfolding after_sink_begin Begins
  after_sink_begin-Begins r (FileSinkStatus.io_error, w) s h c g k bad = (bad refl, k)
  after_sink_begin-Begins r (FileSinkStatus.ok, w) s h c g k bad =
      if_cases Begins r.integrity_configured _ _
        (λ e.
          subst
            (λ t.
              Begins
                (after_hash_begin (record r { sink_started = true }) ((integrity_of t).begin w)))
            (sym h)
            (after_hash_begin-Begins (record r { sink_started = true }) (hash.begin w) s h c g refl
              (laws.hash_begin_failed w k)))
        (λ e. absurd (true-ne-false (sym c ∙ e)))

  -- Beginning with a hash configured, where nothing is open.
  pub receiver_begin-Begins :
      (r : FileReceiver W) (w : W)
      → r.sink_ops ≡ some sink
      → r.integrity_ops ≡ some hash
      → r.integrity_configured ≡ true
      → r.integrity_started ≡ false
      → Closed is_open is_running sink hash w
      → Begins (receiver_begin (some r) w)
  unfolding receiver_begin Begins
  receiver_begin-Begins r w s h c g (o, k) =
      if_cases Begins (not (sink_is_configured r.sink_ops))
        (FileReceiveResult.invalid_argument, some r, w) _ (λ e. (o, k))
        (λ e.
          if_cases Begins (not (is_idle r.state)) (FileReceiveResult.invalid_state, some r, w) _
            (λ f. (o, k))
            (λ f.
              subst (λ t. Begins (after_sink_begin r ((sink_of t).begin r.expected_bytes w)))
                (sym s)
                (after_sink_begin-Begins r (sink.begin r.expected_bytes w) s h c g
                  (laws.begin_hash r.expected_bytes w ∙ k)
                  (laws.begin_failed r.expected_bytes w o))))
