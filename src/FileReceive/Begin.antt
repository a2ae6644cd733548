-- ===== src/FileReceive/Begin.antt =====
-- Initialising, configuring and beginning keep the invariant of a file receiver.
use printdrop.Prelude.{
  true-ne-false, ℕ, ◌^◌, ◌<◌, ◌≡◌, refl, sym, ap, subst, not, ◌||◌, ◌∙◌, true, false, Option, none,
  some, List, [], length, take, arith,
}
use printdrop.Integrity.{IntegrityOps, IntegrityStatus}
use printdrop.FileReceive.{
  FileSinkOps, FileSinkStatus, FileReceiveState, FileReceiveResult, FileReceiver, is_idle,
  sink_is_configured, sink_of, integrity_of, receiver_init, configure_integrity, after_hash_begin,
  after_sink_begin, receiver_begin,
}
use printdrop.FileReceive.Laws.{View, SinkLaws, HashLaws}
use printdrop.FileReceive.Invariant.{
  idle_of, IsAt, Uses, IsSound, Leaves, if-Leaves, kept, fail-Leaves, is_at,
}

module _ {W : Type 0} (v : View W) (sha : List ℕ → List ℕ) (sink : FileSinkOps W)
    (hash : IntegrityOps W) (s : SinkLaws v sink) (h : HashLaws v sha hash) where
  after_hash_begin-Leaves :
      (r : FileReceiver W) (x : IntegrityStatus × W)
      → Uses v sha sink hash r
      → r.integrity_configured ≡ true
      → r.sink_started ≡ true
      → r.integrity_started ≡ false
      → r.received_bytes ≡ 0
      → (x.0 ≡ IntegrityStatus.ok → (v.hashed x.1 ≡ []) × (v.is_running x.1 ≡ true))
      → (x.0 ≡ IntegrityStatus.error → v.is_running x.1 ≡ false)
      → v.is_open x.1 ≡ true
      → v.contents x.1 ≡ []
      → Leaves v sha sink hash (after_hash_begin r x)
  unfolding after_hash_begin Leaves
  after_hash_begin-Leaves r (IntegrityStatus.ok, w) u c b g z good bad o n = record {
    uses = record { sink_table = u.sink_table; hash_table = u.hash_table; in_range = u.in_range };
    sink_flag = o ∙ sym b;
    hash_flag = (good refl).1;
    at_state = (b, sym c, ap length n ∙ sym z, omega arith, λ q. (good refl).0 ∙ sym n);
  }
  after_hash_begin-Leaves r (IntegrityStatus.error, w) u c b g z good bad o n =
      fail-Leaves v sha sink hash s h r FileReceiveResult.integrity_error w u (λ q. c) (λ q. cc)
        (λ q. bad refl)

  started_Uses :
      (r : FileReceiver W)
      → Uses v sha sink hash r
      → Uses v sha sink hash (record r { sink_started = true })
  started_Uses r u = record {
    sink_table = u.sink_table;
    hash_table = u.hash_table;
    in_range = u.in_range;
  }

  after_sink_begin-Leaves :
      (r : FileReceiver W) (x : FileSinkStatus × W)
      → Uses v sha sink hash r
      → r.integrity_started ≡ false
      → r.sink_started ≡ false
      → r.received_bytes ≡ 0
      → (x.0 ≡ FileSinkStatus.ok → (v.contents x.1 ≡ []) × (v.is_open x.1 ≡ true))
      → (x.0 ≡ FileSinkStatus.io_error → v.is_open x.1 ≡ false)
      → v.is_running x.1 ≡ false
      → Leaves v sha sink hash (after_sink_begin r x)
  unfolding after_sink_begin Leaves
  after_sink_begin-Leaves r (FileSinkStatus.ok, w) u g b z good bad k =
      if-Leaves v sha sink hash r.integrity_configured _ _
        (λ c.
          subst
            (λ t.
              Leaves v sha sink hash
                (after_hash_begin (record r { sink_started = true }) ((integrity_of t).begin w)))
            (sym (u.hash_table c))
            (after_hash_begin-Leaves (record r { sink_started = true }) (hash.begin w)
              (started_Uses r u) c refl g z (h.begin_ok w) (h.begin_failed w k)
              ((h.begin_sink w).is_open ∙ (good refl).1)
              ((h.begin_sink w).contents ∙ (good refl).0)))
        (λ c. record {
          uses = record {
            sink_table = u.sink_table;
            hash_table = u.hash_table;
            in_range = u.in_range;
          };
          sink_flag = (good refl).1;
          hash_flag = k ∙ sym g;
          at_state = (
            refl,
            g ∙ sym c,
            ap length (good refl).0 ∙ sym z,
            omega arith,
            λ q. absurd (true-ne-false (sym q ∙ c)),
          );
        })
  after_sink_begin-Leaves r (FileSinkStatus.io_error, w) u g b z good bad k = record {
    uses = record { sink_table = u.sink_table; hash_table = u.hash_table; in_range = u.in_range };
    sink_flag = bad refl ∙ sym b;
    hash_flag = k ∙ sym g;
    at_state = (b, g);
  }

  -- Beginning keeps the invariant, whatever the sink and the hash answer.
  pub receiver_begin-IsSound :
      (r : FileReceiver W) (w : W)
      → IsSound v sha sink hash r w
      → Leaves v sha sink hash (receiver_begin (some r) w)
  unfolding receiver_begin
  receiver_begin-IsSound r w i =
      if-Leaves v sha sink hash (not (sink_is_configured r.sink_ops)) _ _
        (λ e. kept v sha sink hash _ r w i)
        (λ e.
          if-Leaves v sha sink hash (not (is_idle r.state)) _ _ (λ e. kept v sha sink hash _ r w i)
            (λ e.
              let (b, g, z) =
                is_at v sha sink hash s h FileReceiveState.idle r w i (idle_of r.state e) in
              subst
                (λ t.
                  Leaves v sha sink hash
                    (after_sink_begin r ((sink_of t).begin r.expected_bytes w)))
                (sym i.uses.sink_table)
                (after_sink_begin-Leaves r (sink.begin r.expected_bytes w) i.uses g b z
                  (s.begin_ok r.expected_bytes w)
                  (s.begin_failed r.expected_bytes w (i.sink_flag ∙ b))
                  ((s.begin_hash r.expected_bytes w).is_running ∙ i.hash_flag ∙ g))))

  -- Configuring a digest keeps the invariant where the hash is this one.
  pub configure_integrity-IsSound :
      (r : FileReceiver W) (expected : Option (List ℕ)) (w : W)
      → IsSound v sha sink hash r w
      → Leaves v sha sink hash (configure_integrity (some r) (some hash) expected w)
  unfolding configure_integrity Leaves
  configure_integrity-IsSound r none w i = i
  configure_integrity-IsSound r (some expected) w i =
      let r' = record r {
        integrity_ops = some hash;
        expected_sha256 = take 32 expected;
        integrity_configured = true;
      } in
      if-Leaves v sha sink hash (not (is_idle r.state) || r.sink_started)
        (FileReceiveResult.invalid_state, some r, w) _ (λ e. i)
        (λ e.
          let q : r.state ≡ FileReceiveState.idle = idle_of r.state (ground (arith, e)) in
          record {
            uses = record {
              sink_table = i.uses.sink_table;
              hash_table = λ _. refl;
              in_range = i.uses.in_range;
            };
            sink_flag = i.sink_flag;
            hash_flag = i.hash_flag;
            at_state =
                subst (λ y. IsAt v sha y r' w) (sym q)
                  (is_at v sha sink hash s h FileReceiveState.idle r w i q);
          })

  -- An initialised receiver is sound where the sink is closed and the hash does not run.
  pub receiver_init-IsSound :
      (r : FileReceiver W) (n : ℕ) (w : W)
      → n < 2 ^ 64
      → v.is_open w ≡ false
      → v.is_running w ≡ false
      → Leaves v sha sink hash (receiver_init (some r) (some sink) n w)
  unfolding receiver_init Leaves
  receiver_init-IsSound r n w fits o k = record {
    uses = record {
      sink_table = refl;
      hash_table = λ e. absurd (true-ne-false (sym e));
      in_range = fits;
    };
    sink_flag = o;
    hash_flag = k;
    at_state = (refl, refl, refl);
  }
