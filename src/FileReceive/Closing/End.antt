-- ===== src/FileReceive/Closing/End.antt =====
-- Finishing and aborting, and what they leave open.
use printdrop.Prelude.{
  ℕ, ◌≡◌, refl, sym, subst, ◌∙◌, Bool, true, false, true-ne-false, if_cases, not, ◌==◌, Option,
  some, List, arith,
}
use printdrop.Integrity.{IntegrityOps, IntegrityStatus, digest_equal}
use printdrop.FileReceive.{
  FileSinkOps, FileSinkStatus, FileReceiveResult, FileReceiver, is_receiving, sink_of, integrity_of,
  abort_resources, after_commit, after_digest, receiver_finish, receiver_abort,
}
use printdrop.FileReceive.Invariant.{receiving_of}
use printdrop.FileReceive.Closing.{
  CloseLaws, Closed, Tracks, IsTidy, Ends, fail-Ends, abort-Closed, same_hash-Tracks, not_receiving,
}

module _ {W : Type 0} (is_open is_running : W → Bool) (sink : FileSinkOps W) (hash : IntegrityOps W)
    (laws : CloseLaws is_open is_running sink hash) where
  after_commit-Ends :
      (r : FileReceiver W) (o : FileSinkStatus × W)
      → Tracks is_open is_running sink hash r o.1
      → r.sink_started ≡ true
      → (o.0 ≡ FileSinkStatus.ok → Closed is_open is_running sink hash o.1)
      → Ends is_open is_running sink hash (after_commit r o)
  unfolding after_commit Ends
  after_commit-Ends r (FileSinkStatus.io_error, w) t b c =
      fail-Ends is_open is_running sink hash laws r FileReceiveResult.sink_error w t b
  after_commit-Ends r (FileSinkStatus.ok, w) t b c = c refl

  -- A commit behind a hash that does not run.
  commit-Ends :
      (r : FileReceiver W) (w : W)
      → Tracks is_open is_running sink hash r w
      → r.sink_started ≡ true
      → r.integrity_started ≡ false
      → Ends is_open is_running sink hash (after_commit r ((sink_of r.sink_ops).commit w))
  commit-Ends r w t b g =
      subst (λ u. Ends is_open is_running sink hash (after_commit r ((sink_of u).commit w)))
        (sym t.sink_table)
        (after_commit-Ends r (sink.commit w)
          (same_hash-Tracks is_open is_running sink hash laws r w (sink.commit w).1 t
            (laws.commit_hash w))
          b (λ e. (laws.commit_ok w e, laws.commit_hash w ∙ t.stopped g)))

  after_digest-Ends :
      (r : FileReceiver W) (o : IntegrityStatus × List ℕ × W)
      → Tracks is_open is_running sink hash r o.2
      → r.sink_started ≡ true
      → (o.0 ≡ IntegrityStatus.ok → is_running o.2 ≡ false)
      → Ends is_open is_running sink hash (after_digest r o)
  unfolding after_digest Ends
  after_digest-Ends r (IntegrityStatus.error, digest, w) t b c =
      fail-Ends is_open is_running sink hash laws r FileReceiveResult.integrity_error w t b
  after_digest-Ends r (IntegrityStatus.ok, digest, w) t b c =
      let hashed = record r { integrity_started = false } in
      let u : Tracks is_open is_running sink hash hashed w = record {
        sink_table = t.sink_table;
        hash_table = t.hash_table;
        configured = λ e. absurd (true-ne-false (sym e));
        stopped = λ e. c refl;
      } in
      if_cases (Ends is_open is_running sink hash)
        (not (digest_equal (some digest) (some r.expected_sha256))) _ _
        (λ f. rw (b, t.sink_table) (laws.abort_closes w, laws.abort_hash w ∙ c refl))
        (λ f. commit-Ends hashed w u b refl)

  -- Finishing closes the sink and stops the hash, whatever they answer, unless bytes are missing.
  pub receiver_finish-Ends :
      (r : FileReceiver W) (w : W)
      → IsTidy is_open is_running sink hash r w
      → r.received_bytes ≡ r.expected_bytes
      → Ends is_open is_running sink hash (receiver_finish (some r) w)
  unfolding receiver_finish Ends
  receiver_finish-Ends r w i whole =
      if_cases (Ends is_open is_running sink hash) (not (is_receiving r.state))
        (FileReceiveResult.invalid_state, some r, w) _ (λ f. i.over (not_receiving r.state f))
        (λ f.
          let b = i.receiving (receiving_of r.state f) in
          if_cases (Ends is_open is_running sink hash) (not (r.received_bytes == r.expected_bytes))
            (FileReceiveResult.incomplete, some r, w) _
            (λ g. absurd (differ r.received_bytes r.expected_bytes g whole))
            (λ g.
              if_cases (Ends is_open is_running sink hash) (not r.integrity_configured) _ _
                (λ c.
                  commit-Ends r w i.tracks b
                    (unconfigured r.integrity_started r.integrity_configured i.tracks.configured c))
                (λ c.
                  if_cases (Ends is_open is_running sink hash) (not r.integrity_started) _ _
                    (λ d.
                      fail-Ends is_open is_running sink hash laws r
                        FileReceiveResult.integrity_error w i.tracks b)
                    (λ d.
                      subst
                        (λ u.
                          Ends is_open is_running sink hash
                            (after_digest r ((integrity_of u).finish w)))
                        (sym (i.tracks.hash_table (false_not r.integrity_configured c)))
                        (after_digest-Ends r (hash.finish w)
                          (record {
                            sink_table = i.tracks.sink_table;
                            hash_table = i.tracks.hash_table;
                            configured = i.tracks.configured;
                            stopped = λ e.
                                absurd (true-ne-false (sym (false_not r.integrity_started d) ∙ e));
                          })
                          b (laws.finish_ok w))))))
    where
      differ : (m n : ℕ) → not (m == n) ≡ true → m ≡ n → ⊥
      differ m n e f = ground (arith, e, f)

      unconfigured : (a b : Bool) → (a ≡ true → b ≡ true) → not b ≡ true → a ≡ false
      unconfigured a b h e = ground (arith, h, e)

      false_not : (a : Bool) → not a ≡ false → a ≡ true
      false_not a e = ground (arith, e)

  -- Aborting closes both.
  pub receiver_abort-Closed :
      (r : FileReceiver W) (w : W)
      → IsTidy is_open is_running sink hash r w
      → Closed is_open is_running sink hash (receiver_abort (some r) w).1
  unfolding receiver_abort abort_resources
  receiver_abort-Closed r w i =
      if_cases (λ (o : Option (FileReceiver W) × W). Closed is_open is_running sink hash o.1)
        (not (is_receiving r.state)) (some r, w) _ (λ f. i.over (not_receiving r.state f))
        (λ f.
          abort-Closed is_open is_running sink hash laws r w i.tracks
            (i.receiving (receiving_of r.state f)))
