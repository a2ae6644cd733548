-- ===== src/FileReceive/Finish.antt =====
-- Finishing and aborting keep the invariant of a file receiver.
use printdrop.Prelude.{
  true-ne-false, true_of_not, false_of_not, ℕ, ◌≡◌, refl, sym, ap, subst, not, ◌==◌, ◌∙◌, Bool,
  true, false, Option, some, if◌then◌else◌, List, length, arith,
}
use printdrop.Integrity.{IntegrityOps, IntegrityStatus, digest_equal}
use printdrop.FileReceive.{
  FileSinkOps, FileSinkStatus, FileReceiveState, FileReceiveResult, FileReceiver, is_receiving,
  sink_of, integrity_of, abort_resources, after_commit, after_digest, receiver_finish,
  receiver_abort,
}
use printdrop.FileReceive.Laws.{View, SinkLaws, HashLaws, SameHash, SameSink}
use printdrop.FileReceive.Invariant.{
  receiving_of, Uses, IsSound, Leaves, if-Leaves, kept, stop_sink, abort_resources-closed,
  fail-Leaves, is_at,
}

module _ {W : Type 0} (v : View W) (sha : List ℕ → List ℕ) (sink : FileSinkOps W)
    (hash : IntegrityOps W) (s : SinkLaws v sink) (h : HashLaws v sha hash) where
  after_commit-Leaves :
      (r : FileReceiver W) (w : W) (x : FileSinkStatus × W)
      → Uses v sha sink hash r
      → r.state ≡ FileReceiveState.receiving
      → r.sink_started ≡ true
      → r.integrity_started ≡ false
      → v.is_running w ≡ false
      → length (v.contents w) ≡ r.expected_bytes
      → (r.integrity_configured ≡ true
          → digest_equal (some (sha (v.contents w))) (some r.expected_sha256) ≡ true)
      → SameHash v w x.1
      → (x.0 ≡ FileSinkStatus.ok → (v.contents x.1 ≡ v.contents w) × (v.is_open x.1 ≡ false))
      → Leaves v sha sink hash (after_commit r x)
  unfolding after_commit Leaves
  after_commit-Leaves r w (FileSinkStatus.ok, w') u q b c k len d same good = record {
    uses = record { sink_table = u.sink_table; hash_table = u.hash_table; in_range = u.in_range };
    sink_flag = (good refl).1;
    hash_flag = same.is_running ∙ k ∙ sym c;
    at_state = (
      refl,
      c,
      ap length (good refl).0 ∙ len,
      λ g.
          subst (λ l. digest_equal (some (sha l)) (some r.expected_sha256) ≡ true)
            (sym (good refl).0) (d g),
    );
  }
  after_commit-Leaves r w (FileSinkStatus.io_error, w') u q b c k len d same good =
      fail-Leaves v sha sink hash s h r FileReceiveResult.sink_error w' u
        (λ g. absurd (true-ne-false (sym g ∙ c))) (λ g. absurd (true-ne-false (sym b ∙ g)))
        (λ g. same.is_running ∙ k)

  after_digest-Leaves :
      (r : FileReceiver W) (w : W) (x : IntegrityStatus × List ℕ × W)
      → Uses v sha sink hash r
      → r.state ≡ FileReceiveState.receiving
      → r.sink_started ≡ true
      → r.integrity_configured ≡ true
      → length (v.contents w) ≡ r.expected_bytes
      → v.hashed w ≡ v.contents w
      → v.is_open w ≡ true
      → SameSink v w x.2
      → (x.0 ≡ IntegrityStatus.ok → (x.1 ≡ sha (v.hashed w)) × (v.is_running x.2 ≡ false))
      → r.integrity_started ≡ true
      → Leaves v sha sink hash (after_digest r x)
  unfolding after_digest Leaves
  after_digest-Leaves r w (IntegrityStatus.error, actual, w') u q b c len reads o same good g =
      fail-Leaves v sha sink hash s h r FileReceiveResult.integrity_error w' u (λ _. c)
        (λ z. absurd (true-ne-false (sym b ∙ z))) (λ z. absurd (true-ne-false (sym g ∙ z)))
  after_digest-Leaves r w (IntegrityStatus.ok, actual, w') u q b c len reads o same good g =
      let (is_sha, stopped) = good refl in
      let u' : Uses v sha sink hash (record r { integrity_started = false }) = record {
        sink_table = u.sink_table;
        hash_table = u.hash_table;
        in_range = u.in_range;
      } in
      if-Leaves v sha sink hash (not (digest_equal (some actual) (some r.expected_sha256))) _ _
        (λ e.
          let (closed, still) =
            stop_sink v sha sink hash s h r.sink_started r.sink_ops w' u.sink_table
              (λ z. absurd (true-ne-false (sym b ∙ z))) in
          record {
            uses = record {
              sink_table = u.sink_table;
              hash_table = u.hash_table;
              in_range = u.in_range;
            };
            sink_flag = closed;
            hash_flag = still ∙ stopped;
            at_state = (refl, refl);
          })
        (λ e.
          let equal : digest_equal (some actual) (some r.expected_sha256) ≡ true =
            true_of_not _ e in
          let whole : actual ≡ sha (v.contents w') = is_sha ∙ ap sha (reads ∙ sym same.contents) in
          subst
            (λ t.
              Leaves v sha sink hash
                (after_commit (record r { integrity_started = false }) ((sink_of t).commit w')))
            (sym u.sink_table)
            (after_commit-Leaves (record r { integrity_started = false }) w' (sink.commit w') u' q b
              refl stopped (ap length same.contents ∙ len)
              (λ _. subst (λ l. digest_equal (some l) (some r.expected_sha256) ≡ true) whole equal)
              (s.commit_hash w') (s.commit_ok w')))

  -- Finishing keeps the invariant, whatever the sink and the hash answer.
  pub receiver_finish-IsSound :
      (r : FileReceiver W) (w : W)
      → IsSound v sha sink hash r w
      → Leaves v sha sink hash (receiver_finish (some r) w)
  unfolding receiver_finish
  receiver_finish-IsSound r w i =
      if-Leaves v sha sink hash (not (is_receiving r.state)) _ _ (λ e. kept v sha sink hash _ r w i)
        (λ e₁.
          if-Leaves v sha sink hash (not (r.received_bytes == r.expected_bytes)) _ _
            (λ e. kept v sha sink hash _ r w i)
            (λ e₂.
              let q = receiving_of r.state e₁ in
              let (b, c, len, le, reads) =
                is_at v sha sink hash s h FileReceiveState.receiving r w i q in
              let all : r.received_bytes ≡ r.expected_bytes = ground (arith, e₂) in
              if-Leaves v sha sink hash (not r.integrity_configured) _ _
                (λ e₃.
                  let plain : r.integrity_configured ≡ false = false_of_not _ e₃ in
                  subst (λ t. Leaves v sha sink hash (after_commit r ((sink_of t).commit w)))
                    (sym i.uses.sink_table)
                    (after_commit-Leaves r w (sink.commit w) i.uses q b (c ∙ plain)
                      (i.hash_flag ∙ c ∙ plain) (len ∙ all)
                      (λ z. absurd (true-ne-false (sym z ∙ plain))) (s.commit_hash w)
                      (s.commit_ok w)))
                (λ e₃.
                  let d = true_of_not _ e₃ in
                  if-Leaves v sha sink hash (not r.integrity_started) _ _
                    (λ e₄. absurd (true-ne-false (sym (c ∙ d) ∙ false_of_not _ e₄)))
                    (λ e₄.
                      subst
                        (λ t. Leaves v sha sink hash (after_digest r ((integrity_of t).finish w)))
                        (sym (i.uses.hash_table d))
                        (after_digest-Leaves r w (hash.finish w) i.uses q b d (len ∙ all) (reads d)
                          (i.sink_flag ∙ b) (h.finish_sink w) (h.finish_ok w) (c ∙ d))))))

  -- Aborting keeps the invariant.
  pub receiver_abort-IsSound :
      (r : FileReceiver W) (w : W)
      → IsSound v sha sink hash r w
      → Leaves v sha sink hash
          (FileReceiveResult.ok, (receiver_abort (some r) w).0, (receiver_abort (some r) w).1)
  unfolding receiver_abort abort_resources Leaves
  receiver_abort-IsSound r w i = aborted (is_receiving r.state) refl
    where
      aborted :
          (b : Bool)
          → is_receiving r.state ≡ b
          → (let x : Option (FileReceiver W) × W = if not b then (some r, w) else (
            some (record (abort_resources r w).0 { state = FileReceiveState.aborted }),
            (abort_resources r w).1,
          ) in
              Leaves v sha sink hash (FileReceiveResult.ok, x.0, x.1))
      aborted false e = i
      aborted true e =
          let (o, c, len, le, reads) =
            is_at v sha sink hash s h FileReceiveState.receiving r w i
              (receiving_of r.state (ap not e)) in
          let (closed, stopped) =
            abort_resources-closed v sha sink hash s h r w i.uses (λ g. sym c ∙ g)
              (λ g. i.sink_flag ∙ g) (λ g. i.hash_flag ∙ g) in
          record {
            uses = record {
              sink_table = i.uses.sink_table;
              hash_table = i.uses.hash_table;
              in_range = i.uses.in_range;
            };
            sink_flag = closed;
            hash_flag = stopped;
            at_state = (refl, refl);
          }
