-- ===== src/FileReceive/Write.antt =====
-- Writing keeps the invariant of a file receiver.
use printdrop.Prelude.{
  true-ne-false, ℕ, ◌+◌, ◌-◌, ◌%◌, ◌^◌, ◌≤◌, ◌≡◌, refl, sym, ap, ap₂, subst, not, ltb, ◌||◌, ◌==◌,
  ◌∙◌, true, false, some, List, ◌++◌, length, length-append, length-take, take, arith,
}
use printdrop.Integrity.{IntegrityOps, IntegrityStatus}
use printdrop.FileReceive.{
  FileSinkOps, FileSinkStatus, FileReceiveState, FileReceiveResult, FileReceiver, is_receiving,
  sink_of, integrity_of, receiver_fail, after_update, after_sink_write, write_chunk, receiver_write,
}
use printdrop.Frame.{frame_max_payload}
use printdrop.FileReceive.Laws.{View, SinkLaws, HashLaws, SameHash}
use printdrop.FileReceive.Invariant.{
  receiving_of, IsAt, Uses, IsSound, Leaves, if-Leaves, kept, fail-Leaves, is_at,
}

module _ {W : Type 0} (v : View W) (sha : List ℕ → List ℕ) (sink : FileSinkOps W)
    (hash : IntegrityOps W) (s : SinkLaws v sink) (h : HashLaws v sha hash) where
  after_update-Leaves :
      (r : FileReceiver W) (n : ℕ) (x : IntegrityStatus × W)
      → Uses v sha sink hash r
      → r.state ≡ FileReceiveState.receiving
      → r.sink_started ≡ true
      → r.integrity_started ≡ r.integrity_configured
      → v.is_open x.1 ≡ true
      → (r.integrity_started ≡ false → v.is_running x.1 ≡ false)
      → (x.0 ≡ IntegrityStatus.ok
          → (v.is_running x.1 ≡ r.integrity_started)
            × (r.integrity_configured ≡ true → v.hashed x.1 ≡ v.contents x.1))
      → length (v.contents x.1) ≡ r.received_bytes + n
      → r.received_bytes + n ≤ r.expected_bytes
      → Leaves v sha sink hash (after_update r n x)
  unfolding after_update Leaves
  after_update-Leaves r n (IntegrityStatus.ok, w) u q b c o k good len fits =
      let same : r.received_bytes + n ≡ (r.received_bytes + n) % 2 ^ 64 =
        omega (arith, u.in_range) in
      record {
        uses = record {
          sink_table = u.sink_table;
          hash_table = u.hash_table;
          in_range = u.in_range;
        };
        sink_flag = o ∙ sym b;
        hash_flag = (good refl).0;
        at_state =
            subst
              (λ y. IsAt v sha y (record r { received_bytes = (r.received_bytes + n) % 2 ^ 64 }) w)
              (sym q) (b, c, len ∙ same, omega arith, (good refl).1);
      }
  after_update-Leaves r n (IntegrityStatus.error, w) u q b c o k good len fits =
      fail-Leaves v sha sink hash s h r FileReceiveResult.integrity_error w u (λ g. sym c ∙ g)
        (λ g. absurd (true-ne-false (sym b ∙ g))) k

  after_sink_write-Leaves :
      (r : FileReceiver W) (w : W) (xs : List ℕ) (n : ℕ) (x : FileSinkStatus × ℕ × W)
      → IsSound v sha sink hash r w
      → r.state ≡ FileReceiveState.receiving
      → n ≤ length xs
      → r.received_bytes + n ≤ r.expected_bytes
      → SameHash v w x.2
      → (x.0 ≡ FileSinkStatus.ok
          → x.1 ≡ n
          → (v.contents x.2 ≡ v.contents w ++ take n xs) × (v.is_open x.2 ≡ v.is_open w))
      → Leaves v sha sink hash (after_sink_write r xs n x)
  unfolding after_sink_write
  after_sink_write-Leaves r w xs n (FileSinkStatus.ok, m, w') i q long fits same good =
      let (b, c, len, le, reads) = is_at v sha sink hash s h FileReceiveState.receiving r w i q in
      let lost : Leaves v sha sink hash (receiver_fail r FileReceiveResult.sink_error w') =
        fail-Leaves v sha sink hash s h r FileReceiveResult.sink_error w' i.uses (λ g. sym c ∙ g)
          (λ g. absurd (true-ne-false (sym b ∙ g))) (λ g. same.is_running ∙ i.hash_flag ∙ g) in
      if-Leaves v sha sink hash (not (m == n)) _ _ (λ e. lost)
        (λ e.
          let whole : m ≡ n = ground (arith, e) in
          let (appended, still) = good refl whole in
          let size : length (v.contents w') ≡ r.received_bytes + n =
            ap length appended
            ∙ length-append (v.contents w) (take n xs)
            ∙ ap₂ ◌+◌ len (let z : length (take n xs) ≡ n = omega (arith, length-take n xs) in z) in
          let opened : v.is_open w' ≡ true = still ∙ i.sink_flag ∙ b in
          let runs : v.is_running w' ≡ r.integrity_started = same.is_running ∙ i.hash_flag in
          if-Leaves v sha sink hash r.integrity_configured _ _
            (λ d.
              subst
                (λ t. Leaves v sha sink hash (after_update r n ((integrity_of t).update xs n w')))
                (sym (i.uses.hash_table d))
                (let more = h.update_sink xs n w' in
                  after_update-Leaves r n (hash.update xs n w') i.uses q b c (more.is_open ∙ opened)
                    (λ g. absurd (true-ne-false (sym (c ∙ d) ∙ g)))
                    (λ g.
                      let (fed, on) = h.update_ok xs n w' g in
                      (
                        on ∙ runs,
                        λ d'.
                            fed
                            ∙ ap (λ l. l ++ take n xs) (same.hashed ∙ reads d')
                            ∙ sym appended
                            ∙ sym more.contents,
                      ))
                    (ap length more.contents ∙ size) fits))
            (λ d.
              after_update-Leaves r n (IntegrityStatus.ok, w') i.uses q b c opened (λ g. runs ∙ g)
                (λ g. (runs, λ d'. absurd (true-ne-false (sym d' ∙ d)))) size fits))
  after_sink_write-Leaves r w xs n (FileSinkStatus.io_error, m, w') i q long fits same good =
      let (b, c, len, le, reads) = is_at v sha sink hash s h FileReceiveState.receiving r w i q in
      fail-Leaves v sha sink hash s h r FileReceiveResult.sink_error w' i.uses (λ g. sym c ∙ g)
        (λ g. absurd (true-ne-false (sym b ∙ g))) (λ g. same.is_running ∙ i.hash_flag ∙ g)

  write_chunk-Leaves :
      (r : FileReceiver W) (w : W) (xs : List ℕ) (n : ℕ)
      → n ≤ length xs
      → IsSound v sha sink hash r w
      → Leaves v sha sink hash (write_chunk r xs n w)
  unfolding write_chunk
  write_chunk-Leaves r w xs n long i =
      if-Leaves v sha sink hash (not (is_receiving r.state)) _ _ (λ e. kept v sha sink hash _ r w i)
        (λ e₁.
          if-Leaves v sha sink hash (n == 0) _ _ (λ e. kept v sha sink hash _ r w i)
            (λ e₂.
              if-Leaves v sha sink hash (ltb frame_max_payload n) _ _
                (λ e. kept v sha sink hash _ r w i)
                (λ e₃.
                  if-Leaves v sha sink hash
                    (ltb r.expected_bytes r.received_bytes
                      || ltb (r.expected_bytes - r.received_bytes) n)
                    _ _ (λ e. kept v sha sink hash _ r w i)
                    (λ e₄.
                      subst
                        (λ t.
                          Leaves v sha sink hash
                            (after_sink_write r xs n ((sink_of t).write xs n w)))
                        (sym i.uses.sink_table)
                        (after_sink_write-Leaves r w xs n (sink.write xs n w) i
                          (receiving_of r.state e₁) long (ground arith) (s.write_hash xs n w)
                          (s.write_ok xs n w))))))

  -- Writing keeps the invariant, whatever the sink and the hash answer, where `n` bytes are
  -- there to be read.
  pub receiver_write-IsSound :
      (r : FileReceiver W) (w : W) (xs : List ℕ) (n : ℕ)
      → n ≤ length xs
      → IsSound v sha sink hash r w
      → Leaves v sha sink hash (receiver_write (some r) (some xs) n w)
  unfolding receiver_write
  receiver_write-IsSound r w xs n long i = write_chunk-Leaves r w xs n long i
