-- ===== src/FileReceive/Closing/Write.antt =====
-- Writing, and what it leaves open.
use printdrop.Prelude.{ℕ, ◌-◌, ◌≡◌, sym, subst, Bool, true, not, ◌||◌, ◌==◌, some, List, ltb}
use printdrop.Integrity.{IntegrityOps, IntegrityStatus}
use printdrop.Frame.{frame_max_payload}
use printdrop.FileReceive.{
  FileSinkOps, FileSinkStatus, FileReceiveState, FileReceiveResult, FileReceiver, is_receiving,
  sink_of, integrity_of, after_update, after_sink_write, write_chunk, receiver_write,
}
use printdrop.FileReceive.Invariant.{receiving_of}
use printdrop.FileReceive.Closing.{
  CloseLaws, Tracks, IsTidy, Leaves, if-Leaves, fail-Leaves, same_hash-Tracks,
}

module _ {W : Type 0} (is_open is_running : W → Bool) (sink : FileSinkOps W) (hash : IntegrityOps W)
    (laws : CloseLaws is_open is_running sink hash) where
  after_update-Leaves :
      (r : FileReceiver W) (n : ℕ) (o : IntegrityStatus × W)
      → Tracks is_open is_running sink hash r o.1
      → r.sink_started ≡ true
      → r.state ≡ FileReceiveState.receiving
      → Leaves is_open is_running sink hash (after_update r n o)
  unfolding after_update Leaves
  after_update-Leaves r n (IntegrityStatus.error, w) t b e =
      fail-Leaves is_open is_running sink hash laws r FileReceiveResult.integrity_error w t b
  after_update-Leaves r n (IntegrityStatus.ok, w) t b e = record {
    tracks = record {
      sink_table = t.sink_table;
      hash_table = t.hash_table;
      configured = t.configured;
      stopped = t.stopped;
    };
    receiving = λ f. b;
    over = λ f. absurd (f e);
  }

  after_sink_write-Leaves :
      (r : FileReceiver W) (xs : List ℕ) (n : ℕ) (o : FileSinkStatus × ℕ × W)
      → Tracks is_open is_running sink hash r o.2
      → r.sink_started ≡ true
      → r.state ≡ FileReceiveState.receiving
      → Leaves is_open is_running sink hash (after_sink_write r xs n o)
  unfolding after_sink_write
  after_sink_write-Leaves r xs n (FileSinkStatus.io_error, k, w) t b e =
      fail-Leaves is_open is_running sink hash laws r FileReceiveResult.sink_error w t b
  after_sink_write-Leaves r xs n (FileSinkStatus.ok, k, w) t b e =
      if-Leaves is_open is_running sink hash laws (not (k == n)) _ _
        (λ f. fail-Leaves is_open is_running sink hash laws r FileReceiveResult.sink_error w t b)
        (λ f.
          if-Leaves is_open is_running sink hash laws r.integrity_configured _ _
            (λ c.
              subst
                (λ u.
                  Leaves is_open is_running sink hash
                    (after_update r n ((integrity_of u).update xs n w)))
                (sym (t.hash_table c))
                (after_update-Leaves r n (hash.update xs n w)
                  (same_hash-Tracks is_open is_running sink hash laws r w (hash.update xs n w).1 t
                    (laws.update_hash xs n w))
                  b e))
            (λ c. after_update-Leaves r n (IntegrityStatus.ok, w) t b e))

  -- Writing keeps to it.
  pub receiver_write-Leaves :
      (r : FileReceiver W) (xs : List ℕ) (n : ℕ) (w : W)
      → IsTidy is_open is_running sink hash r w
      → Leaves is_open is_running sink hash (receiver_write (some r) (some xs) n w)
  unfolding receiver_write write_chunk Leaves
  receiver_write-Leaves r xs n w i =
      if-Leaves is_open is_running sink hash laws (not (is_receiving r.state))
        (FileReceiveResult.invalid_state, some r, w) _ (λ f. i)
        (λ f.
          let e = receiving_of r.state f in
          if-Leaves is_open is_running sink hash laws (n == 0)
            (FileReceiveResult.invalid_argument, some r, w) _ (λ g. i)
            (λ g.
              if-Leaves is_open is_running sink hash laws (ltb frame_max_payload n)
                (FileReceiveResult.chunk_too_large, some r, w) _ (λ g. i)
                (λ g.
                  if-Leaves is_open is_running sink hash laws
                    (ltb r.expected_bytes r.received_bytes
                      || ltb (r.expected_bytes - r.received_bytes) n)
                    (FileReceiveResult.exceeds_expected_size, some r, w) _ (λ g. i)
                    (λ g.
                      subst
                        (λ u.
                          Leaves is_open is_running sink hash
                            (after_sink_write r xs n ((sink_of u).write xs n w)))
                        (sym i.tracks.sink_table)
                        (after_sink_write-Leaves r xs n (sink.write xs n w)
                          (same_hash-Tracks is_open is_running sink hash laws r w
                            (sink.write xs n w).2 i.tracks (laws.write_hash xs n w))
                          (i.receiving e) e)))))
