-- ===== src/FileReceive/Laws.antt =====
-- What file_receive.c relies on from a sink and from a hash, as their users document it: a view of
-- what the sink holds and of what the hash has read, and what each operation does to the two.
use printdrop.Prelude.{ℕ, ◌≡◌, Bool, true, false, List, [], ◌++◌, length, take, All}
use printdrop.Bytes.{IsByte}
use printdrop.Integrity.{IntegrityOps, IntegrityStatus}
use printdrop.FileReceive.{FileSinkOps, FileSinkStatus}

-- What can be seen of a world: what the sink has been given since it began and whether it is open,
-- what the hash has read since it began and whether it runs.
pub record View (W : Type 0) : Type 0 where
  pub contents : W → List ℕ
  pub hashed : W → List ℕ
  pub is_open : W → Bool
  pub is_running : W → Bool

-- The hash is in the same state in both worlds.
pub record SameHash {W : Type 0} (v : View W) (w w' : W) : Type 0 where
  pub hashed : v.hashed w' ≡ v.hashed w
  pub is_running : v.is_running w' ≡ v.is_running w

pub record SameSink {W : Type 0} (v : View W) (w w' : W) : Type 0 where
  pub contents : v.contents w' ≡ v.contents w
  pub is_open : v.is_open w' ≡ v.is_open w

-- A sink: a begin that succeeds opens it empty and one that fails leaves a closed one closed, a write that
-- succeeds in full appends, a commit that succeeds closes it and keeps what it has, and an abort
-- closes it. Nothing is said of what a failed write or commit leaves.
pub record SinkLaws {W : Type 0} (v : View W) (sink : FileSinkOps W) : Type 0 where
  pub begin_ok :
      (n : ℕ) (w : W)
      → (sink.begin n w).0 ≡ FileSinkStatus.ok
      → (v.contents (sink.begin n w).1 ≡ []) × (v.is_open (sink.begin n w).1 ≡ true)
  pub begin_failed :
      (n : ℕ) (w : W)
      → v.is_open w ≡ false
      → (sink.begin n w).0 ≡ FileSinkStatus.io_error
      → v.is_open (sink.begin n w).1 ≡ false
  pub write_ok :
      (xs : List ℕ) (n : ℕ) (w : W)
      → (sink.write xs n w).0 ≡ FileSinkStatus.ok
      → (sink.write xs n w).1 ≡ n
      → (v.contents (sink.write xs n w).2 ≡ v.contents w ++ take n xs)
        × (v.is_open (sink.write xs n w).2 ≡ v.is_open w)
  pub commit_ok :
      (w : W)
      → (sink.commit w).0 ≡ FileSinkStatus.ok
      → (v.contents (sink.commit w).1 ≡ v.contents w) × (v.is_open (sink.commit w).1 ≡ false)
  pub abort_closes : (w : W) → v.is_open (sink.abort w) ≡ false
  pub begin_hash : (n : ℕ) (w : W) → SameHash v w (sink.begin n w).1
  pub write_hash : (xs : List ℕ) (n : ℕ) (w : W) → SameHash v w (sink.write xs n w).2
  pub commit_hash : (w : W) → SameHash v w (sink.commit w).1
  pub abort_hash : (w : W) → SameHash v w (sink.abort w)

-- A hash that computes `sha`. A finish that fails may leave it running.
pub record HashLaws {W : Type 0} (v : View W) (sha : List ℕ → List ℕ) (hash : IntegrityOps W)
    : Type 0 where
  pub begin_ok :
      (w : W)
      → (hash.begin w).0 ≡ IntegrityStatus.ok
      → (v.hashed (hash.begin w).1 ≡ []) × (v.is_running (hash.begin w).1 ≡ true)
  pub begin_failed :
      (w : W)
      → v.is_running w ≡ false
      → (hash.begin w).0 ≡ IntegrityStatus.error
      → v.is_running (hash.begin w).1 ≡ false
  pub update_ok :
      (xs : List ℕ) (n : ℕ) (w : W)
      → (hash.update xs n w).0 ≡ IntegrityStatus.ok
      → (v.hashed (hash.update xs n w).1 ≡ v.hashed w ++ take n xs)
        × (v.is_running (hash.update xs n w).1 ≡ v.is_running w)
  pub finish_ok :
      (w : W)
      → (hash.finish w).0 ≡ IntegrityStatus.ok
      → ((hash.finish w).1 ≡ sha (v.hashed w)) × (v.is_running (hash.finish w).2 ≡ false)
  pub abort_stops : (w : W) → v.is_running (hash.abort w) ≡ false
  pub begin_sink : (w : W) → SameSink v w (hash.begin w).1
  pub update_sink : (xs : List ℕ) (n : ℕ) (w : W) → SameSink v w (hash.update xs n w).1
  pub finish_sink : (w : W) → SameSink v w (hash.finish w).2
  pub abort_sink : (w : W) → SameSink v w (hash.abort w)

-- SHA-256 gives 32 bytes.
pub record IsDigest (xs : List ℕ) : Type 0 where
  pub bytes : All IsByte xs
  pub size : length xs ≡ 32
