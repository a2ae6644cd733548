-- ===== src/Win32Sha256.antt =====
-- src/win32_sha256.c and include/printdrop/win32_sha256.h: a hash by the system's cryptography. The
-- system's calls are a parameter, a table of operations on a state `S`; a handle or a pointer is a
-- number, 0 for NULL. The operations are called with the hash of a receive handler and with bytes
-- and a digest that are there, none of them NULL.
pub mod Balance
pub mod Release
use printdrop.Prelude.{ℕ, ◌-◌, ◌^◌, Bool, true, false, not, ◌||◌, List, ltb, ◌==◌, if◌then◌else◌}
use printdrop.Integrity.{IntegrityStatus}

-- `ULONG_MAX` and `sizeof(object_length)` of Windows.
abbrev pub ulong_max : ℕ
ulong_max = 2 ^ 32 - 1

abbrev pub dword_size : ℕ
dword_size = 4

-- The calls of Windows, each with the arguments that vary here. A status that is not below 0 gives
-- `true`. `get_object_length` also gives the length and the size of what it has written.
pub record CryptoApi (S : Type 0) : Type 0 where
  pub open_algorithm_provider : S → Bool × ℕ × S
  pub get_object_length : ℕ → S → Bool × ℕ × ℕ × S
  pub heap_alloc : ℕ → S → ℕ × S
  pub create_hash : ℕ → ℕ → ℕ → S → Bool × ℕ × S
  pub hash_data : ℕ → List ℕ → ℕ → S → Bool × S
  pub finish_hash : ℕ → S → Bool × List ℕ × S
  pub destroy_hash : ℕ → S → S
  pub heap_free : ℕ → S → S
  pub close_algorithm_provider : ℕ → S → S

pub record Sha256 : Type 0 where
  pub algorithm_handle : ℕ
  pub hash_handle : ℕ
  pub object_buffer : ℕ
  pub object_length : ℕ
  pub active : Bool

-- `pd_win32_sha256_init`
abbrev pub sha256_init : Sha256
sha256_init = record {
  algorithm_handle = 0;
  hash_handle = 0;
  object_buffer = 0;
  object_length = 0;
  active = false;
}

module _ {S : Type 0} (api : CryptoApi S) where
  -- `if (context->… != NULL) { …; context->… = NULL; }`, on the system.
  abbrev pub release : (ℕ → S → S) → ℕ → S → S
  release close handle s = if not (handle == 0) then close handle s else s

  -- `pd_win32_sha256_cleanup`, which sets every field of the context.
  unfoldable pub sha256_cleanup : Sha256 → S → Sha256 × S
  sha256_cleanup context s = (
    sha256_init,
    release api.close_algorithm_provider context.algorithm_handle (
        release api.heap_free context.object_buffer
          (release api.destroy_hash context.hash_handle s)),
  )

  -- `pd_win32_sha256_begin` with the answer of `BCryptCreateHash`.
  unfoldable pub after_create_hash :
      Sha256 → ℕ → ℕ → ℕ → Bool × ℕ × S → IntegrityStatus × Sha256 × S
  after_create_hash context algorithm object_length object_buffer (created, hash, s) =
      if not created
      then (
        IntegrityStatus.error,
        context,
        api.close_algorithm_provider algorithm (api.heap_free object_buffer s),
      )
      else (
        IntegrityStatus.ok,
        record {
          algorithm_handle = algorithm;
          hash_handle = hash;
          object_buffer = object_buffer;
          object_length = object_length;
          active = true;
        },
        s,
      )

  -- With the answer of `HeapAlloc`.
  unfoldable pub after_alloc : Sha256 → ℕ → ℕ → ℕ × S → IntegrityStatus × Sha256 × S
  after_alloc context algorithm object_length (object_buffer, s) =
      if object_buffer == 0
      then (IntegrityStatus.error, context, api.close_algorithm_provider algorithm s)
      else after_create_hash context algorithm object_length object_buffer
          (api.create_hash algorithm object_buffer object_length s)

  -- With the answer of `BCryptGetProperty`.
  unfoldable pub after_property : Sha256 → ℕ → Bool × ℕ × ℕ × S → IntegrityStatus × Sha256 × S
  after_property context algorithm (answered, object_length, result_length, s) =
      if not answered || not (result_length == dword_size) || object_length == 0
      then (IntegrityStatus.error, context, api.close_algorithm_provider algorithm s)
      else after_alloc context algorithm object_length (api.heap_alloc object_length s)

  -- With the answer of `BCryptOpenAlgorithmProvider`.
  unfoldable pub after_open : Sha256 → Bool × ℕ × S → IntegrityStatus × Sha256 × S
  after_open context (opened, algorithm, s) =
      if not opened
      then (IntegrityStatus.error, context, s)
      else after_property context algorithm (api.get_object_length algorithm s)

  unfoldable pub sha256_begin : Sha256 → S → IntegrityStatus × Sha256 × S
  sha256_begin context s =
      let (cleaned, s') = sha256_cleanup context s in
      if context.active
      then (IntegrityStatus.error, context, s)
      else after_open cleaned (api.open_algorithm_provider s')

  -- `pd_win32_sha256_update` with the answer of `BCryptHashData`.
  unfoldable pub after_hash_data : Bool × S → IntegrityStatus × S
  after_hash_data (hashed, s) =
      if not hashed then (IntegrityStatus.error, s) else (IntegrityStatus.ok, s)

  unfoldable pub sha256_update : Sha256 → List ℕ → ℕ → S → IntegrityStatus × S
  sha256_update context data_bytes data_size s =
      if not context.active || context.hash_handle == 0 || ltb ulong_max data_size
      then (IntegrityStatus.error, s)
      else after_hash_data (api.hash_data context.hash_handle data_bytes data_size s)

  -- `pd_win32_sha256_finish` with the answer of `BCryptFinishHash`: also the digest.
  unfoldable pub after_finish_hash :
      Sha256 → Bool × List ℕ × S → IntegrityStatus × List ℕ × Sha256 × S
  after_finish_hash context (finished, digest, s) =
      let (cleaned, s') = sha256_cleanup context s in
      ((if not finished then IntegrityStatus.error else IntegrityStatus.ok), digest, cleaned, s')

  -- A digest that is refused is as it was before the call, `digest`.
  unfoldable pub sha256_finish : Sha256 → List ℕ → S → IntegrityStatus × List ℕ × Sha256 × S
  sha256_finish context digest s =
      if not context.active || context.hash_handle == 0
      then (IntegrityStatus.error, digest, context, s)
      else after_finish_hash context (api.finish_hash context.hash_handle s)

  unfoldable pub sha256_abort : Sha256 → S → Sha256 × S
  sha256_abort context s = sha256_cleanup context s
