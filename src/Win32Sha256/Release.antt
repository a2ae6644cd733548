-- ===== src/Win32Sha256/Release.antt =====
-- Every operation of the hash keeps the balance of what it holds.
use printdrop.Prelude.{
  ℕ, ◌≡◌, ◌≢◌, refl, ◌∙◌, Bool, true, false, if_cases, not, ◌||◌, ltb, ◌==◌, List, arith,
}
use printdrop.Integrity.{IntegrityStatus}
use printdrop.Resources.{Account, Keeps, Holds}
use printdrop.Win32Sha256.{
  CryptoApi, Sha256, sha256_init, ulong_max, sha256_cleanup, after_open, sha256_begin,
  after_hash_data, sha256_update, after_finish_hash, sha256_finish, sha256_abort,
}
use printdrop.Win32Sha256.Balance.{LiveLaws, IsBalanced, Begins, cleanup_balance, after_open-Begins}

module _ {S : Type 0} (api : CryptoApi S) (live : S → Account) (laws : LiveLaws api live) where
  unfoldable Balanced : Account → IntegrityStatus × Sha256 × S → Type 0
  Balanced base (status, context, s) = IsBalanced api live base context s

  begun :
      (base : Account) (o : IntegrityStatus × Sha256 × S)
      → Begins api live laws base o
      → Balanced base o
  unfolding Begins Balanced
  begun base (IntegrityStatus.ok, context, s) b = b.0
  begun base (IntegrityStatus.error, context, s) b = b.0

  begin-Balanced :
      (base : Account) (context : Sha256) (s : S)
      → IsBalanced api live base context s
      → Balanced base (sha256_begin api context s)
  unfolding sha256_begin sha256_cleanup Balanced
  begin-Balanced base context s i =
      let cleaned = (sha256_cleanup api context s).1 in
      if_cases (Balanced base) context.active _ _ (λ e. i)
        (λ e. begun base (after_open api sha256_init (api.open_algorithm_provider cleaned)) (
          after_open-Begins api live laws base cleaned
            (cleanup_balance api live laws base context s i.balance)))

  update-Keeps :
      (context : Sha256) (xs : List ℕ) (n : ℕ) (s : S)
      → Keeps live s (sha256_update api context xs n s).1
  unfolding sha256_update after_hash_data
  update-Keeps context xs n s =
      let o = api.hash_data context.hash_handle xs n s in
      let P = λ (x : IntegrityStatus × S). Keeps live s x.1 in
      if_cases P (not context.active || context.hash_handle == 0 || ltb ulong_max n) _ _
        (λ e r. refl)
        (λ e.
          if_cases P (not o.0) _ _ (λ f. laws.data_keeps context.hash_handle xs n s)
            (λ f. laws.data_keeps context.hash_handle xs n s))

  -- Finishing and aborting give everything back.
  unfoldable Returned : Account → Sha256 × S → Type 0
  Returned base (context, s) = Holds live s base × (context.active ≡ false)

  abort-Returned :
      (base : Account) (context : Sha256) (s : S)
      → IsBalanced api live base context s
      → Returned base (sha256_abort api context s)
  unfolding sha256_abort sha256_cleanup Returned
  abort-Returned base context s i = (cleanup_balance api live laws base context s i.balance, refl)

  finish-Returned :
      (base : Account) (context : Sha256) (digest : List ℕ) (s : S)
      → IsBalanced api live base context s
      → Returned base
          ((sha256_finish api context digest s).2, (sha256_finish api context digest s).3)
  unfolding sha256_finish after_finish_hash sha256_cleanup Returned
  finish-Returned base context digest s i =
      let o = api.finish_hash context.hash_handle s in
      if_cases (λ (x : IntegrityStatus × List ℕ × Sha256 × S). Returned base (x.2, x.3))
        (not context.active || context.hash_handle == 0) _ _
        (λ e.
          let idle =
            idle_of context.active context.hash_handle e (λ f. let (x, y, z) = i.whole f in y) in
          (λ r. omega (arith, i.balance r, i.empty idle r), idle))
        (λ e. (
          cleanup_balance api live laws base context o.2
              (λ r. laws.finish_keeps context.hash_handle s r ∙ i.balance r),
          refl,
        ))
    where
      idle_of : (b : Bool) (h : ℕ) → (not b || h == 0) ≡ true → (b ≡ true → h ≢ 0) → b ≡ false
      idle_of b h e w = ground (arith, e, w)

  -- Where the system keeps account of what is open, a call that closes may only be made for what is
  -- there, and closes that and nothing else: for a hash that owns its handles and its buffer, and
  -- none unless it is active, beginning leaves it so, whatever fails on the way; an update opens and
  -- closes nothing; and after finishing or aborting exactly what is others' is open, on every path.
  pub sha256-IsBalanced :
      (base : Account) (context : Sha256) (xs digest : List ℕ) (n : ℕ) (s : S)
      → IsBalanced api live base context s
      → IsBalanced api live base (sha256_begin api context s).1 (sha256_begin api context s).2
        × Keeps live s (sha256_update api context xs n s).1
        × (Holds live (sha256_finish api context digest s).3 base
            × ((sha256_finish api context digest s).2.active ≡ false))
        × (Holds live (sha256_abort api context s).1 base
            × ((sha256_abort api context s).0.active ≡ false))
  unfolding Balanced Returned
  sha256-IsBalanced base context xs digest n s i = (
    begin-Balanced base context s i,
    update-Keeps context xs n s,
    finish-Returned base context digest s i,
    abort-Returned base context s i,
  )
