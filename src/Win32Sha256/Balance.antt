-- ===== src/Win32Sha256/Balance.antt =====
-- The hash holds what it has opened and allocated, and gives it back.
use printdrop.Prelude.{
  ℕ, ◌+◌, ◌≡◌, ◌≢◌, refl, sym, true, false, true-ne-false, if_cases, not, true_of_not, false_of_not,
  ◌||◌, ◌==◌, List, arith,
}
use printdrop.Integrity.{IntegrityStatus}
use printdrop.Resources.{
  Resource, algorithm, hash, block, Account, one, held, held_null, held-one, GivesBack, Gets, Keeps,
  Holds, close_lem, release_lem,
}
use printdrop.Win32Sha256.{
  CryptoApi, Sha256, sha256_init, dword_size, release, sha256_cleanup, after_create_hash,
  after_alloc, after_property, after_open,
}

is_zero : (n : ℕ) → (n == 0) ≡ true → n ≡ 0
is_zero n e = ground (arith, e)

not_zero : (n : ℕ) → (n == 0) ≡ false → n ≢ 0
not_zero n e = ground (arith, e)

-- The algorithm, the hash and the buffer that a context has.
abbrev pub owned : Sha256 → Account
owned context r =
    held algorithm context.algorithm_handle r
    + held block context.object_buffer r
    + held hash context.hash_handle r

module _ {S : Type 0} (api : CryptoApi S) (live : S → Account) where
  -- What each call of the system does to the account of what is open: a call that opens puts what it
  -- answers on it, a call that closes takes what it is given off it, where that is there.
  pub record LiveLaws : Type 0 where
    pub open_ok :
        (s : S)
        → (api.open_algorithm_provider s).0 ≡ true
        → ((api.open_algorithm_provider s).1 ≢ 0)
          × Gets live
              (algorithm (api.open_algorithm_provider s).1)
              s
              (api.open_algorithm_provider s).2
    pub open_failed :
        (s : S)
        → (api.open_algorithm_provider s).0 ≡ false
        → Keeps live s (api.open_algorithm_provider s).2
    pub property_keeps : (h : ℕ) (s : S) → Keeps live s (api.get_object_length h s).3
    pub alloc_ok :
        (n : ℕ) (s : S)
        → (api.heap_alloc n s).0 ≢ 0
        → Gets live (block (api.heap_alloc n s).0) s (api.heap_alloc n s).1
    pub alloc_failed :
        (n : ℕ) (s : S) → (api.heap_alloc n s).0 ≡ 0 → Keeps live s (api.heap_alloc n s).1
    pub create_ok :
        (h p n : ℕ) (s : S)
        → (api.create_hash h p n s).0 ≡ true
        → ((api.create_hash h p n s).1 ≢ 0)
          × Gets live (hash (api.create_hash h p n s).1) s (api.create_hash h p n s).2
    pub create_failed :
        (h p n : ℕ) (s : S)
        → (api.create_hash h p n s).0 ≡ false
        → Keeps live s (api.create_hash h p n s).2
    pub data_keeps : (h : ℕ) (xs : List ℕ) (n : ℕ) (s : S) → Keeps live s (api.hash_data h xs n s).1
    pub finish_keeps : (h : ℕ) (s : S) → Keeps live s (api.finish_hash h s).2
    pub destroy_one : GivesBack live hash api.destroy_hash
    pub free_one : GivesBack live block api.heap_free
    pub close_one : GivesBack live algorithm api.close_algorithm_provider

  -- What is open in the system is `base`, which is others', and what the context has; an active hash
  -- has all three, any other none.
  pub record IsBalanced (base : Account) (context : Sha256) (s : S) : Type 0 where
    pub balance : Holds live s (λ r. base r + owned context r)
    pub whole :
        context.active ≡ true
        → (context.algorithm_handle ≢ 0) × (context.hash_handle ≢ 0) × (context.object_buffer ≢ 0)
    pub empty : context.active ≡ false → (r : Resource) → owned context r ≡ 0

  module _ (laws : LiveLaws) where
    pub cleanup_balance :
        (base : Account) (context : Sha256) (s : S)
        → Holds live s (λ r. base r + owned context r)
        → Holds live (sha256_cleanup api context s).1 base
    unfolding sha256_cleanup
    cleanup_balance base context s b =
        let s1 = release api api.destroy_hash context.hash_handle s in
        let s2 = release api api.heap_free context.object_buffer s1 in
        let with_algorithm : Account = λ r. base r + held algorithm context.algorithm_handle r in
        let with_block : Account = λ r. with_algorithm r + held block context.object_buffer r in
        release_lem live algorithm api.close_algorithm_provider context.algorithm_handle s2 base
          laws.close_one
          (release_lem live block api.heap_free context.object_buffer s1 with_algorithm
            laws.free_one
            (release_lem live hash api.destroy_hash context.hash_handle s with_block
              laws.destroy_one (λ r. omega (arith, b r))))

    -- What beginning leaves: an active hash if it says so, and none otherwise.
    unfoldable pub Begins : Account → IntegrityStatus × Sha256 × S → Type 0
    Begins base (IntegrityStatus.ok, context, s) =
        IsBalanced base context s × (context.active ≡ true)
    Begins base (IntegrityStatus.error, context, s) =
        IsBalanced base context s × (context.active ≡ false)

    nothing_owned : (r : Resource) → owned sha256_init r ≡ 0
    nothing_owned r =
        omega
          (arith, held_null algorithm 0 r refl, held_null block 0 r refl, held_null hash 0 r refl)

    nothing :
        (base : Account) (s : S)
        → Holds live s base
        → Begins base (IntegrityStatus.error, sha256_init, s)
    unfolding Begins
    nothing base s e = (
      record {
        balance = λ r. omega (arith, e r, nothing_owned r);
        whole = λ f. absurd (true-ne-false (sym f));
        empty = λ f. nothing_owned;
      },
      refl,
    )

    after_create_hash-Begins :
        (base : Account) (a n p : ℕ) (s : S)
        → Holds live s (λ r. base r + one (algorithm a) r + one (block p) r)
        → a ≢ 0
        → p ≢ 0
        → Begins base (after_create_hash api sha256_init a n p (api.create_hash a p n s))
    unfolding after_create_hash Begins
    after_create_hash-Begins base a n p s e x y =
        let o = api.create_hash a p n s in
        let with_algorithm : Account = λ r. base r + one (algorithm a) r in
        if_cases (Begins base) (not o.0) _ _
          (λ f. nothing base (api.close_algorithm_provider a (api.heap_free p o.2)) (
            close_lem live algorithm api.close_algorithm_provider a (api.heap_free p o.2) base
              laws.close_one
              (close_lem live block api.heap_free p o.2 with_algorithm laws.free_one
                (λ r. omega (arith, e r, laws.create_failed a p n s (false_of_not o.0 f) r)))))
          (λ f.
            let (z, gets) = laws.create_ok a p n s (true_of_not o.0 f) in
            (
              record {
                balance = λ r. omega (
                  arith,
                  e r,
                  gets r,
                  held-one algorithm a r x,
                  held-one block p r y,
                  held-one hash o.1 r z,
                );
                whole = λ g. (x, z, y);
                empty = λ g. absurd (true-ne-false g);
              },
              refl,
            ))

    after_alloc-Begins :
        (base : Account) (a n : ℕ) (s : S)
        → Holds live s (λ r. base r + one (algorithm a) r)
        → a ≢ 0
        → Begins base (after_alloc api sha256_init a n (api.heap_alloc n s))
    unfolding after_alloc
    after_alloc-Begins base a n s e x =
        let o = api.heap_alloc n s in
        if_cases (Begins base) (o.0 == 0) _ _
          (λ f. nothing base (api.close_algorithm_provider a o.1) (
            close_lem live algorithm api.close_algorithm_provider a o.1 base laws.close_one
              (λ r. omega (arith, e r, laws.alloc_failed n s (is_zero o.0 f) r))))
          (λ f.
            after_create_hash-Begins base a n o.0 o.1
              (λ r. omega (arith, e r, laws.alloc_ok n s (not_zero o.0 f) r)) x (not_zero o.0 f))

    after_property-Begins :
        (base : Account) (a : ℕ) (s : S)
        → Holds live s (λ r. base r + one (algorithm a) r)
        → a ≢ 0
        → Begins base (after_property api sha256_init a (api.get_object_length a s))
    unfolding after_property
    after_property-Begins base a s e x =
        let o = api.get_object_length a s in
        let same : Holds live o.3 (λ r. base r + one (algorithm a) r) =
          λ r. omega (arith, e r, laws.property_keeps a s r) in
        if_cases (Begins base) (not o.0 || not (o.2 == dword_size) || o.1 == 0) _ _
          (λ f.
            nothing base (api.close_algorithm_provider a o.3) (
              close_lem live algorithm api.close_algorithm_provider a o.3 base laws.close_one same))
          (λ f. after_alloc-Begins base a o.1 o.3 same x)

    pub after_open-Begins :
        (base : Account) (s : S)
        → Holds live s base
        → Begins base (after_open api sha256_init (api.open_algorithm_provider s))
    unfolding after_open
    after_open-Begins base s e =
        let o = api.open_algorithm_provider s in
        if_cases (Begins base) (not o.0) _ _
          (λ f.
            nothing base o.2 (λ r. omega (arith, e r, laws.open_failed s (false_of_not o.0 f) r)))
          (λ f.
            let (h, gets) = laws.open_ok s (true_of_not o.0 f) in
            after_property-Begins base o.1 o.2 (λ r. omega (arith, e r, gets r)) h)
