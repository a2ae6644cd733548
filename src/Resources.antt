-- ===== src/Resources.antt =====
-- What the Windows devices get from the system and give back: handles, blocks of memory and header
-- lists. A resource is of a kind and has the number by which the code knows it, 0 for NULL, which is
-- none. An account says of each resource how often it is held: once where it is open, and not at all
-- where it is closed or was never opened.
use printdrop.Prelude.{
  ℕ, ◌+◌, ◌-◌, ◌≡◌, ◌≢◌, sym, ap, true-ne-false, Bool, true, false, not, if_cases, ◌==◌,
  if◌then◌else◌, arith,
}

pub data Resource : Type 0 where
  algorithm : ℕ → Resource
  hash : ℕ → Resource
  block : ℕ → Resource
  curl_easy : ℕ → Resource
  header_list : ℕ → Resource

unfoldable pub is_same : Resource → Resource → Bool
is_same (algorithm h) (algorithm k) = h == k
is_same (hash h) (hash k) = h == k
is_same (block h) (block k) = h == k
is_same (curl_easy h) (curl_easy k) = h == k
is_same (header_list h) (header_list k) = h == k
is_same _ _ = false

abbrev pub Account : Type 0
Account = Resource → ℕ

-- One of a resource, and nothing else.
unfoldable pub one : Resource → Account
one q r = if is_same r q then 1 else 0

-- What a pointer or a handle of a kind holds: nothing where it is NULL.
unfoldable pub held : (ℕ → Resource) → ℕ → Account
held kind h r = if h == 0 then 0 else one (kind h) r

pub one_self : (r : Resource) → one r r ≡ 1
unfolding one is_same
one_self (algorithm h) = ground arith
one_self (hash h) = ground arith
one_self (block h) = ground arith
one_self (curl_easy h) = ground arith
one_self (header_list h) = ground arith

pub held-one : (kind : ℕ → Resource) (h : ℕ) (r : Resource) → h ≢ 0 → held kind h r ≡ one (kind h) r
unfolding held
held-one kind h r ne = ground (arith, ne)

pub held_null : (kind : ℕ → Resource) (h : ℕ) (r : Resource) → h ≡ 0 → held kind h r ≡ 0
unfolding held
held_null kind h r e = ground (arith, e)

pub held_some :
    (kind : ℕ → Resource) (h : ℕ) (r : Resource)
    → not (h == 0) ≡ true
    → held kind h r ≡ one (kind h) r
held_some kind h r e = held-one kind h r (ground (arith, e))

pub held_none :
    (kind : ℕ → Resource) (h : ℕ) (r : Resource) → not (h == 0) ≡ false → held kind h r ≡ 0
held_none kind h r e = held_null kind h r (ground (arith, e))

same→≡ : (r q : Resource) → is_same r q ≡ true → r ≡ q
unfolding is_same
same→≡ (algorithm h) (algorithm k) e = ap algorithm (ground (arith, e))
same→≡ (hash h) (hash k) e = ap hash (ground (arith, e))
same→≡ (block h) (block k) e = ap block (ground (arith, e))
same→≡ (curl_easy h) (curl_easy k) e = ap curl_easy (ground (arith, e))
same→≡ (header_list h) (header_list k) e = ap header_list (ground (arith, e))
same→≡ _ _ e = absurd (true-ne-false (sym e))

-- An account that has a resource, with and without it.
pub take_off :
    (a : Account) (q : Resource) → a q ≢ 0 → (r : Resource) → one q r + (a r - one q r) ≡ a r
unfolding one
take_off a q ne r =
    if_cases (λ n. n + (a r - n) ≡ a r) (is_same r q) _ _
      (λ e. omega (arith, ne, ap a (same→≡ r q e))) (λ e. omega arith)

module _ {S : Type 0} (live : S → Account) where
  -- A call that gives back a resource of a kind takes exactly this one off the account. It may only
  -- be made for one that is there; nothing is said of a call for any other number.
  abbrev pub GivesBack : (ℕ → Resource) → (ℕ → S → S) → Type 0
  GivesBack kind close =
      (h : ℕ) (s : S)
      → live s (kind h) ≢ 0
      → (r : Resource) → one (kind h) r + live (close h s) r ≡ live s r

  -- A call that has opened a resource has put exactly this one on the account.
  abbrev pub Gets : Resource → S → S → Type 0
  Gets q s s' = (r : Resource) → live s' r ≡ live s r + one q r

  abbrev pub Keeps : S → S → Type 0
  Keeps s s' = (r : Resource) → live s' r ≡ live s r

  -- Everything on the account is among `a`.
  abbrev pub Holds : S → Account → Type 0
  Holds s a = (r : Resource) → live s r ≡ a r

  pub close_lem :
      (kind : ℕ → Resource) (close : ℕ → S → S) (h : ℕ) (s : S) (a : Account)
      → GivesBack kind close
      → Holds s (λ r. a r + one (kind h) r)
      → Holds (close h s) a
  close_lem kind close h s a law e r =
      omega (arith, law h s (omega (arith, e (kind h), one_self (kind h))) r, e r)

  -- The same where the handle may be NULL, and nothing is then to be given back.
  pub release_lem :
      (kind : ℕ → Resource) (close : ℕ → S → S) (h : ℕ) (s : S) (a : Account)
      → GivesBack kind close
      → Holds s (λ r. a r + held kind h r)
      → Holds (if not (h == 0) then close h s else s) a
  release_lem kind close h s a law e =
      if_cases (λ t. Holds t a) (not (h == 0)) _ _
        (λ f. close_lem kind close h s a law (λ r. omega (arith, e r, held_some kind h r f)))
        (λ f r. omega (arith, e r, held_none kind h r f))
