-- ===== src/ReceiverSession/Lifecycle.antt =====
-- The life of a session as steps of its three operations: what each does in each state.
use printdrop.Prelude.{
  ℕ, ◌<◌, ◌≡◌, ◌≢◌, ◌↔◌, ◌⊎◌, inl, inr, refl, true, Option, some, none, List, arith,
}
use printdrop.ReceiverSession.{
  ReceiverSession, SessionState, SessionResult, clear_credentials, expire_if_due, begin_transfer,
  session_close, token_matches,
}

-- The credentials are there in these two states only.
abbrev pub IsLive : SessionState → Type 0
IsLive SessionState.waiting = Unit
IsLive SessionState.transferring = Unit
IsLive _ = ⊥

abbrev pub ended_as : SessionState → ReceiverSession → ReceiverSession
ended_as e s = record (clear_credentials s) { state = e }

expire_cases :
    (s : ReceiverSession) (now : ℕ)
    → ((expire_if_due (some s) now).1 ≡ some s)
      ⊎ (IsLive s.state × ((expire_if_due (some s) now).1 ≡ some (ended_as SessionState.expired s)))
unfolding expire_if_due
expire_cases s now = ground arith

begin_cases :
    (s : ReceiverSession) (candidate : List ℕ) (now : ℕ)
    → ((begin_transfer (some s) (some candidate) now).1 ≡ some s)
      ⊎ ((s.state ≡ SessionState.waiting)
          × ((begin_transfer (some s) (some candidate) now).1
              ≡ some (record s { state = SessionState.transferring })))
      ⊎ (IsLive s.state
          × ((begin_transfer (some s) (some candidate) now).1
              ≡ some (ended_as SessionState.expired s)))
unfolding begin_transfer expire_if_due
begin_cases s candidate now = ground arith

close_cases :
    (s : ReceiverSession)
    → (session_close (some s) ≡ some s)
      ⊎ ((s.state ≢ SessionState.inactive)
          × (session_close (some s) ≡ some (ended_as SessionState.closed s)))
unfolding session_close
close_cases s = ground arith

live-ne-inactive : (e : SessionState) → IsLive e → e ≢ SessionState.inactive
live-ne-inactive SessionState.waiting h = λ p. cc
live-ne-inactive SessionState.transferring h = λ p. cc
live-ne-inactive SessionState.inactive h = absurd h
live-ne-inactive SessionState.expired h = absurd h
live-ne-inactive SessionState.closed h = absurd h

-- For a session and a candidate that are there, a transfer begins exactly if the session waits,
-- has not expired and has the candidate for its token.
pub begin_transfer_ok :
    (s : ReceiverSession) (candidate : List ℕ) (now : ℕ)
    → ((begin_transfer (some s) (some candidate) now).0 ≡ SessionResult.ok) ↔ (
        (s.state ≡ SessionState.waiting)
        × (now < s.expires_at_ms)
        × (token_matches (some s) (some candidate) ≡ true))
unfolding begin_transfer expire_if_due
begin_transfer_ok s candidate now = (λ e. ground arith, λ c. ground arith)

-- One call on a session, whatever its arguments and its outcome.
pub data Step (s : ReceiverSession) : ReceiverSession → Type 0 where
  expires : {t : ReceiverSession} (now : ℕ) → (expire_if_due (some s) now).1 ≡ some t → Step s t
  begins :
      {t : ReceiverSession} (candidate : Option (List ℕ)) (now : ℕ)
      → (begin_transfer (some s) candidate now).1 ≡ some t
      → Step s t
  closes : {t : ReceiverSession} → session_close (some s) ≡ some t → Step s t

pub data Reach (s : ReceiverSession) : ReceiverSession → Type 0 where
  here : Reach s s
  next : {t u : ReceiverSession} → Reach s t → Step t u → Reach s u

-- What a call can do to a session: nothing, start the transfer, expire it or close it.
pub data Outcome (s : ReceiverSession) : ReceiverSession → Type 0 where
  same : {t : ReceiverSession} → t ≡ s → Outcome s t
  started :
      {t : ReceiverSession}
      → s.state ≡ SessionState.waiting
      → t ≡ record s { state = SessionState.transferring }
      → Outcome s t
  ended :
      {t : ReceiverSession} (e : SessionState)
      → s.state ≢ SessionState.inactive
      → (e ≡ SessionState.closed) ⊎ ((e ≡ SessionState.expired) × IsLive s.state)
      → t ≡ record (clear_credentials s) { state = e }
      → Outcome s t

some_eq : {s t : ReceiverSession} {o : Option ReceiverSession} → o ≡ some t → o ≡ some s → t ≡ s
some_eq p q = cc

expired_outcome :
    {s t : ReceiverSession} → IsLive s.state → t ≡ ended_as SessionState.expired s → Outcome s t
expired_outcome {s} l e = ended SessionState.expired (live-ne-inactive s.state l) (inr (refl, l)) e

pub outcome : {s t : ReceiverSession} → Step s t → Outcome s t
outcome {s} {t} (expires now e) = elim (expire_cases s now) [
  | inl p ↦ same (some_eq e p)
  | inr (l, p) ↦ expired_outcome l (some_eq e p)
]
outcome {s} {t} (begins none now e) = same (some_eq e (unfold begin_transfer in refl))
outcome {s} {t} (begins (some c) now e) = elim (begin_cases s c now) [
  | inl p ↦ same (some_eq e p)
  | inr (inl (w, p)) ↦ started w (some_eq e p)
  | inr (inr (l, p)) ↦ expired_outcome l (some_eq e p)
]
outcome {s} {t} (closes e) = elim (close_cases s) [
  | inl p ↦ same (some_eq e p)
  | inr (n, p) ↦ ended SessionState.closed n (inl refl) (some_eq e p)
]
