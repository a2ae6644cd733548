-- ===== src/ReceiverSession/Reachable.antt =====
-- What holds of every session that calls can reach: where its credentials are, and that it never
-- goes back.
use printdrop.Prelude.{
  ℕ, ◌≤◌, ◌≡◌, ◌≢◌, ◌⊎◌, inl, inr, ap, ◌∙◌, some, List, [], ◌∷◌, length, length-append, arith,
}
use printdrop.Hex.Digits.{hex_text, length-hex_text}
use printdrop.SecureZero.{zero_bytes_whole}
use printdrop.ReceiverSession.{
  ReceiverSession, SessionState, SessionResult, clear_credentials, expire_if_due, begin_transfer,
}
use printdrop.ReceiverSession.Lifecycle.{
  IsLive, ended_as, Outcome, same, started, ended, outcome, Reach, here, next, begin_transfer_ok,
}
use printdrop.ReceiverSession.Create.{IsSized, IsWiped, IsArmed}

-- Live sessions are armed, all others are wiped.
pub data IsSound (s : ReceiverSession) : Type 0 where
  live : IsLive s.state → IsArmed s → IsSound s
  dead : ¬ IsLive s.state → IsWiped s → IsSound s

armed_IsSized : (s : ReceiverSession) → IsArmed s → IsSized s
armed_IsSized s a = record {
  token_size =
      ap length a.token
      ∙ omega (
        arith,
        length-append (hex_text a.token_bytes) (0 ∷ []),
        length-hex_text a.token_bytes,
        a.token_length,
      );
  secret_size =
      ap length a.secret
      ∙ omega (
        arith,
        length-append (hex_text a.secret_bytes) (0 ∷ []),
        length-hex_text a.secret_bytes,
        a.secret_length,
      );
}

clear_IsWiped : (s : ReceiverSession) → IsSized s → IsWiped (clear_credentials s)
unfolding clear_credentials
clear_IsWiped s z = record {
  token = zero_bytes_whole s.token 33 z.token_size;
  secret = zero_bytes_whole s.receiver_secret 65 z.secret_size;
}

sound_IsSized : (s : ReceiverSession) → IsSound s → IsSized s
sound_IsSized s (live l a) = armed_IsSized s a
sound_IsSized s (dead d w) = record {
  token_size = ap length w.token;
  secret_size = ap length w.secret;
}

started_IsSound :
    (s : ReceiverSession)
    → s.state ≡ SessionState.waiting
    → IsSound s
    → IsSound (record s { state = SessionState.transferring })
started_IsSound s w (live l a) = live tt (record {
  token_bytes = a.token_bytes;
  secret_bytes = a.secret_bytes;
  token_length = a.token_length;
  secret_length = a.secret_length;
  token = a.token;
  secret = a.secret;
  lasts = a.lasts;
  in_range = a.in_range;
})
started_IsSound s w (dead d z) = absurd (d (rw w tt))

ended_IsSound :
    (s : ReceiverSession) (e : SessionState)
    → (e ≡ SessionState.closed) ⊎ ((e ≡ SessionState.expired) × IsLive s.state)
    → IsSound s
    → IsSound (ended_as e s)
ended_IsSound s e why v =
    let w = clear_IsWiped s (sound_IsSized s v) in
    dead (not_live e why) (record { token = w.token; secret = w.secret })
  where
    not_live :
        (x : SessionState)
        → (x ≡ SessionState.closed) ⊎ ((x ≡ SessionState.expired) × IsLive s.state)
        → ¬ IsLive x
    not_live x (inl p) = rw p (λ h. h)
    not_live x (inr (p, _)) = rw p (λ h. h)

Outcome-IsSound : {s t : ReceiverSession} → Outcome s t → IsSound s → IsSound t
Outcome-IsSound (same e) v = rw e v
Outcome-IsSound {s} (started w e) v = rw e (started_IsSound s w v)
Outcome-IsSound {s} (ended x n why e) v = rw e (ended_IsSound s x why v)

-- Every session that calls of expire, begin and close reach from a sound one is sound: it has the
-- digits of its credentials while it waits or transfers, and zeros in their place otherwise.
pub Reach-IsSound : {s t : ReceiverSession} → IsSound s → Reach s t → IsSound t
Reach-IsSound v here = v
Reach-IsSound v (next r st) = Outcome-IsSound (outcome st) (Reach-IsSound v r)

-- How far a session has come.
abbrev pub age : SessionState → ℕ
age SessionState.inactive = 0
age SessionState.waiting = 0
age SessionState.transferring = 1
age SessionState.expired = 2
age SessionState.closed = 3

Outcome-age : {s t : ReceiverSession} → Outcome s t → age s.state ≤ age t.state
Outcome-age (same e) = ground arith
Outcome-age (started w e) = ground arith
Outcome-age {s} (ended x n why e) = ground arith

-- No call takes a session back.
pub Reach-age : {s t : ReceiverSession} → Reach s t → age s.state ≤ age t.state
Reach-age here = omega arith
Reach-age (next r st) = omega (arith, Reach-age r, Outcome-age (outcome st))

begun_age :
    (s t : ReceiverSession) (candidate : List ℕ) (now : ℕ)
    → begin_transfer (some s) (some candidate) now ≡ (SessionResult.ok, some t)
    → age t.state ≡ 1
unfolding begin_transfer expire_if_due
begun_age s t candidate now e = ground arith

-- Once a transfer has begun in a session, no call on the session begins another, after any calls
-- of expire, begin and close.
pub begin_transfer_once :
    (s t u : ReceiverSession) (first later : List ℕ) (now then_ms : ℕ)
    → begin_transfer (some s) (some first) now ≡ (SessionResult.ok, some t)
    → Reach t u
    → (begin_transfer (some u) (some later) then_ms).0 ≢ SessionResult.ok
begin_transfer_once s t u first later now then_ms e r again =
    let begun : age t.state ≡ 1 = begun_age s t first now e in
    let waits = ((begin_transfer_ok u later then_ms).0 again).0 in
    absurd (omega (arith, Reach-age r, begun, ap age waits))
