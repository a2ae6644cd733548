-- ===== src/Transport/Guard.antt =====
-- The guard: the connection is opened only while it is closed, and read, written and closed only
-- while it is open. The order of the connection's calls is told by a record of them, which an
-- instrumented connection keeps.
use printdrop.Prelude.{
  ℕ, ◌≡◌, refl, sym, subst, Bool, true, false, if_cases, Option, none, some, List, [], ◌∷◌,
}
use printdrop.Transport.{
  TransportStatus, TransportOps, Transport, buffer_missing, after_open, transport_open,
  transport_write, transport_read, transport_close,
}

-- A call that a connection has had, an opening with its answer.
pub data Event : Type 0 where
  opened : TransportStatus → Event
  written : Event
  was_read : Event
  closed : Event

-- Whether the connection is open behind a call, given whether it was in front of it; `none` where
-- the call was out of order.
unfoldable pub follow : Event → Option Bool → Option Bool
follow (opened TransportStatus.ok) (some false) = some true
follow (opened _) (some false) = some false
follow written (some true) = some true
follow was_read (some true) = some true
follow closed (some true) = some false
follow _ _ = none

-- The same behind a record of calls, the last of them first, on a connection that was closed.
abbrev pub state_after : List Event → Option Bool
state_after [] = some false
state_after (e ∷ earlier) = follow e (state_after earlier)

-- A connection with the record of the calls that it has had.
abbrev pub recorded : {W : Type 0} → TransportOps W → TransportOps (W × List Event)
recorded ops = record {
  open_connection = λ (w, events).
      let (status, w') = ops.open_connection w in (status, (w', opened status ∷ events));
  write = λ b n (w, events).
      let (status, count, w') = ops.write b n w in (status, count, (w', written ∷ events));
  read = λ b n (w, events).
      let (status, filled, count, w') = ops.read b n w in
      (status, filled, count, (w', was_read ∷ events));
  close = λ (w, events). (ops.close w, closed ∷ events);
}

-- A call on a transport, with what its pointers point to.
pub data Call : Type 0 where
  opens : Call
  writes : Option (List ℕ) → ℕ → Option ℕ → Call
  reads : Option (List ℕ) → ℕ → Option ℕ → Call
  closes : Call

module _ {W : Type 0} where
  -- The transport and the world after a call, whatever it answers.
  abbrev pub call : Call → Option (Transport W) → W → Option (Transport W) × W
  call opens t w = ((transport_open t w).1, (transport_open t w).2)
  call (writes b n m) t w = (t, (transport_write t b n m w).2)
  call (reads b n m) t w = (t, (transport_read t b n m w).3)
  call closes t w = transport_close t w

  abbrev pub run : List Call → Option (Transport W) → W → Option (Transport W) × W
  run [] t w = (t, w)
  run (c ∷ calls) t w = run calls (call c t w).0 (call c t w).1

module _ {W : Type 0} (ops : TransportOps W) where
  -- A transport over this connection, recorded.
  abbrev pub over : Bool → Option (Transport (W × List Event))
  over b = some (record { ops = some (recorded ops); is_open = b })

  -- The calls of the connection came in order, and the transport's flag tells whether they have left
  -- it open.
  abbrev pub IsGuarded : Option (Transport (W × List Event)) × (W × List Event) → Type 0
  IsGuarded (t, (w, events)) = (b : Bool) × (t ≡ over b) × (state_after events ≡ some b)

  opened-IsGuarded :
      (x : TransportStatus × W) (events : List Event)
      → state_after events ≡ some false
      → (let o = after_open (over false) (x.0, (x.1, opened x.0 ∷ events)) in IsGuarded (o.1, o.2))
  unfolding follow
  opened-IsGuarded (TransportStatus.ok, w) events e = (true, refl, rw e refl)
  opened-IsGuarded (TransportStatus.invalid_argument, w) events e = (false, refl, rw e refl)
  opened-IsGuarded (TransportStatus.invalid_state, w) events e = (false, refl, rw e refl)
  opened-IsGuarded (TransportStatus.io_error, w) events e = (false, refl, rw e refl)
  opened-IsGuarded (TransportStatus.would_block, w) events e = (false, refl, rw e refl)
  opened-IsGuarded (TransportStatus.closed, w) events e = (false, refl, rw e refl)

  write-IsGuarded :
      (b : Bool) (buffer : Option (List ℕ)) (n : ℕ) (m : Option ℕ) (w : W) (events : List Event)
      → state_after events ≡ some b
      → IsGuarded (over b, (transport_write (over b) buffer n m (w, events)).2)
  unfolding transport_write follow
  write-IsGuarded b buffer n none w events e = (b, refl, e)
  write-IsGuarded false buffer n (some m) w events e =
      if_cases (λ (x : TransportStatus × Option ℕ × (W × List Event)). IsGuarded (over false, x.2))
        (buffer_missing buffer n) _ _ (λ _. (false, refl, e)) (λ _. (false, refl, e))
  write-IsGuarded true buffer n (some m) w events e =
      if_cases (λ (x : TransportStatus × Option ℕ × (W × List Event)). IsGuarded (over true, x.2))
        (buffer_missing buffer n) _ _ (λ _. (true, refl, e)) (λ _. (true, refl, rw e refl))

  read-IsGuarded :
      (b : Bool) (buffer : Option (List ℕ)) (n : ℕ) (m : Option ℕ) (w : W) (events : List Event)
      → state_after events ≡ some b
      → IsGuarded (over b, (transport_read (over b) buffer n m (w, events)).3)
  unfolding transport_read follow
  read-IsGuarded b buffer n none w events e = (b, refl, e)
  read-IsGuarded false buffer n (some m) w events e =
      if_cases
        (λ (x : TransportStatus × Option (List ℕ) × Option ℕ × (W × List Event)).
          IsGuarded (over false, x.3))
        (buffer_missing buffer n) _ _ (λ _. (false, refl, e)) (λ _. (false, refl, e))
  read-IsGuarded true buffer n (some m) w events e =
      if_cases
        (λ (x : TransportStatus × Option (List ℕ) × Option ℕ × (W × List Event)).
          IsGuarded (over true, x.3))
        (buffer_missing buffer n) _ _ (λ _. (true, refl, e)) (λ _. (true, refl, rw e refl))

  call-IsGuarded :
      (c : Call) (b : Bool) (w : W) (events : List Event)
      → state_after events ≡ some b
      → IsGuarded (call c (over b) (w, events))
  unfolding transport_open transport_close follow
  call-IsGuarded opens true w events e = (true, refl, e)
  call-IsGuarded opens false w events e = opened-IsGuarded (ops.open_connection w) events e
  call-IsGuarded (writes buffer n m) b w events e = write-IsGuarded b buffer n m w events e
  call-IsGuarded (reads buffer n m) b w events e = read-IsGuarded b buffer n m w events e
  call-IsGuarded closes true w events e = (false, refl, rw e refl)
  call-IsGuarded closes false w events e = (false, refl, e)

  -- After any sequence of calls of open, write, read and close on a transport, whatever they are
  -- given and whatever the connection answers: if the calls that the connection had had before came
  -- in order and the flag told what they had left, this is so after the sequence. In order means
  -- that an opening comes only on a closed connection, and writing, reading and closing only on one
  -- that an opening has answered to have opened and that has not been closed since.
  pub run-IsGuarded :
      (calls : List Call) (t : Option (Transport (W × List Event))) (w : W × List Event)
      → IsGuarded (t, w)
      → IsGuarded (run calls t w)
  run-IsGuarded [] t w g = g
  run-IsGuarded (c ∷ calls) t (w, events) (b, e, f) =
      run-IsGuarded calls (call c t (w, events)).0 (call c t (w, events)).1
        (subst (λ y. IsGuarded (call c y (w, events))) (sym e) (call-IsGuarded c b w events f))
