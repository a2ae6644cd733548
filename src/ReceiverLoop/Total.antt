-- ===== src/ReceiverLoop/Total.antt =====
-- The loop ends, and how it leaves the handler.
use printdrop.Prelude.{
  ℕ, zero, suc, ◌≤◌, ◌<◌, ◌≡◌, ◌≢◌, refl, sym, ap, subst, Bool, true, false, Option, none, some,
  inl, inr, ◌⊎◌, arith,
}
use printdrop.ReceiverProtocol.{ReceiverProtocol, ReceiverProtocolOps, is_over}
use printdrop.ReceiverProtocol.Invariant.{HandlerLaws, IsSound}
use printdrop.ReceiverLoop.{
  LoopEvent, LoopResult, LoopIoOps, ReceiverLoop, Received, Round, emit, give_up, after_receive,
  run_rounds, receiver_loop_run,
}
use printdrop.ReceiverLoop.Keeps.{Keeps, Stays}
use printdrop.ReceiverLoop.Ends.{emit_stays, received_stays}
use printdrop.ReceiverLoop.Round.{KeepsFile, emit_keeps, moved, after_receive-IsSound}

some-ne-none : {A : Type 0} {a : A} → some a ≡ none → ⊥
some-ne-none e = absurd (cc)

-- What the loop returns.
abbrev pub Answer : Type 0 → Type 0
Answer W = Option (LoopResult × Option (ReceiverProtocol W) × W)

module _ {W : Type 0} (is_open : W → Bool) (left : W → ℕ) (ops : ReceiverProtocolOps W)
    (loop : ReceiverLoop W) (io : LoopIoOps W) where
  -- `left` bounds the frames that the connection still gives: each one that it gives is one less,
  -- and nothing else that the loop calls adds any.
  pub record IsBounded : Type 0 where
    pub receives :
        (w : W) (frame : Received)
        → (io.receive_frame w).0 ≡ some frame
        → left (io.receive_frame w).1 < left w
    pub keeps : (n : ℕ) → Keeps (λ w. left w ≤ n) ops loop io

  -- It has returned, with the protocol over and no file open.
  abbrev pub IsEnded : Answer W → Type 0
  IsEnded answer =
      (result : LoopResult) × (q : ReceiverProtocol W) × (w : W) × (answer
        ≡ some (result, some q, w))
      × (is_over q.state ≡ true)
      × (is_open w ≡ false)

  Stays-fewer :
      (q : ReceiverProtocol W) (w : W) (n : ℕ) (k : Keeps (λ v. left v ≤ n) ops loop io)
      → Stays (λ v. left v ≤ n) ops loop io k (some q, w)
      → left w ≤ n
  unfolding Stays
  Stays-fewer q w n k h = h.1

  module _ (laws : HandlerLaws is_open ops) (file : KeepsFile is_open loop io)
      (bound : IsBounded) where
    -- A round that goes on has received a frame.
    fewer :
        (p q : ReceiverProtocol W) (x : Option Received × W) (w' : W) (n : ℕ)
        → p.ops ≡ some ops
        → ((frame : Received) → x.0 ≡ some frame → left x.1 < n)
        → after_receive loop io (some p) x ≡ (none, some q, w')
        → left w' < n
    unfolding after_receive give_up
    fewer p q (none, w) w' n t m e = absurd (some-ne-none (ap (λ y. y.0) e))
    fewer p q (some frame, w) w' n t m e =
        let stays =
          received_stays (λ v. left v ≤ left w) ops loop io (bound.keeps (left w)) p (some frame, w)
            t (omega arith) in
        omega (
          arith,
          Stays-fewer q w' (left w) (bound.keeps (left w)) (
              subst
                (λ y. Stays (λ v. left v ≤ left w) ops loop io (bound.keeps (left w)) (y.1, y.2)) e
                stays),
          m frame refl,
        )

    -- The rest of the loop behind a round.
    abbrev resume : ℕ → Round W → Answer W
    resume fuel x = elim x.0 as (λ y. Answer W) [
      | some r ↦ some (r, x.1, x.2)
      | none ↦ run_rounds fuel loop io x.1 x.2
    ]

    -- A round that returns, and one that goes on.
    round_ends :
        (fuel : ℕ) (p : ReceiverProtocol W) (w : W) (x : Round W)
        → IsSound is_open ops p w
        → left w < suc fuel
        → after_receive loop io (some p) (io.receive_frame w) ≡ x
        → ((q : ReceiverProtocol W) (v : W)
            → IsSound is_open ops q v
            → left v < fuel
            → IsEnded (run_rounds fuel loop io (some q) v))
        → IsEnded (run_rounds (suc fuel) loop io (some p) w)
    unfolding run_rounds Stays
    round_ends fuel p w (some r, some q, w') i h e next =
        let (j, end) = after_receive-IsSound is_open ops loop io laws file p q (some r) w w' i e in
        let (over, closed) = returned r q w' end in
        subst (λ x. IsEnded (resume fuel x)) (sym e) (r, q, w', refl, over, closed)
      where
        returned :
            (r : LoopResult) (q : ReceiverProtocol W) (w' : W)
            → ((Option.some r ≡ none) × (is_over q.state ≡ false))
              ⊎ ((Option.some r ≢ none) × (is_over q.state ≡ true) × (is_open w' ≡ false))
            → (is_over q.state ≡ true) × (is_open w' ≡ false)
        returned r q w' (inl (e, o)) = absurd (some-ne-none e)
        returned r q w' (inr (n, over, closed)) = (over, closed)
    round_ends fuel p w (none, some q, w') i h e next =
        let (j, end) = after_receive-IsSound is_open ops loop io laws file p q none w w' i e in
        subst (λ x. IsEnded (resume fuel x)) (sym e)
          (next q w' j (
            omega
              (arith, h, fewer p q (io.receive_frame w) w' (left w) i.table (bound.receives w) e)))
    round_ends fuel p w (r, none, w') i h e next = absurd (
        subst
          (λ y.
            Stays (λ v. left v ≤ left (io.receive_frame w).1) ops loop io
              (bound.keeps (left (io.receive_frame w).1)) (y.1, y.2))
          e
          (received_stays (λ v. left v ≤ left (io.receive_frame w).1) ops loop io
            (bound.keeps (left (io.receive_frame w).1)) p (io.receive_frame w) i.table
            (omega arith)))

    run_rounds-IsEnded :
        (fuel : ℕ) (p : ReceiverProtocol W) (w : W)
        → IsSound is_open ops p w
        → left w < fuel
        → IsEnded (run_rounds fuel loop io (some p) w)
    run_rounds-IsEnded zero p w i h = absurd (omega (arith, h))
    run_rounds-IsEnded (suc fuel) p w i h =
        round_ends fuel p w (after_receive loop io (some p) (io.receive_frame w)) i h refl
          (λ q v j g. run_rounds-IsEnded fuel q v j g)

    -- Where the handler keeps to its laws, the rest of what the loop calls leaves the handler's file
    -- alone, and `left` bounds the frames that the connection still gives: on fuel for more frames
    -- than that, the loop of a sound protocol returns; the protocol is then over and no file of the
    -- handler is open, whatever the result.
    pub receiver_loop_run-IsEnded :
        (fuel : ℕ) (p : ReceiverProtocol W) (w : W)
        → loop.io_ops ≡ some io
        → loop.protocol ≡ some p
        → IsSound is_open ops p w
        → left w < fuel
        → IsEnded (receiver_loop_run fuel (some loop) w)
    unfolding receiver_loop_run
    receiver_loop_run-IsEnded fuel p w a b i h =
        let ready = emit loop LoopEvent.ready (some p) w in
        rw (a, b)
          (run_rounds-IsEnded fuel p ready
            (moved is_open ops loop io laws file p w ready
              (emit_keeps is_open ops loop io laws file LoopEvent.ready (some p) w) i)
            (omega (
              arith,
              h,
              emit_stays (λ v. left v ≤ left w) ops loop io (bound.keeps (left w)) LoopEvent.ready
                  (some p) w (omega arith),
            )))
