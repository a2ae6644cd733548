-- ===== src/ReceiverProtocol/Messages.antt =====
-- What each kind of message leaves.
use printdrop.Prelude.{
  ℕ, ◌≡◌, ◌≢◌, refl, sym, subst, ap, ◌∙◌, Bool, true, false, not, if_cases, true-ne-false, ◌||◌,
  ltb, ◌==◌, if◌then◌else◌, Option, none, some, List,
}
use printdrop.Protocol.{msg_file_begin, msg_chunk, msg_file_end}
use printdrop.Frame.{frame_max_payload}
use printdrop.FileBegin.{FileBegin, FileBeginResult}
use printdrop.Filename.{FilenameResult}
use printdrop.ReceiverProtocol.{
  ProtocolState, ProtocolResult, ReceiverProtocolOps, ReceiverProtocol, Outcome, abort_of,
  protocol_fail, after_begin, after_sanitize, after_decode, begin_file, after_write, write_chunk,
  after_finish, finish_file,
}
use printdrop.ReceiverProtocol.Invariant.{
  HandlerLaws, is_receiving, IsSound, Accepts, announced, continued, ended,
}

pub abort_of-closed :
    {W : Type 0} (is_open : W → Bool) (ops : ReceiverProtocolOps W)
    → HandlerLaws is_open ops
    → (b : Bool) (o : Option (ReceiverProtocolOps W)) (w : W) → o ≡ some ops
    → (b ≡ false → is_open w ≡ false)
    → is_open (if b then abort_of o w else w) ≡ false
abort_of-closed is_open ops laws true o w e k =
    subst (λ y. is_open (abort_of y w) ≡ false) (sym e) (laws.aborts w)
abort_of-closed is_open ops laws false o w e k = k refl

module _ {W : Type 0} (is_open : W → Bool) (ops : ReceiverProtocolOps W)
    (laws : HandlerLaws is_open ops) (p : ReceiverProtocol W) (type : ℕ) where
  unfoldable pub Leaves : Outcome W → Type 0
  Leaves (result, none, w) = ⊥
  Leaves (result, some q, w) =
      IsSound is_open ops q w × (result ≡ ProtocolResult.ok → Accepts p type q)

  pub fail-Leaves :
      (result : ProtocolResult) (w : W)
      → p.ops ≡ some ops
      → (p.file_active ≡ false → is_open w ≡ false)
      → result ≢ ProtocolResult.ok
      → Leaves (protocol_fail p result w)
  unfolding Leaves protocol_fail
  fail-Leaves result w t k n = (
    record {
      table = t;
      flag = abort_of-closed is_open ops laws p.file_active p.ops w t k;
      at_state = refl;
    },
    λ e. absurd (n e),
  )

  pub kept :
      (result : ProtocolResult) (w : W)
      → IsSound is_open ops p w
      → result ≢ ProtocolResult.ok
      → Leaves (result, some p, w)
  unfolding Leaves
  kept result w i n = (i, λ e. absurd (n e))

  after_begin-Leaves :
      (f : FileBegin) (name : List ℕ) (x : Bool × W)
      → p.ops ≡ some ops
      → p.state ≡ ProtocolState.wait_file
      → type ≡ msg_file_begin
      → is_open x.1 ≡ x.0
      → Leaves (after_begin p f name x)
  unfolding after_begin Leaves
  after_begin-Leaves f name (true, w) t q m o =
      (record { table = t; flag = o; at_state = refl }, λ e. announced q m refl)
  after_begin-Leaves f name (false, w) t q m o =
      fail-Leaves ProtocolResult.handler_error w t (λ _. o) (λ e. cc)

  after_sanitize-Leaves :
      (f : FileBegin) (x : FilenameResult × Option (List ℕ) × Option ℕ) (w : W)
      → IsSound is_open ops p w
      → p.state ≡ ProtocolState.wait_file
      → type ≡ msg_file_begin
      → Leaves (after_sanitize p ops f x w)
  unfolding after_sanitize
  after_sanitize-Leaves f (FilenameResult.ok, some name, r) w i q m =
      after_begin-Leaves f name (ops.begin_file f name w) i.table q m
        (laws.begins f name w (i.flag ∙ i.at_state ∙ ap is_receiving q))
  after_sanitize-Leaves f (FilenameResult.ok, none, r) w i q m =
      fail-Leaves ProtocolResult.invalid_metadata w i.table (λ g. i.flag ∙ g) (λ e. cc)
  after_sanitize-Leaves f (_, o, r) w i q m =
      fail-Leaves ProtocolResult.invalid_metadata w i.table (λ g. i.flag ∙ g) (λ e. cc)

  after_decode-Leaves :
      (x : FileBeginResult × Option FileBegin) (w : W)
      → IsSound is_open ops p w
      → p.state ≡ ProtocolState.wait_file
      → type ≡ msg_file_begin
      → Leaves (after_decode p ops x w)
  unfolding after_decode
  after_decode-Leaves (FileBeginResult.ok, some f) w i q m = after_sanitize-Leaves f _ w i q m
  after_decode-Leaves (FileBeginResult.ok, none) w i q m =
      fail-Leaves ProtocolResult.invalid_metadata w i.table (λ g. i.flag ∙ g) (λ e. cc)
  after_decode-Leaves (_, o) w i q m =
      fail-Leaves ProtocolResult.invalid_metadata w i.table (λ g. i.flag ∙ g) (λ e. cc)

  pub begin_file-Leaves :
      (payload : Option (List ℕ)) (n : ℕ) (w : W)
      → IsSound is_open ops p w
      → p.state ≡ ProtocolState.wait_file
      → type ≡ msg_file_begin
      → Leaves (begin_file p ops payload n w)
  unfolding begin_file
  begin_file-Leaves payload n w i q m = after_decode-Leaves _ w i q m

  after_write-Leaves :
      (x : Bool × W) (w : W)
      → IsSound is_open ops p w
      → p.state ≡ ProtocolState.receiving
      → type ≡ msg_chunk
      → is_open x.1 ≡ is_open w
      → Leaves (after_write p x)
  unfolding after_write Leaves
  after_write-Leaves (true, w') w i q m o = (
    record { table = i.table; flag = o ∙ i.flag; at_state = i.at_state },
    λ e. continued q m refl,
  )
  after_write-Leaves (false, w') w i q m o =
      fail-Leaves ProtocolResult.handler_error w' i.table (λ g. o ∙ i.flag ∙ g) (λ e. cc)

  pub write_chunk-Leaves :
      (payload : Option (List ℕ)) (n : ℕ) (w : W)
      → IsSound is_open ops p w
      → p.state ≡ ProtocolState.receiving
      → type ≡ msg_chunk
      → Leaves (write_chunk p ops payload n w)
  unfolding write_chunk
  write_chunk-Leaves none n w i q m =
      fail-Leaves ProtocolResult.malformed_frame w i.table (λ g. i.flag ∙ g) (λ e. cc)
  write_chunk-Leaves (some payload) n w i q m =
      if_cases Leaves (n == 0 || ltb frame_max_payload n) _ _
        (λ b. fail-Leaves ProtocolResult.malformed_frame w i.table (λ g. i.flag ∙ g) (λ e. cc))
        (λ b. after_write-Leaves (ops.write_chunk payload n w) w i q m (laws.writes payload n w))

  after_finish-Leaves :
      (x : Bool × W)
      → p.ops ≡ some ops
      → p.file_active ≡ true
      → p.state ≡ ProtocolState.receiving
      → type ≡ msg_file_end
      → (x.0 ≡ true → is_open x.1 ≡ false)
      → Leaves (after_finish p x)
  unfolding after_finish Leaves
  after_finish-Leaves (true, w') t a q m o =
      (record { table = t; flag = o refl; at_state = refl }, λ e. ended q m refl)
  after_finish-Leaves (false, w') t a q m o =
      fail-Leaves ProtocolResult.handler_error w' t (λ g. absurd (true-ne-false (sym a ∙ g)))
        (λ e. cc)

  pub finish_file-Leaves :
      (n : ℕ) (w : W)
      → IsSound is_open ops p w
      → p.state ≡ ProtocolState.receiving
      → type ≡ msg_file_end
      → Leaves (finish_file p ops n w)
  unfolding finish_file
  finish_file-Leaves n w i q m =
      if_cases Leaves (not (n == 0)) _ _
        (λ b. fail-Leaves ProtocolResult.malformed_frame w i.table (λ g. i.flag ∙ g) (λ e. cc))
        (λ b.
          after_finish-Leaves (ops.finish_file w) i.table (i.at_state ∙ ap is_receiving q) q m
            (laws.finishes w))
