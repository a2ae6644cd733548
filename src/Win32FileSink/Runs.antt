-- ===== src/Win32FileSink/Runs.antt =====
-- Runs of calls of the sink: what has been written is what the final name holds.
use printdrop.Prelude.{
  ℕ, ◌≡◌, refl, sym, ◌∙◌, false, if_cases, true-ne-false, true_of_not, not, List, [], ◌∷◌,
}
use printdrop.Bytes.Text.{text_of}
use printdrop.FileReceive.{FileSinkStatus}
use printdrop.Win32FileSink.{
  FileApi, FileSink, invalid_handle_value, handle_is_open, after_move, after_close, after_flush,
  sink_commit, close_if_open, sink_abort,
}
use printdrop.Win32FileSink.Files.{
  SinkState, SinkCall, IsShut, Allows, commits, commit_fails, commit_refused, aborts, stays_broken,
  FileView, FileLaws, Stands, sink_call,
}
use printdrop.Win32FileSink.Refine.{
  begin_answer, write_answer, Simulates, shut-closed, begin-Simulates, write-Simulates,
}

-- A run of calls with the answers that the sink gives, and one that the machine allows.
pub data Answers {S : Type 0} (api : FileApi S) (sink : FileSink) (s : S)
    : List (SinkCall × FileSinkStatus × ℕ) → FileSink → S → Type 0 where
  here : Answers api sink s [] sink s
  then :
      {run : List (SinkCall × FileSinkStatus × ℕ)} {sink' : FileSink} {s' : S} (call : SinkCall)
      → Answers api sink s run sink' s'
      → Answers api sink s
          ((call, (sink_call api call sink' s').0, (sink_call api call sink' s').1) ∷ run)
          (sink_call api call sink' s').2
          (sink_call api call sink' s').3

pub data AllowsRun (a : SinkState) : List (SinkCall × FileSinkStatus × ℕ) → SinkState → Type 0 where
  starts : AllowsRun a [] a
  goes_on :
      {run : List (SinkCall × FileSinkStatus × ℕ)} {b c : SinkState} {call : SinkCall}
      {status : FileSinkStatus} {k : ℕ}
      → AllowsRun a run b
      → Allows b call status k c
      → AllowsRun a ((call, status, k) ∷ run) c

module _ {S : Type 0} (api : FileApi S) (v : FileView S) (laws : FileLaws api v) where
  closed_now :
      (sink : FileSink)
      → handle_is_open (record sink { file_handle = invalid_handle_value }) ≡ false
  unfolding handle_is_open
  closed_now sink = refl

  commit_open-Simulates :
      (c : List ℕ) (sink : FileSink) (s : S)
      → v.file (text_of sink.staging_path) s ≡ c
      → Simulates api v laws (SinkState.open_with c) SinkCall.commit (
          begin_answer api v laws
            (after_flush api sink (api.flush_file_buffers sink.file_handle s)))
  unfolding after_flush after_close after_move begin_answer Simulates Stands
  commit_open-Simulates c sink s contents =
      let P = λ (x : FileSinkStatus × FileSink × S).
        Simulates api v laws (SinkState.open_with c) SinkCall.commit (begin_answer api v laws x) in
      let flushed = api.flush_file_buffers sink.file_handle s in
      let closed = api.close_handle sink.file_handle flushed.1 in
      let staging = text_of sink.staging_path in
      let final = text_of sink.final_path in
      let moved = api.move_file staging final closed.1 in
      if_cases P (not flushed.0) _ _ (λ e. (SinkState.broken, commit_fails, tt))
        (λ e.
          if_cases P (not closed.0) _ _ (λ f. (SinkState.broken, commit_fails, tt))
            (λ f.
              if_cases P (not moved.0) _ _ (λ g. (SinkState.broken, commit_fails, tt))
                (λ g. (
                  SinkState.stored c,
                  commits,
                  (
                    closed_now sink,
                    laws.move_ok staging final closed.1 (true_of_not moved.0 g)
                        ∙ laws.close_keeps sink.file_handle staging flushed.1
                        ∙ laws.flush_keeps sink.file_handle staging s
                        ∙ contents,
                  ),
                ))))

  commit_shut-Simulates :
      (a : SinkState) (sink : FileSink) (s : S)
      → IsShut a
      → Stands v a sink s
      → Simulates api v laws a SinkCall.commit (begin_answer api v laws (sink_commit api sink s))
  unfolding sink_commit begin_answer Simulates
  commit_shut-Simulates a sink s shut h =
      if_cases (λ x. Simulates api v laws a SinkCall.commit (begin_answer api v laws x))
        (not (handle_is_open sink)) _ _ (λ e. (a, commit_refused shut, h))
        (λ e.
          absurd (true-ne-false (sym (true_of_not _ e) ∙ shut-closed api v laws a sink s shut h)))

  commit-Simulates :
      (a : SinkState) (sink : FileSink) (s : S)
      → Stands v a sink s
      → Simulates api v laws a SinkCall.commit (begin_answer api v laws (sink_commit api sink s))
  unfolding sink_commit begin_answer Simulates Stands IsShut
  commit-Simulates SinkState.closed sink s h = commit_shut-Simulates SinkState.closed sink s tt h
  commit-Simulates (SinkState.stored c) sink s h =
      commit_shut-Simulates (SinkState.stored c) sink s tt h
  commit-Simulates SinkState.broken sink s h = (SinkState.broken, stays_broken, tt)
  commit-Simulates (SinkState.open_with c) sink s h =
      if_cases
        (λ x.
          Simulates api v laws (SinkState.open_with c) SinkCall.commit (begin_answer api v laws x))
        (not (handle_is_open sink)) _ _ (λ e. (SinkState.broken, commit_fails, tt))
        (λ e. commit_open-Simulates c sink s h.2)

  pub abort-closes : (sink : FileSink) (s : S) → handle_is_open (sink_abort api sink s).0 ≡ false
  unfolding sink_abort close_if_open
  abort-closes sink s =
      if_cases (λ (x : FileSink × S). handle_is_open x.0 ≡ false) (handle_is_open sink) _ _
        (λ e. closed_now sink) (λ e. e)

  -- Every call, with the answer that it has, is allowed.
  call-Simulates :
      (a : SinkState) (call : SinkCall) (sink : FileSink) (s : S)
      → Stands v a sink s
      → Simulates api v laws a call (sink_call api call sink s)
  unfolding sink_call Simulates begin_answer write_answer Stands
  call-Simulates a (SinkCall.begin n) sink s h = begin-Simulates api v laws a n sink s h
  call-Simulates a (SinkCall.write xs n) sink s h = write-Simulates api v laws a xs n sink s h
  call-Simulates a SinkCall.commit sink s h = commit-Simulates a sink s h
  call-Simulates a SinkCall.abort sink s h = (SinkState.closed, aborts, abort-closes sink s)

  -- Where the system's calls keep to their laws: a run of calls on a sink that stands for a state of
  -- the machine has answers that the machine allows, and ends in a sink that stands for the state
  -- that the machine then has; so what a commit stores under the final name is what the writes since
  -- the file was opened have written.
  pub Answers-AllowsRun :
      (a : SinkState) {sink : FileSink} {s : S} {run : List (SinkCall × FileSinkStatus × ℕ)}
      {sink' : FileSink} {s' : S}
      → Stands v a sink s
      → Answers api sink s run sink' s'
      → (b : SinkState) × AllowsRun a run b × Stands v b sink' s'
  unfolding Simulates
  Answers-AllowsRun a h here = (a, starts, h)
  Answers-AllowsRun a h (then {sink' = sink'} {s' = s'} call p) =
      let (b, allowed, stands) = Answers-AllowsRun a h p in
      let (c, step, stands') = call-Simulates b call sink' s' stands in
      (c, goes_on allowed step, stands')
