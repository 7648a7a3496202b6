-- ===== src/Hippocampus/Safety/Runs.antt =====
-- The breakers over the whole life of a runtime.
use sci_pegasus.Common.{
  ℕ, String, true, Option, some, List, [], ◌∷◌, ◌≡◌, refl, sym, subst, arith, Bool-cases, inl, inr,
}
use sci_pegasus.Hippocampus.Budget.{Timing}
use sci_pegasus.Hippocampus.Tasks.{
  Breaker, Phase, running, handed_off, succeeded, failed, cancelled, Task, Runtime, Config, settle,
  cancel, finish_cancelled,
}
use sci_pegasus.Hippocampus.Merge.{Merged, replaced, refused, merge_now}
use sci_pegasus.Hippocampus.Start.{View, idle, in_phase, view, Preparation, settled_meanwhile}
use sci_pegasus.Hippocampus.Requests.{Wait, before_request}
use sci_pegasus.Hippocampus.Exit.{
  Exit, exited, merge_thrown, Drain, on_loop_exit, exit_by_view, running_exit, drained_exit,
  exit_merge, handed, abort,
}
use sci_pegasus.Hippocampus.Safety.{
  Guards, Guards-refl, Guards-trans, is_guarded, starts, settle-Guards, finish_failed-Guards,
  finish_cancelled-Guards, settled_meanwhile-Guards, dropped-Guards,
}
use sci_pegasus.Hippocampus.Safety.Requests.{runtime_of}
use sci_pegasus.Hippocampus.Safety.Waits.{merge_task-Guards, before_request-Guards}

module _ {ℓ} {M : Type ℓ} where
  abbrev pub runtime_after : Exit M → Runtime M
  runtime_after (exited status messages after) = after
  runtime_after (merge_thrown e messages after) = after

  pub exit_merge-runtime :
      (messages : List M) (m : Merged M) → runtime_after (exit_merge messages m) ≡ runtime_of m
  unfolding exit_merge
  exit_merge-runtime messages (replaced tokens new after) = refl
  exit_merge-runtime messages (refused e after) = refl

  handed-Guards : (now : ℕ) (task : Option (Task M)) (r : Runtime M) → Guards r (handed now task r)
  unfolding handed cancel settle is_guarded starts
  handed-Guards now task r = record {
    guarded = λ g. ground arith;
    kept = λ b e. ground arith;
    unstarted = λ b e. ground arith;
  }

  abort-Guards : (now : ℕ) (reason : String) (r : Runtime M) → Guards r (abort now reason r)
  unfolding abort finish_cancelled cancel settle is_guarded starts
  abort-Guards now reason r = record {
    guarded = λ g. ground arith;
    kept = λ b e. ground arith;
    unstarted = λ b e. ground arith;
  }

module _ {ℓ} {M : Type ℓ} (input_tokens : List M → ℕ) where
  drained_exit-Guards :
      (now : ℕ) (messages : List M) (r : Runtime M) (v : View M)
      → Guards r (runtime_after (drained_exit input_tokens now messages r v))
  unfolding drained_exit merge_now
  drained_exit-Guards now messages r idle = Guards-refl r
  drained_exit-Guards now messages r (in_phase running) = Guards-refl r
  drained_exit-Guards now messages r (in_phase handed_off) = dropped-Guards r
  drained_exit-Guards now messages r (in_phase (succeeded w)) =
      subst (λ after. Guards r after)
        (sym (exit_merge-runtime messages (merge_now input_tokens now 0 messages r)))
        (merge_task-Guards input_tokens now 0 r.background messages r)
  drained_exit-Guards now messages r (in_phase (failed reason)) =
      finish_failed-Guards now 0 reason r
  drained_exit-Guards now messages r (in_phase (cancelled reason)) =
      finish_cancelled-Guards now 0 reason r

  running_exit-Guards :
      (now : ℕ) (d : Drain M) (messages : List M) (r : Runtime M)
      → Guards r (runtime_after (running_exit input_tokens now d messages r))
  unfolding running_exit
  running_exit-Guards now d messages r =
      let after = settled_meanwhile now d.during_handoff r in
      let final = settle now d.drained after in
      Guards-trans r after (runtime_after (running_exit input_tokens now d messages r))
        (settled_meanwhile-Guards now d.during_handoff r)
        (elim (Bool-cases d.is_accepted) [
          | inl e ↦ rw e (handed-Guards now after.background after)
          | inr e ↦ rw e (
              Guards-trans after final
                (runtime_after
                  (drained_exit input_tokens now messages final (view final.background)))
                (settle-Guards now d.drained after)
                (drained_exit-Guards now messages final (view final.background)))
        ])

  on_loop_exit-Guards :
      (now : ℕ) (d : Drain M) (messages : List M) (r : Runtime M) (v : View M)
      → Guards r (runtime_after (exit_by_view input_tokens now d messages r v))
  unfolding exit_by_view
  on_loop_exit-Guards now d messages r idle = drained_exit-Guards now messages r idle
  on_loop_exit-Guards now d messages r (in_phase running) = running_exit-Guards now d messages r
  on_loop_exit-Guards now d messages r (in_phase handed_off) =
      drained_exit-Guards now messages r (in_phase handed_off)
  on_loop_exit-Guards now d messages r (in_phase (succeeded w)) =
      drained_exit-Guards now messages r (in_phase (succeeded w))
  on_loop_exit-Guards now d messages r (in_phase (failed reason)) =
      drained_exit-Guards now messages r (in_phase (failed reason))
  on_loop_exit-Guards now d messages r (in_phase (cancelled reason)) =
      drained_exit-Guards now messages r (in_phase (cancelled reason))

-- What may happen to a runtime: its task settles, or the loop calls an operation.
pub data Operation {ℓ} (M : Type ℓ) : Type ℓ where
  settling : (now : ℕ) → (phase : Phase M) → Operation M
  request :
      (timing : Timing)
      → (now : ℕ) → (w : Wait M) → (p : Preparation M) → (messages : List M) → Operation M
  leaving : (now : ℕ) → (d : Drain M) → (messages : List M) → Operation M
  aborting : (now : ℕ) → (reason : String) → Operation M

module _ {ℓ} {M : Type ℓ} (input_tokens : List M → ℕ) (c : Config) where
  unfoldable pub perform : Operation M → Runtime M → Runtime M
  perform (settling now phase) r = settle now phase r
  perform (request t now w p messages) r =
      (before_request input_tokens c t now w p messages r).runtime
  perform (leaving now d messages) r = runtime_after (on_loop_exit input_tokens now d messages r)
  perform (aborting now reason) r = abort now reason r

  unfoldable pub performed : List (Operation M) → Runtime M → Runtime M
  performed [] r = r
  performed (o ∷ rest) r = performed rest (perform o r)

  perform-Guards : (o : Operation M) (r : Runtime M) → Guards r (perform o r)
  unfolding perform on_loop_exit
  perform-Guards (settling now phase) r = settle-Guards now phase r
  perform-Guards (request t now w p messages) r =
      before_request-Guards input_tokens c t now w p messages r
  perform-Guards (leaving now d messages) r =
      on_loop_exit-Guards input_tokens now d messages r (view r.background)
  perform-Guards (aborting now reason) r = abort-Guards now reason r

  performed-Guards : (run : List (Operation M)) (r : Runtime M) → Guards r (performed run r)
  unfolding performed
  performed-Guards [] r = Guards-refl r
  performed-Guards (o ∷ rest) r =
      Guards-trans r (perform o r) (performed rest (perform o r)) (perform-Guards o r)
        (performed-Guards rest (perform o r))

  -- Through any sequence of settlements, requests, exits and aborts, a runtime in which three failures in
  -- a row have set a breaker stays one: at three consecutive failures or more, a breaker is set.
  pub performed-guarded :
      (run : List (Operation M)) (r : Runtime M)
      → is_guarded r ≡ true
      → is_guarded (performed run r) ≡ true
  performed-guarded run r g = let h = performed-Guards run r in h.guarded g

  -- A breaker that is set stays set through any sequence of settlements, requests, exits and aborts, and
  -- no compaction is started in it: it logs no further call of onStart.
  pub performed-broken :
      (run : List (Operation M)) (r : Runtime M) (b : Breaker)
      → r.breaker ≡ some b
      → ((performed run r).breaker ≡ some b) × (starts (performed run r).events ≡ starts r.events)
  performed-broken run r b e = let h = performed-Guards run r in (h.kept b e, h.unstarted b e)
