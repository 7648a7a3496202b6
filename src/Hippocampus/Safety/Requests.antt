-- ===== src/Hippocampus/Safety/Requests.antt =====
-- The parts of beforeRequest and the breakers.
use sci_pegasus.Common.{
  ℕ, ◌+◌, String, Option, none, some, List, ◌≡◌, refl, sym, subst, ltb, leb, arith, Bool-cases, inl,
  inr,
}
use sci_pegasus.Hippocampus.Budget.{Timing}
use sci_pegasus.Hippocampus.Tasks.{
  Breaker, failed, cancelled, Task, Runtime, Config, cancel, finish_failed, finish_cancelled,
}
use sci_pegasus.Hippocampus.Merge.{Merged, replaced, refused, merged_runtime}
use sci_pegasus.Hippocampus.Start.{
  View, view, Preparation, start, launched, prepared, can_start, settled_meanwhile,
}
use sci_pegasus.Hippocampus.Requests.{
  idle_step, begin, started_step, after_start, merge_step, is_due, finished_task, counted_turn,
}
use sci_pegasus.Hippocampus.Safety.{
  Guards, Guards-refl, Guards-trans, is_guarded, starts, settle-Guards, can_start-Guards,
  settled_meanwhile-Guards,
}

module _ {ℓ} {M : Type ℓ} where
  abbrev pub runtime_of : Merged M → Runtime M
  runtime_of (replaced tokens messages after) = after
  runtime_of (refused e after) = after

  pub merged_runtime-Guards :
      (now wait : ℕ) (task : Task M) (r : Runtime M) → Guards r (merged_runtime now wait task r)
  unfolding merged_runtime is_guarded starts
  merged_runtime-Guards now wait task r = record {
    guarded = λ g. refl;
    kept = λ b e. e;
    unstarted = λ b e. refl;
  }

  pub merge_step-runtime :
      (wait : ℕ) (messages : List M) (m : Merged M)
      → (merge_step wait messages m).runtime ≡ runtime_of m
  unfolding merge_step
  merge_step-runtime wait messages (replaced tokens new after) = refl
  merge_step-runtime wait messages (refused e after) = refl

  pub counted_turn-Guards :
      (c : Config) (t : Timing) (r : Runtime M) → Guards r (counted_turn c t r)
  unfolding counted_turn is_guarded
  counted_turn-Guards c t r = record { guarded = λ g. g; kept = λ b e. e; unstarted = λ b e. refl }

  pub finished_task-Guards : (now : ℕ) (r : Runtime M) → Guards r (finished_task now r)
  unfolding finished_task finish_failed finish_cancelled is_guarded starts
  finished_task-Guards now r = record {
    guarded = λ g. ground arith;
    kept = λ b e. ground arith;
    unstarted = λ b e. ground arith;
  }

  launched-Guards :
      (c : Config) (now : ℕ) (messages : List M) (tokens : ℕ) (r : Runtime M)
      → r.breaker ≡ none
      → Guards r (launched c now messages tokens r)
  unfolding launched is_guarded
  launched-Guards c now messages tokens r n = record {
    guarded = λ g. g;
    kept = λ b e. e;
    unstarted = λ b e. absurd (ground arith);
  }

  prepared-Guards :
      (c : Config) (now : ℕ) (p : Preparation M) (e : Option String) (r : Runtime M)
      → Guards r (prepared c now p e r)
  unfolding cancel
  prepared-Guards c now p (some e) r =
      settle-Guards p.ready_at (cancelled "durable shadow prepare failed") r
  prepared-Guards c now p none r = elim (Bool-cases (leb (now + c.background_timeout) p.ready_at)) [
    | inl e ↦ rw e (
        settle-Guards p.ready_at
          (failed "durable shadow takeover deadline reached before local start") r)
    | inr e ↦ rw e (Guards-refl r)
  ]

  start-Guards :
      (c : Config) (now : ℕ) (p : Preparation M) (messages : List M) (tokens : ℕ) (r : Runtime M)
      → r.breaker ≡ none
      → Guards r (start c now p messages tokens r)
  unfolding start
  start-Guards c now p messages tokens r n =
      let new = launched c now messages tokens r in
      let met = settled_meanwhile p.ready_at p.phase new in
      Guards-trans r new (start c now p messages tokens r)
        (launched-Guards c now messages tokens r n)
        (Guards-trans new met (start c now p messages tokens r)
          (settled_meanwhile-Guards p.ready_at p.phase new) (prepared-Guards c now p p.error met))

  after_start-runtime :
      (e : Option String) (tokens : ℕ) (messages : List M) (r : Runtime M) (v : View M)
      → (after_start e tokens messages r v).runtime ≡ r
  unfolding after_start
  after_start-runtime e tokens messages r v = ground arith

  begin-Guards :
      (b : Option Breaker) (c : Config) (now : ℕ) (p : Preparation M) (messages : List M)
      (tokens : ℕ) (r : Runtime M)
      → r.breaker ≡ b
      → Guards r (begin b c now p messages tokens r).runtime
  unfolding begin started_step
  begin-Guards (some b) c now p messages tokens r e = Guards-refl r
  begin-Guards none c now p messages tokens r e =
      let new = start c now p messages tokens r in
      subst (λ after. Guards r after)
        (sym (after_start-runtime p.error tokens messages new (view new.background)))
        (start-Guards c now p messages tokens r e)

  pub idle_step-Guards :
      (c : Config) (now : ℕ) (p : Preparation M) (messages : List M) (tokens : ℕ) (r : Runtime M)
      → Guards r (idle_step c now p messages tokens r).runtime
  unfolding idle_step
  idle_step-Guards c now p messages tokens r =
      let counted = can_start c r in
      elim (Bool-cases (ltb r.budget.fork_prefix_limit_tokens tokens)) [
        | inl e ↦ rw e (Guards-refl r)
        | inr e ↦ rw e (elim (Bool-cases (leb c.limits.context_window tokens)) [
          | inl f ↦ rw f (Guards-refl r)
          | inr f ↦ rw f (elim (Bool-cases (is_due r.budget tokens)) [
            | inl g ↦ rw g (
                Guards-trans r counted
                  (begin counted.breaker c now p messages tokens counted).runtime
                  (can_start-Guards c r)
                  (begin-Guards counted.breaker c now p messages tokens counted refl))
            | inr g ↦ rw g (Guards-refl r)
          ])
        ])
      ]
