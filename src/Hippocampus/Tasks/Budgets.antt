-- ===== src/Hippocampus/Tasks/Budgets.antt =====
-- The operations on a task keep the budget.
use sci_pegasus.Common.{ℕ, String, ◌≡◌, arith}
use sci_pegasus.Hippocampus.Tasks.{Phase, Runtime, settle, finish_failed, finish_cancelled}

module _ {ℓ} {M : Type ℓ} (now : ℕ) (r : Runtime M) where
  pub settle-budget : (phase : Phase M) → (settle now phase r).budget ≡ r.budget
  unfolding settle
  settle-budget phase = ground arith

  pub finish_failed-budget :
      (wait : ℕ) (reason : String) → (finish_failed now wait reason r).budget ≡ r.budget
  unfolding finish_failed
  finish_failed-budget wait reason = ground arith

  pub finish_cancelled-budget :
      (wait : ℕ) (reason : String) → (finish_cancelled now wait reason r).budget ≡ r.budget
  unfolding finish_cancelled
  finish_cancelled-budget wait reason = ground arith
