-- ===== src/Hippocampus/Tasks/Endings.antt =====
-- A task that is finished is gone.
use sci_pegasus.Common.{ℕ, String, none, ◌≡◌, arith}
use sci_pegasus.Hippocampus.Tasks.{Runtime, finish_failed, finish_cancelled}

module _ {ℓ} {M : Type ℓ} where
  pub finish_failed-background :
      (now wait : ℕ) (reason : String) (r : Runtime M)
      → (finish_failed now wait reason r).background ≡ none
  unfolding finish_failed
  finish_failed-background now wait reason r = ground arith

  pub finish_cancelled-background :
      (now wait : ℕ) (reason : String) (r : Runtime M)
      → (finish_cancelled now wait reason r).background ≡ none
  unfolding finish_cancelled
  finish_cancelled-background now wait reason r = ground arith
