-- ===== src/Hippocampus/Safety.antt =====
-- The breakers of the compaction runtime: what every operation on a task keeps of them.
pub mod Requests
pub mod Waits
pub mod Runs
use sci_pegasus.Common.{
  ℕ, suc, ◌+◌, String, Bool, true, false, ◌||◌, Option, none, some, List, [], ◌∷◌, ◌≡◌, refl, ◌∙◌,
  ltb, arith, if◌then◌else◌,
}
use sci_pegasus.Hippocampus.Tasks.{
  Breaker, Phase, running, Task, Runtime, Config, Event, on_start, on_ready, on_merged, on_failed,
  on_cancelled, on_handoff, on_breaker, with_background, settle, cancel, finish_failed,
  finish_cancelled,
}
use sci_pegasus.Hippocampus.Start.{can_start, launched, Preparation, start, settled_meanwhile}

abbrev pub is_set : Option Breaker → Bool
is_set none = false
is_set (some b) = true

-- The compactions that were started.
unfoldable pub starts : List Event → ℕ
starts [] = 0
starts (on_start tokens index at available ∷ rest) = suc (starts rest)
starts (on_ready duration ∷ rest) = starts rest
starts (on_merged duration wait tokens removed ∷ rest) = starts rest
starts (on_failed duration wait reason ∷ rest) = starts rest
starts (on_cancelled duration wait reason ∷ rest) = starts rest
starts (on_handoff duration tokens removed ∷ rest) = starts rest
starts (on_breaker b ∷ rest) = starts rest

module _ {ℓ} {M : Type ℓ} where
  -- Three failures in a row have set a breaker.
  unfoldable pub is_guarded : Runtime M → Bool
  is_guarded r = ltb r.consecutive_failures 3 || is_set r.breaker

  -- A breaker that is set stays, and nothing more is started.
  pub record Guards (r after : Runtime M) : Type 0 where
    pub guarded : is_guarded r ≡ true → is_guarded after ≡ true
    pub kept : (b : Breaker) → r.breaker ≡ some b → after.breaker ≡ some b
    pub unstarted : (b : Breaker) → r.breaker ≡ some b → starts after.events ≡ starts r.events

  pub Guards-refl : (r : Runtime M) → Guards r r
  Guards-refl r = record { guarded = λ g. g; kept = λ b e. e; unstarted = λ b e. refl }

  pub Guards-trans : (r s t : Runtime M) → Guards r s → Guards s t → Guards r t
  Guards-trans r s t g h = record {
    guarded = λ x. h.guarded (g.guarded x);
    kept = λ b e. h.kept b (g.kept b e);
    unstarted = λ b e. h.unstarted b (g.kept b e) ∙ g.unstarted b e;
  }

  pub settle-Guards : (now : ℕ) (phase : Phase M) (r : Runtime M) → Guards r (settle now phase r)
  unfolding settle is_guarded starts
  settle-Guards now phase r = record {
    guarded = λ g. ground arith;
    kept = λ b e. ground arith;
    unstarted = λ b e. ground arith;
  }

  pub finish_failed-Guards :
      (now wait : ℕ) (reason : String) (r : Runtime M) → Guards r (finish_failed now wait reason r)
  unfolding finish_failed is_guarded starts
  finish_failed-Guards now wait reason r = record {
    guarded = λ g. ground arith;
    kept = λ b e. ground arith;
    unstarted = λ b e. ground arith;
  }

  pub finish_cancelled-Guards :
      (now wait : ℕ) (reason : String) (r : Runtime M)
      → Guards r (finish_cancelled now wait reason r)
  unfolding finish_cancelled is_guarded starts
  finish_cancelled-Guards now wait reason r = record {
    guarded = λ g. ground arith;
    kept = λ b e. ground arith;
    unstarted = λ b e. ground arith;
  }

  pub can_start-Guards : (c : Config) (r : Runtime M) → Guards r (can_start c r)
  unfolding can_start is_guarded starts
  can_start-Guards c r = record {
    guarded = λ g. ground arith;
    kept = λ b e. ground arith;
    unstarted = λ b e. ground arith;
  }

  pub dropped-Guards : (r : Runtime M) → Guards r (with_background none r)
  unfolding is_guarded
  dropped-Guards r = record { guarded = λ g. g; kept = λ b e. e; unstarted = λ b e. refl }

  pub settled_meanwhile-Guards :
      (now : ℕ) (phase : Option (Phase M)) (r : Runtime M)
      → Guards r (settled_meanwhile now phase r)
  settled_meanwhile-Guards now none r = Guards-refl r
  settled_meanwhile-Guards now (some phase) r = settle-Guards now phase r
