-- ===== src/Hippocampus/Telemetry/Anchor.antt =====
-- The estimate of the next request's input, from the last answer of the provider.
use sci_pegasus.Common.{ℕ, ◌+◌, ◌-◌, ◌≡◌}
use sci_pegasus.Common.Integers.{add_from_zero-minus}
use sci_pegasus.Hippocampus.Telemetry.{
  Telemetry, record_main, correction_of, input_token_correction, estimate_current_input,
}

-- After a request is recorded, an input of the next one is estimated as the provider's count for the
-- recorded request plus what the local estimate has grown since, or less what it has shrunk, and never
-- below zero; whatever was recorded before.
pub estimate_anchored :
    (t : Telemetry) (input local output duration next : ℕ)
    → estimate_current_input next (record_main input local output duration t) ≡ next + input - local
unfolding estimate_current_input record_main input_token_correction correction_of
estimate_anchored t input local output duration next = add_from_zero-minus next input local
