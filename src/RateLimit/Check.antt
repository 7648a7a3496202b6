-- ===== src/RateLimit/Check.antt =====
-- lib/rate-limit/check.ts: the message rate and the number of concurrent loops.
pub mod Atomic
use sci_pegasus.Common.{
  ℕ, ◌+◌, max, String, Bool, true, false, Option, none, some, leb, if◌then◌else◌,
}
use Prim.Native.String.{◌++◌}
use sci_pegasus.RateLimit.Limits.{UserLimits}
use sci_pegasus.RateLimit.Window.{Store, CheckResult, peek, record_event, day_ms}

pub data Code : Type 0 where
  messages_per_minute_exceeded messages_per_day_exceeded concurrent_loops_exceeded : Code

-- A refusal carries its wait; its text, which only words the code and the wait, is left out.
pub data RateLimitResult : Type 0 where
  allowed : RateLimitResult
  denied : Code → Option ℕ → RateLimitResult

abbrev minute_ms : ℕ
minute_ms = 60000

unfoldable pub minute_key : String → String
minute_key user = "msg:" ++ (user ++ ":minute")

unfoldable pub day_key : String → String
day_key user = "msg:" ++ (user ++ ":day")

-- The readings of the clock by the two peeks and the two records.
pub record Readings : Type 0 where
  pub minute_peek : ℕ
  pub day_peek : ℕ
  pub minute_record : ℕ
  pub day_record : ℕ

unfoldable pub check_message_rate : UserLimits → String → Readings → Store → RateLimitResult × Store
check_message_rate limits user t s =
    let (minute, s₁) =
      peek t.minute_peek (minute_key user) minute_ms limits.messages_per_minute s in
    if minute.allowed
    then (let (day, s₂) = peek t.day_peek (day_key user) day_ms limits.messages_per_day s₁ in
        if day.allowed
        then (
          allowed,
          record_event t.day_record (day_key user)
              (record_event t.minute_record (minute_key user) s₂),
        )
        else (denied messages_per_day_exceeded day.retry_after_ms, s₂))
    else (denied messages_per_minute_exceeded minute.retry_after_ms, s₁)

-- With a Run to exclude, only the persisted count matters.
unfoldable pub check_concurrency : UserLimits → Bool → ℕ → ℕ → RateLimitResult
check_concurrency limits excludes_run persisted_active local_active =
    let active = if excludes_run then persisted_active else max persisted_active local_active in
    if leb limits.concurrent_loops active
    then denied concurrent_loops_exceeded (some 30000)
    else allowed
