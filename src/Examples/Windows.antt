-- ===== src/Examples/Windows.antt =====
-- lib/rate-limit: a window of 10 milliseconds with room for two, and one message.
use sci_pegasus.Common.{none, ◌≢◌, ◌≤◌, ◌≡◌, refl, false, some, [], ◌∷◌, arith, ◌+◌, length, leb}
use sci_pegasus.RateLimit.Window.{Store, events, prune, retry_after, collect, record_and_check}
use sci_pegasus.RateLimit.Window.Bound.{no_history, requests, admitted_bound}
use sci_pegasus.RateLimit.Window.Collector.{SameCheck, collect-SameCheck}
use sci_pegasus.RateLimit.Limits.{Cache, PlanRead, failed, found, load_limits_for_plan}
use sci_pegasus.RateLimit.Limits.Caching.{limits_of, load_limits_for_plan_lem}
use sci_pegasus.RateLimit.Window.Retry.{IsSorted, retry_exact}
use sci_pegasus.RateLimit.Limits.{default_limits}
use sci_pegasus.RateLimit.Check.{Readings, check_message_rate}
use sci_pegasus.RateLimit.Check.Atomic.{Charged, check_message_rate-Charged}

admitted_bound_example :
    length (prune 10 15 (requests "k" 10 2 no_history (1 ∷ 4 ∷ 5 ∷ 12 ∷ [])).admitted) ≤ 2
admitted_bound_example =
    admitted_bound "k" 10 2 (1 ∷ 4 ∷ 5 ∷ 12 ∷ []) 15
      (omega arith, (omega arith, (omega arith, (omega arith, tt)))) (omega arith)

abbrev full_store : Store
full_store key = some (1 ∷ 4 ∷ [])

full_store-IsSorted : IsSorted (events full_store "k")
unfolding events
full_store-IsSorted = ((omega arith, tt), (tt, tt))

full_store-fits : length (events full_store "k") ≤ 2
unfolding events
full_store-fits = omega arith

refused_now :
    (record_and_check 5 "k" 10 2 full_store).0 ≡ record { allowed = false; retry_after_ms = some 6 }
unfolding record_and_check events retry_after
refused_now = refl

retry_exact_example :
    (record_and_check 11 "k" 10 2 (record_and_check 5 "k" 10 2 full_store).1).0.allowed
    ≡ leb (5 + 6) 11
retry_exact_example =
    retry_exact full_store "k" 10 2 5 11 6 full_store-IsSorted full_store-fits refused_now
      (omega arith)

abbrev message_readings : Readings
message_readings = record { minute_peek = 5; day_peek = 6; minute_record = 7; day_record = 8 }

check_message_rate-Charged_example :
    Charged "u" message_readings 9
      (check_message_rate default_limits "u" message_readings full_store).0
      full_store
      (check_message_rate default_limits "u" message_readings full_store).1
check_message_rate-Charged_example =
    check_message_rate-Charged default_limits "u" message_readings full_store 9 (omega arith)
      (omega arith)

collect-SameCheck_example :
    SameCheck "k"
      (record_and_check 11 "k" 10 2 (collect 8 full_store))
      (record_and_check 11 "k" 10 2 full_store)
collect-SameCheck_example = collect-SameCheck full_store "k" 10 2 8 11 (omega arith) (omega arith)

abbrev empty_cache : Cache
empty_cache plan = none

abbrev plan_row : PlanRead
plan_row =
    found
      (record { messages_per_minute = some 20; messages_per_day = none; concurrent_loops = none })

load_limits_for_plan_lem_example :
    ((load_limits_for_plan "pro" 1000 1005 plan_row empty_cache).0 ≡ limits_of plan_row)
    × (plan_row ≢ failed
        → load_limits_for_plan "pro" 30000 30005 failed
            (load_limits_for_plan "pro" 1000 1005 plan_row empty_cache).1
          ≡ load_limits_for_plan "pro" 1000 1005 plan_row empty_cache)
    × ((load_limits_for_plan "pro" 1000 1005 failed empty_cache).1 ≡ empty_cache)
load_limits_for_plan_lem_example =
    load_limits_for_plan_lem "pro" 1000 1005 30000 30005 plan_row failed empty_cache refl
      (omega arith)
