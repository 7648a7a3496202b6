-- ===== src/RateLimit/Limits.antt =====
-- lib/rate-limit/limits.ts: the thresholds of a plan, read through a cache of 30 seconds.
pub mod Caching
use sci_pegasus.Common.{ℕ, ◌+◌, String, ◌==◌, Option, none, some, ltb, if◌then◌else◌}

pub record UserLimits : Type 0 where
  pub messages_per_minute : ℕ
  pub messages_per_day : ℕ
  pub concurrent_loops : ℕ

abbrev pub default_limits : UserLimits
default_limits = record { messages_per_minute = 10; messages_per_day = 200; concurrent_loops = 8 }

-- A row of plan_limits, whose fields may be missing.
pub record PlanRow : Type 0 where
  pub messages_per_minute : Option ℕ
  pub messages_per_day : Option ℕ
  pub concurrent_loops : Option ℕ

abbrev or_default : Option ℕ → ℕ → ℕ
or_default none d = d
or_default (some n) d = n

unfoldable pub map_doc_to_limits : PlanRow → UserLimits
map_doc_to_limits doc = record {
  messages_per_minute = or_default doc.messages_per_minute default_limits.messages_per_minute;
  messages_per_day = or_default doc.messages_per_day default_limits.messages_per_day;
  concurrent_loops = or_default doc.concurrent_loops default_limits.concurrent_loops;
}

pub record CacheEntry : Type 0 where
  pub limits : UserLimits
  pub fetched_at : ℕ

abbrev pub Cache : Type 0
Cache = String → Option CacheEntry

abbrev pub cache_ttl_ms : ℕ
cache_ttl_ms = 30000

-- What the read of the database gave.
pub data PlanRead : Type 0 where
  failed missing : PlanRead
  found : PlanRow → PlanRead

abbrev store_limits : Cache → String → UserLimits → ℕ → Cache
store_limits cache plan limits now k =
    if plan == k then some (record { limits = limits; fetched_at = now }) else cache k

-- The branch that reads the database: a failed read is not cached, a missing row is, as the default.
fetch_limits : String → ℕ → PlanRead → Cache → UserLimits × Cache
unfolding map_doc_to_limits
fetch_limits plan stored_at failed cache = (default_limits, cache)
fetch_limits plan stored_at missing cache =
    (default_limits, store_limits cache plan default_limits stored_at)
fetch_limits plan stored_at (found doc) cache =
    (map_doc_to_limits doc, store_limits cache plan (map_doc_to_limits doc) stored_at)

load_cached : Option CacheEntry → String → ℕ → ℕ → PlanRead → Cache → UserLimits × Cache
unfolding fetch_limits
load_cached none plan now stored_at read cache = fetch_limits plan stored_at read cache
load_cached (some entry) plan now stored_at read cache =
    if ltb now (entry.fetched_at + cache_ttl_ms)
    then (entry.limits, cache)
    else fetch_limits plan stored_at read cache

-- `now` is the clock at the test of the cache, `stored_at` at the write to it.
unfoldable pub load_limits_for_plan : String → ℕ → ℕ → PlanRead → Cache → UserLimits × Cache
unfolding load_cached
load_limits_for_plan plan now stored_at read cache =
    load_cached (cache plan) plan now stored_at read cache

-- getUserLimits: a plan that cannot be read is `free`.
unfoldable pub get_user_limits : Option String → ℕ → ℕ → PlanRead → Cache → UserLimits × Cache
unfolding load_limits_for_plan
get_user_limits none now stored_at read cache = load_limits_for_plan "free" now stored_at read cache
get_user_limits (some plan) now stored_at read cache =
    load_limits_for_plan plan now stored_at read cache
