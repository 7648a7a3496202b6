-- ===== src/RateLimit/Limits/Caching.antt =====
-- What the cache of plan limits answers, and for how long.
use sci_pegasus.Common.{
  ℕ, ◌+◌, ◌<◌, ◌≡◌, ◌≢◌, refl, String, ◌==◌, eq_refl, lt→ltb, none, some, if◌then◌else◌,
}
use sci_pegasus.RateLimit.Limits.{
  UserLimits, default_limits, map_doc_to_limits, Cache, CacheEntry, cache_ttl_ms, PlanRead, failed,
  missing, found, fetch_limits, load_cached, load_limits_for_plan,
}

-- The limits that a read gives.
unfoldable pub limits_of : PlanRead → UserLimits
limits_of failed = default_limits
limits_of missing = default_limits
limits_of (found doc) = map_doc_to_limits doc

abbrev with_entry : String → CacheEntry → Cache → Cache
with_entry plan entry cache k = if plan == k then some entry else cache k

cached_answer :
    (plan : String) (later stored_at : ℕ) (other : PlanRead) (entry : CacheEntry) (cache : Cache)
    → later < entry.fetched_at + cache_ttl_ms
    → load_limits_for_plan plan later stored_at other (with_entry plan entry cache)
      ≡ (entry.limits, with_entry plan entry cache)
unfolding load_limits_for_plan load_cached
cached_answer plan later stored_at other entry cache h =
    rw (eq_refl plan, load_cached) (rw (lt→ltb later (entry.fetched_at + cache_ttl_ms) h) refl)

repeated :
    (plan : String) (later stored_at : ℕ) (other : PlanRead) (entry : CacheEntry) (cache : Cache)
    (answer : UserLimits × Cache)
    → answer ≡ (entry.limits, with_entry plan entry cache)
    → later < entry.fetched_at + cache_ttl_ms
    → load_limits_for_plan plan later stored_at other answer.1 ≡ answer
repeated plan later stored_at other entry cache answer e h =
    rw e (cached_answer plan later stored_at other entry cache h)

-- A plan that is not cached gets the limits of its row, or the defaults, and the answer of a read
-- that did not fail is repeated, whatever later reads would give, until the cache's time has passed;
-- a read that failed leaves the cache as it was.
pub load_limits_for_plan_lem :
    (plan : String) (now stored_at later later_stored : ℕ) (read other : PlanRead) (cache : Cache)
    → cache plan ≡ none
    → later < stored_at + cache_ttl_ms
    → ((load_limits_for_plan plan now stored_at read cache).0 ≡ limits_of read)
      × (read ≢ failed
          → load_limits_for_plan plan later later_stored other
              (load_limits_for_plan plan now stored_at read cache).1
            ≡ load_limits_for_plan plan now stored_at read cache)
      × ((load_limits_for_plan plan now stored_at failed cache).1 ≡ cache)
unfolding load_limits_for_plan load_cached fetch_limits limits_of
load_limits_for_plan_lem plan now stored_at later later_stored failed other cache e h =
    (rw (e, load_cached) refl, λ n. absurd (n refl), rw (e, load_cached) refl)
load_limits_for_plan_lem plan now stored_at later later_stored missing other cache e h = (
  rw (e, load_cached) refl,
  λ n.
      repeated plan later later_stored other
        (record { limits = default_limits; fetched_at = stored_at }) cache _
        (rw (e, load_cached) refl) h,
  rw (e, load_cached) refl,
)
load_limits_for_plan_lem plan now stored_at later later_stored (found doc) other cache e h = (
  rw (e, load_cached) refl,
  λ n.
      repeated plan later later_stored other
        (record { limits = map_doc_to_limits doc; fetched_at = stored_at }) cache _
        (rw (e, load_cached) refl) h,
  rw (e, load_cached) refl,
)
