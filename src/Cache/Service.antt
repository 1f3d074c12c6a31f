-- ===== src/Cache/Service.antt =====
-- libs/cache/src/cache.service.ts. Each command to Redis is measured, and may fail. Expiry is not
-- modelled: the time to live is dropped, and an entry may be gone whenever another process runs.
pub mod Frame
pub mod Calm
pub mod Runs
use Prim.Native.Char.{code}
use casecellshop.Base.{
  ℕ, String, Bool, true, false, Option, none, some, List, [], ◌∷◌, map, if◌then◌else◌, concat, eqb,
  is_some, ◌==◌,
}
use casecellshop.Base.Assoc.{lookup, insert, remove}
use casecellshop.Action.{other, Result, ok, err, Action, pure, modify, ◌>>=◌, ◌>>◌}
use casecellshop.Observability.Metrics.{
  Metrics, record_cache_hit, record_cache_miss, record_redis_operation,
}
use casecellshop.Observability.Trace.{span}
use casecellshop.World.{World, modify_metrics}
use casecellshop.Cache.Entry.{CacheValue, lock}

abbrev pub Entries : Type 0
Entries = List (String × CacheValue)

abbrev next_fault : List Bool → Bool
next_fault [] = false
next_fault (b ∷ bs) = b

abbrev rest_faults : List Bool → List Bool
rest_faults [] = []
rest_faults (b ∷ bs) = bs

-- One command: it fails and changes nothing, or runs on the entries.
unfoldable pub command : {A : Type 0} → (Entries → A × Entries) → Action World A
command run w =
    if next_fault w.redis.faults
    then (
      err (other "redis"),
      record w { redis = record w.redis { faults = rest_faults w.redis.faults } },
    )
    else let (a, entries) = run w.redis.entries in
      (ok a, record w { redis = record { entries = entries; faults = rest_faults w.redis.faults } })

abbrev measured : {A : Type 0} → String → (A → String) → Result A → Metrics → Metrics
measured operation outcome (ok a) = record_redis_operation operation (outcome a)
measured operation outcome (err e) = record_redis_operation operation "error"

-- `observeRedis`; `outcome` is `getRedisOutcome` at the operation.
unfoldable pub observe_redis :
    {A : Type 0} → Option (ℕ → String) → String → (A → String) → Action World A → Action World A
observe_redis tracer operation outcome callback w =
    let (r, w') = span tracer (concat ("cache." ∷ operation ∷ [])) callback w in
    (r, modify_metrics (measured operation outcome r) w')

abbrev done_outcome : {A : Type 0} → A → String
done_outcome a = "ok"

abbrev get_outcome : Option CacheValue → String
get_outcome none = "miss"
get_outcome (some v) = "hit"

-- `key.split(':')[0]`
unfoldable pub before_colon : String → String
before_colon String.[] = ""
before_colon (String.◌∷◌ c s) = if eqb (code c) b':' then "" else String.◌∷◌ c (before_colon s)

unfoldable pub cache_namespace : String → String
unfolding before_colon
cache_namespace key = let name = before_colon key in if name == "" then "unknown" else name

unfoldable pub record_lookup : String → Option CacheValue → World → World
unfolding cache_namespace
record_lookup key none = modify_metrics (record_cache_miss (cache_namespace key))
record_lookup key (some v) = modify_metrics (record_cache_hit (cache_namespace key))

unfoldable pub get_json : Option (ℕ → String) → String → Action World (Option CacheValue)
unfolding command observe_redis record_lookup
get_json tracer key = do
  value ← observe_redis tracer "get" get_outcome (command (λ m. (lookup key m, m)))
  modify (record_lookup key value)
  pure value

unfoldable pub record_lookups : List String → List (Option CacheValue) → World → World
unfolding record_lookup
record_lookups [] values w = w
record_lookups (key ∷ keys) [] w = w
record_lookups (key ∷ keys) (value ∷ values) w =
    record_lookups keys values (record_lookup key value w)

unfoldable pub get_json_many :
    Option (ℕ → String) → List String → Action World (List (Option CacheValue))
unfolding command observe_redis record_lookups
get_json_many tracer [] = pure []
get_json_many tracer (key ∷ keys) = do
  values ←
      observe_redis tracer "mget" done_outcome
        (command (λ m. (map (λ k. lookup k m) (key ∷ keys), m)))
  modify (record_lookups (key ∷ keys) values)
  pure values

unfoldable pub set_json : Option (ℕ → String) → String → CacheValue → Action World (Unit {0})
unfolding command observe_redis
set_json tracer key value =
    observe_redis tracer "set" done_outcome (command (λ m. (tt, insert key value m)))

unfoldable pub delete : Option (ℕ → String) → String → Action World (Unit {0})
unfolding command observe_redis
delete tracer key = observe_redis tracer "del" done_outcome (command (λ m. (tt, remove key m)))

abbrev pub set_nx : String → Entries → Bool × Entries
set_nx key m = if is_some (lookup key m) then (false, m) else (true, insert key lock m)

-- `SET key 1 NX`: whether the lock was free.
unfoldable pub acquire_lock : Option (ℕ → String) → String → Action World Bool
unfolding command observe_redis
acquire_lock tracer key = observe_redis tracer "lock" done_outcome (command (set_nx key))

unfoldable pub release_lock : Option (ℕ → String) → String → Action World (Unit {0})
unfolding command observe_redis
release_lock tracer key =
    observe_redis tracer "unlock" done_outcome (command (λ m. (tt, remove key m)))

-- `.catch(() => value)`
abbrev pub or_catch : {A : Type 0} → A → Action World A → Action World A
or_catch value m w = let (r, w') = m w in elim r [ ok a ↦ (ok a, w') | err e ↦ (ok value, w') ]

-- `try { … } finally { … }`: an error of the second part would replace the first part's result.
abbrev pub and_then : {A : Type 0} → Action World A → Action World (Unit {0}) → Action World A
and_then m after w =
    let (r, w') = m w in
    let (r', w'') = after w' in elim r' [ ok u ↦ (r, w'') | err e ↦ (err e, w'') ]
