-- ===== src/Cache/Service/Frame.antt =====
-- The operations of the cache service and the database.
use casecellshop.Base.{
  ℕ, String, ◌≡◌, refl, ◌∙◌, inl, inr, Option, none, some, List, [], ◌∷◌, map, arith,
}
use casecellshop.Base.Assoc.{lookup, insert, remove}
use casecellshop.Action.{Action, pure, modify, ◌>>=◌, ◌>>◌, Result-cases}
use casecellshop.World.{World}
use casecellshop.Observability.Trace.{start_span}
use casecellshop.Cache.Entry.{CacheValue}
use casecellshop.Cache.Service.{
  Entries, command, observe_redis, get_outcome, done_outcome, record_lookup, record_lookups,
  get_json, get_json_many, set_json, acquire_lock, release_lock, set_nx,
}

-- The run leaves the database as it was, whether it answers or fails.
abbrev pub SparesDb : {A : Type 0} → Action World A → Type 0
SparesDb m = (w : World) → (m w).1.db ≡ w.db

bind-SparesDb :
    {A B : Type 0} (m : Action World A) (k : A → Action World B)
    → SparesDb m
    → ((a : A) → SparesDb (k a))
    → SparesDb (m >>= k)
bind-SparesDb m k a next w = elim (Result-cases (m w).0) [
  | inl (e, fails) ↦ rw (fails, ◌>>=◌) (a w)
  | inr (x, runs) ↦ rw (runs, ◌>>=◌) (next x (m w).1 ∙ a w)
]

observe_redis-SparesDb :
    {A : Type 0} (tracer : Option (ℕ → String)) (operation : String) (outcome : A → String)
    (run : Entries → A × Entries)
    → SparesDb (observe_redis tracer operation outcome (command run))
unfolding observe_redis command start_span
observe_redis-SparesDb none operation outcome run w = ground arith
observe_redis-SparesDb (some uuid) operation outcome run w = ground arith

pub record_lookup-db :
    (key : String) (value : Option CacheValue) (w : World) → (record_lookup key value w).db ≡ w.db
unfolding record_lookup
record_lookup-db key none w = refl
record_lookup-db key (some v) w = refl

pub record_lookups-db :
    (keys : List String) (values : List (Option CacheValue)) (w : World)
    → (record_lookups keys values w).db ≡ w.db
unfolding record_lookups
record_lookups-db [] values w = refl
record_lookups-db (key ∷ keys) [] w = refl
record_lookups-db (key ∷ keys) (value ∷ values) w =
    record_lookups-db keys values (record_lookup key value w) ∙ record_lookup-db key value w

module _ (tracer : Option (ℕ → String)) where
  pub get_json-SparesDb : (key : String) → SparesDb (get_json tracer key)
  unfolding get_json
  get_json-SparesDb key =
      bind-SparesDb (observe_redis tracer "get" get_outcome (command (λ m. (lookup key m, m))))
        (λ value. modify (record_lookup key value) >> pure value)
        (observe_redis-SparesDb tracer "get" get_outcome (λ m. (lookup key m, m)))
        (λ value w. record_lookup-db key value w)

  pub get_json_many-SparesDb : (keys : List String) → SparesDb (get_json_many tracer keys)
  unfolding get_json_many
  get_json_many-SparesDb [] w = refl
  get_json_many-SparesDb (key ∷ keys) w =
      bind-SparesDb
        (observe_redis tracer "mget" done_outcome
          (command (λ m. (map (λ k. lookup k m) (key ∷ keys), m))))
        (λ values. modify (record_lookups (key ∷ keys) values) >> pure values)
        (observe_redis-SparesDb tracer "mget" done_outcome
          (λ m. (map (λ k. lookup k m) (key ∷ keys), m)))
        (λ values w'. record_lookups-db (key ∷ keys) values w') w

  pub set_json-SparesDb : (key : String) (value : CacheValue) → SparesDb (set_json tracer key value)
  unfolding set_json
  set_json-SparesDb key value =
      observe_redis-SparesDb tracer "set" done_outcome (λ m. (tt, insert key value m))

  pub release_lock-SparesDb : (key : String) → SparesDb (release_lock tracer key)
  unfolding release_lock
  release_lock-SparesDb key =
      observe_redis-SparesDb tracer "unlock" done_outcome (λ m. (tt, remove key m))

  pub acquire_lock-SparesDb : (key : String) → SparesDb (acquire_lock tracer key)
  unfolding acquire_lock
  acquire_lock-SparesDb key = observe_redis-SparesDb tracer "lock" done_outcome (set_nx key)
