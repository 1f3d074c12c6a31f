-- ===== src/Cache/Service/Runs.antt =====
-- What a run does to Redis while no command fails, as functions of the database and Redis's entries.
use casecellshop.Base.{ℕ, String, ◌≡◌, refl, ◌∙◌, ap, Option, none, some, List, [], ◌∷◌, map, arith}
use casecellshop.Base.Assoc.{lookup, insert, remove}
use casecellshop.Action.{ok, Action, pure, modify, ◌>>=◌, ◌>>◌}
use casecellshop.World.{World}
use casecellshop.Store.{Db}
use casecellshop.Observability.Trace.{span, start_span}
use casecellshop.Cache.Entry.{CacheValue, Redis}
use casecellshop.Cache.Service.Frame.{record_lookup-db, record_lookups-db}
use casecellshop.Cache.Service.{
  Entries, command, observe_redis, get_outcome, done_outcome, record_lookup, record_lookups,
  get_json, get_json_many, set_json, acquire_lock, release_lock, set_nx, or_catch, and_then,
}

-- Where no command fails, the run answers so, leaves such entries, and the database as it was.
pub record Runs {A : Type 0} (m : Action World A) (answer : Db → Entries → A)
    (change : Db → Entries → Entries) : Type 0 where
  pub answers : (w : World) → w.redis.faults ≡ [] → (m w).0 ≡ ok (answer w.db w.redis.entries)
  pub leaves :
      (w : World)
      → w.redis.faults ≡ []
      → (m w).1.redis ≡ record { entries = change w.db w.redis.entries; faults = [] }
  pub keeps : (w : World) → w.redis.faults ≡ [] → (m w).1.db ≡ w.db

abbrev pub unchanged : Db → Entries → Entries
unchanged db e = e

pub pure-Runs : {A : Type 0} (a : A) → Runs {A = A} (pure a) (λ db e. a) unchanged
pure-Runs a = record {
  answers = λ w ready. refl;
  leaves = λ w ready i. record { entries = w.redis.entries; faults = ready i };
  keeps = λ w ready. refl;
}

still_ready :
    {A : Type 0} (m : Action World A) (a : Db → Entries → A) (f : Db → Entries → Entries)
    → Runs m a f
    → (w : World) → w.redis.faults ≡ []
    → (m w).1.redis.faults ≡ []
still_ready m a f r w ready = ap (λ (x : Redis). x.faults) (r.leaves w ready)

pub bind-Runs :
    {A B : Type 0} (m : Action World A) (k : A → Action World B) (a : Db → Entries → A)
    (f : Db → Entries → Entries) (b : A → Db → Entries → B) (g : A → Db → Entries → Entries)
    → Runs m a f
    → ((x : A) → Runs (k x) (b x) (g x))
    → Runs (m >>= k) (λ db e. b (a db e) db (f db e)) (λ db e. g (a db e) db (f db e))
bind-Runs m k a f b g r next = record {
  answers = λ w ready.
      rw (r.answers w ready, ◌>>=◌)
        ((next (a w.db w.redis.entries)).answers (m w).1 (still_ready m a f r w ready) ∙ λ i.
          ok (b (a w.db w.redis.entries) (r.keeps w ready i) (r.leaves w ready i).entries));
  leaves = λ w ready.
      rw (r.answers w ready, ◌>>=◌)
        ((next (a w.db w.redis.entries)).leaves (m w).1 (still_ready m a f r w ready) ∙ λ i.
          record {
            entries = g (a w.db w.redis.entries) (r.keeps w ready i) (r.leaves w ready i).entries;
            faults = [];
          });
  keeps = λ w ready.
      rw (r.answers w ready, ◌>>=◌)
        ((next (a w.db w.redis.entries)).keeps (m w).1 (still_ready m a f r w ready)
          ∙ r.keeps w ready);
}

pub or_catch-Runs :
    {A : Type 0} (value : A) (m : Action World A) (a : Db → Entries → A)
    (f : Db → Entries → Entries)
    → Runs m a f
    → Runs (or_catch value m) a f
or_catch-Runs value m a f r = record {
  answers = λ w ready. rw (r.answers w ready, or_catch) refl;
  leaves = λ w ready. rw (r.answers w ready, or_catch) (r.leaves w ready);
  keeps = λ w ready. rw (r.answers w ready, or_catch) (r.keeps w ready);
}

pub span-Runs :
    {A : Type 0} (tracer : Option (ℕ → String)) (operation : String) (m : Action World A)
    (a : Db → Entries → A) (f : Db → Entries → Entries)
    → Runs m a f
    → Runs (span tracer operation m) a f
unfolding start_span
span-Runs none operation m a f r = r
span-Runs (some uuid) operation m a f r = record {
  answers = λ w ready. r.answers _ ready;
  leaves = λ w ready. r.leaves _ ready;
  keeps = λ w ready. r.keeps _ ready;
}

pub and_then-Runs :
    {A : Type 0} (m : Action World A) (after : Action World (Unit {0})) (a : Db → Entries → A)
    (f : Db → Entries → Entries) (g : Db → Entries → Entries)
    → Runs m a f
    → Runs after (λ db e. tt) g
    → Runs (and_then m after) a (λ db e. g db (f db e))
and_then-Runs m after a f g r r' = record {
  answers = λ w ready.
      rw (r'.answers (m w).1 (still_ready m a f r w ready), and_then) (r.answers w ready);
  leaves = λ w ready.
      rw (r'.answers (m w).1 (still_ready m a f r w ready), and_then)
        (r'.leaves (m w).1 (still_ready m a f r w ready) ∙ λ i. record {
          entries = g (r.keeps w ready i) (r.leaves w ready i).entries;
          faults = [];
        });
  keeps = λ w ready.
      rw (r'.answers (m w).1 (still_ready m a f r w ready), and_then)
        (r'.keeps (m w).1 (still_ready m a f r w ready) ∙ r.keeps w ready);
}

observe_redis-Runs :
    {A : Type 0} (tracer : Option (ℕ → String)) (operation : String) (outcome : A → String)
    (run : Entries → A × Entries)
    → Runs
        (observe_redis tracer operation outcome (command run))
        (λ db e. (run e).0)
        (λ db e. (run e).1)
unfolding observe_redis command start_span
observe_redis-Runs none operation outcome run = record {
  answers = λ w ready. ground (arith, ready);
  leaves = λ w ready. ground (arith, ready);
  keeps = λ w ready. ground (arith, ready);
}
observe_redis-Runs (some uuid) operation outcome run = record {
  answers = λ w ready. ground (arith, ready);
  leaves = λ w ready. ground (arith, ready);
  keeps = λ w ready. ground (arith, ready);
}

-- A change of the counters alone.
counted-Runs :
    {A : Type 0} (change : World → World) (a : A)
    → ((w : World) → (change w).db ≡ w.db)
    → ((w : World) → (change w).redis ≡ w.redis)
    → Runs (modify change >> pure a) (λ db e. a) unchanged
counted-Runs change a keeps spares = record {
  answers = λ w ready. refl;
  leaves = λ w ready. spares w ∙ λ i. record { entries = w.redis.entries; faults = ready i };
  keeps = λ w ready. keeps w;
}

record_lookup-redis :
    (key : String) (value : Option CacheValue) (w : World)
    → (record_lookup key value w).redis ≡ w.redis
unfolding record_lookup
record_lookup-redis key none w = refl
record_lookup-redis key (some v) w = refl

record_lookups-redis :
    (keys : List String) (values : List (Option CacheValue)) (w : World)
    → (record_lookups keys values w).redis ≡ w.redis
unfolding record_lookups
record_lookups-redis [] values w = refl
record_lookups-redis (key ∷ keys) [] w = refl
record_lookups-redis (key ∷ keys) (value ∷ values) w =
    record_lookups-redis keys values (record_lookup key value w) ∙ record_lookup-redis key value w

module _ (tracer : Option (ℕ → String)) where
  pub get_json-Runs : (key : String) → Runs (get_json tracer key) (λ db e. lookup key e) unchanged
  unfolding get_json
  get_json-Runs key =
      bind-Runs (observe_redis tracer "get" get_outcome (command (λ m. (lookup key m, m))))
        (λ value. modify (record_lookup key value) >> pure value) (λ db e. lookup key e) unchanged
        (λ value db e. value) (λ value. unchanged)
        (observe_redis-Runs tracer "get" get_outcome (λ m. (lookup key m, m)))
        (λ value.
          counted-Runs (record_lookup key value) value (record_lookup-db key value)
            (record_lookup-redis key value))

  pub get_json_many-Runs :
      (keys : List String)
      → Runs (get_json_many tracer keys) (λ db e. map (λ k. lookup k e) keys) unchanged
  unfolding get_json_many
  get_json_many-Runs [] = pure-Runs []
  get_json_many-Runs (key ∷ keys) =
      bind-Runs
        (observe_redis tracer "mget" done_outcome
          (command (λ m. (map (λ k. lookup k m) (key ∷ keys), m))))
        (λ values. modify (record_lookups (key ∷ keys) values) >> pure values)
        (λ db e. map (λ k. lookup k e) (key ∷ keys)) unchanged (λ values db e. values)
        (λ values. unchanged)
        (observe_redis-Runs tracer "mget" done_outcome
          (λ m. (map (λ k. lookup k m) (key ∷ keys), m)))
        (λ values.
          counted-Runs (record_lookups (key ∷ keys) values) values
            (record_lookups-db (key ∷ keys) values) (record_lookups-redis (key ∷ keys) values))

  pub set_json-Runs :
      (key : String) (value : CacheValue)
      → Runs (set_json tracer key value) (λ db e. tt) (λ db e. insert key value e)
  unfolding set_json
  set_json-Runs key value =
      observe_redis-Runs tracer "set" done_outcome (λ m. (tt, insert key value m))

  pub release_lock-Runs :
      (key : String) → Runs (release_lock tracer key) (λ db e. tt) (λ db e. remove key e)
  unfolding release_lock
  release_lock-Runs key = observe_redis-Runs tracer "unlock" done_outcome (λ m. (tt, remove key m))

  pub acquire_lock-Runs :
      (key : String)
      → Runs (acquire_lock tracer key) (λ db e. (set_nx key e).0) (λ db e. (set_nx key e).1)
  unfolding acquire_lock
  acquire_lock-Runs key = observe_redis-Runs tracer "lock" done_outcome (set_nx key)
