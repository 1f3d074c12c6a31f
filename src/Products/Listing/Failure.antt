-- ===== src/Products/Listing/Failure.antt =====
-- `listProducts` of apps/api/src/products/products.service.ts when the database fails the query for products:
-- what its `finally` leaves in Redis.
use casecellshop.Base.{
  false, ℕ, String, Bool, true, ◌≡◌, refl, ap, ◌∙◌, Option, none, some, [], arith, if◌then◌else◌,
  eq_iff,
}
use casecellshop.Base.Assoc.{lookup, insert, remove, lookup-insert, lookup-remove}
use casecellshop.Action.{Error, other, Result, ok, err, Action, ◌>>=◌, ◌>>◌, pure}
use casecellshop.Action.Laws.{bind-ok}
use casecellshop.World.{World}
use casecellshop.Observability.Trace.{span, start_span}
use casecellshop.Cache.Entry.{Redis, lock}
use casecellshop.Cache.Service.{get_json, or_catch, and_then}
use casecellshop.Cache.Service.Runs.{or_catch-Runs, get_json-Runs}
use casecellshop.Products.Browsing.{Browsing}
use casecellshop.Products.Query.{ProductQuery, NormalizedQuery, normalize_query, query_key}
use casecellshop.Products.Fetch.{fetch_products}
use casecellshop.Products.Cards.{get_catalog_version, version_of}
use casecellshop.Products.Hydration.{release_if}
use casecellshop.Products.Hydration.Runs.{release-Runs, lock_with_retry-Runs}
use casecellshop.Products.Listing.{
  ProductPage, list_products, list_cached, list_missed, list_fetched, populate, page_with,
  miss_locked, acquire_query_lock_with_retry, lock_key, as_ids,
}
use casecellshop.Products.Listing.Hits.{IsCold}

-- The run fails with the error and changes neither Redis nor the database.
record Throws {A : Type 0} (m : Action World A) (e : Error) : Type 0 where
  throws : (w : World) → (m w).0 ≡ err e
  spares : (w : World) → (m w).1.redis ≡ w.redis
  keeps : (w : World) → (m w).1.db ≡ w.db

bind-Throws :
    {A B : Type 0} (m : Action World A) (k : A → Action World B) (e : Error)
    → Throws m e
    → Throws (m >>= k) e
bind-Throws m k e t = record {
  throws = λ w. rw (t.throws w, ◌>>=◌) refl;
  spares = λ w. rw (t.throws w, ◌>>=◌) (t.spares w);
  keeps = λ w. rw (t.throws w, ◌>>=◌) (t.keeps w);
}

span-Throws :
    {A : Type 0} (tracer : Option (ℕ → String)) (operation : String) (m : Action World A)
    (e : Error)
    → Throws m e
    → Throws (span tracer operation m) e
unfolding start_span
span-Throws none operation m e t = t
span-Throws (some uuid) operation m e t = record {
  throws = λ w. t.throws _;
  spares = λ w. t.spares _;
  keeps = λ w. t.keeps _;
}

module _ (b : Browsing) (tracer : Option (ℕ → String)) (down : b.query_fails ≡ true) where
  fetch-Throws :
      (query : NormalizedQuery) (extra : String → Bool)
      → Throws (fetch_products b query extra) (other "database")
  unfolding fetch_products
  fetch-Throws query extra = record {
    throws = λ w. rw down refl;
    spares = λ w. rw down refl;
    keeps = λ w. rw down refl;
  }

  list_fetched-Throws :
      (version : ℕ) (query : NormalizedQuery)
      → Throws (list_fetched b tracer version query) (other "database")
  unfolding list_fetched
  list_fetched-Throws version query =
      bind-Throws (span tracer "repo.products.fetch" (fetch_products b query (λ id. true)))
        (λ items.
          populate tracer version (query_key version query) items
          >> pure (page_with items query version "miss-populated"))
        (other "database")
        (span-Throws tracer "repo.products.fetch" (fetch_products b query (λ id. true))
          (other "database") (fetch-Throws query (λ id. true)))

  -- From the point where the page is known to be missing.
  module _ (version : ℕ) (query : NormalizedQuery) (w : World) (ready : w.redis.faults ≡ [])
      (free : lookup (lock_key (query_key version query)) w.redis.entries ≡ none) where
    abbrev key : String
    key = lock_key (query_key version query)

    abbrev locked : World
    locked = (acquire_query_lock_with_retry b tracer key w).1

    abbrev ended : Action World ProductPage
    ended = and_then (list_fetched b tracer version query) (release_if tracer true key)

    list_missed-locked : list_missed b tracer version query w ≡ ended locked
    unfolding list_missed
    list_missed-locked =
        let obtained : (acquire_query_lock_with_retry b tracer key w).0 ≡ ok true =
          (lock_with_retry-Runs b tracer key).answers w ready ∙ rw free refl in
        bind-ok (acquire_query_lock_with_retry b tracer key)
          (λ held. if held then ended else pure (miss_locked query version)) w obtained

    locked-redis : locked.redis ≡ record { entries = insert key lock w.redis.entries; faults = [] }
    locked-redis = (lock_with_retry-Runs b tracer key).leaves w ready ∙ rw free refl

    -- The failure, after which the lock is released.
    ended-fails :
        ((ended locked).0 ≡ err (other "database"))
        × ((ended locked).1.redis
            ≡ record { entries = remove key (insert key lock w.redis.entries); faults = [] })
        × ((ended locked).1.db ≡ locked.db)
    ended-fails =
        let t = list_fetched-Throws version query in
        let v : World = (list_fetched b tracer version query locked).1 in
        let there : v.redis ≡ record { entries = insert key lock w.redis.entries; faults = [] } =
          t.spares locked ∙ locked-redis in
        let clear = ap (λ (r : Redis). r.faults) there in
        let r = release-Runs tracer key in
        (
          rw (r.answers v clear, and_then) (t.throws locked),
          rw (r.answers v clear, and_then)
              (r.leaves v clear
                ∙ ap (λ (x : Redis). record { entries = remove key x.entries; faults = [] }) there),
          rw (r.answers v clear, and_then) (r.keeps v clear ∙ t.keeps locked),
        )

    ended-lookup :
        (other_key : String)
        → lookup other_key (remove key (insert key lock w.redis.entries))
          ≡ lookup other_key w.redis.entries
    ended-lookup other_key = ground (
      arith,
      lookup-remove key other_key (insert key lock w.redis.entries),
      lookup-insert key other_key lock w.redis.entries,
      eq_iff key other_key,
      free,
    )

  -- Where Redis answers every command and holds neither the page of the query nor its lock, and the database
  -- fails the query for products, a listing fails with that error; the lock is free again, Redis holds under
  -- every key what it held before, and the database is as it was.
  pub list_products_fails :
      b.version_fails ≡ false
      → (query : ProductQuery) (w : World) (other_key : String) → IsCold b query w
      → let (r, w') = list_products b tracer query w in
        (r ≡ err (other "database"))
        × (lookup other_key w'.redis.entries ≡ lookup other_key w.redis.entries)
        × (w'.db ≡ w.db)
  unfolding list_products list_cached
  list_products_fails known query w other_key cold =
      let normal = normalize_query b query in
      let version = version_of w.db in
      let read = or_catch none (get_json tracer (query_key version normal)) in
      let reads =
        or_catch-Runs none (get_json tracer (query_key version normal)) _ _
          (get_json-Runs tracer (query_key version normal)) in
      let w1 : World = (read w).1 in
      let here : w1.redis ≡ record { entries = w.redis.entries; faults = [] } =
        reads.leaves w cold.ready in
      let ready : w1.redis.faults ≡ [] = ap (λ (r : Redis). r.faults) here in
      let free : lookup (lock_key (query_key version normal)) w1.redis.entries ≡ none =
        ap (λ (r : Redis). lookup (lock_key (query_key version normal)) r.entries) here
        ∙ cold.lock_free in
      let known_version : (get_catalog_version b.version_fails w).0 ≡ ok version = rw known refl in
      let known_world : (get_catalog_version b.version_fails w).1 ≡ w = rw known refl in
      let missed : (read w).0 ≡ ok none = reads.answers w cold.ready ∙ ap ok cold.no_page in
      let is : list_products b tracer query w
          ≡ ended version normal w1 ready free (locked version normal w1 ready free) =
        bind-ok (get_catalog_version b.version_fails)
          (λ v. or_catch none (get_json tracer (query_key v normal)) >>= λ value.
            list_cached b tracer v normal (as_ids value))
          w known_version
        ∙ ap
            (λ (v : World).
              (read >>= λ value. list_cached b tracer version normal (as_ids value)) v)
            known_world
        ∙ bind-ok read (λ value. list_cached b tracer version normal (as_ids value)) w missed
        ∙ list_missed-locked version normal w1 ready free in
      let (fails, after, same) = ended-fails version normal w1 ready free in
      (
        ap (λ (x : Result ProductPage × World). x.0) is ∙ fails,
        ap (λ (x : Result ProductPage × World). lookup other_key x.1.redis.entries) is
            ∙ ap (λ (r : Redis). lookup other_key r.entries) after
            ∙ ended-lookup version normal w1 ready free other_key
            ∙ ap (λ (r : Redis). lookup other_key r.entries) here,
        ap (λ (x : Result ProductPage × World). x.1.db) is
            ∙ same
            ∙ (lock_with_retry-Runs b tracer (lock_key (query_key version normal))).keeps w1 ready
            ∙ reads.keeps w cold.ready,
      )
