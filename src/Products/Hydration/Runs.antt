-- ===== src/Products/Hydration/Runs.antt =====
-- `hydrateProducts` of apps/api/src/products/products.service.ts while no command to Redis fails.
use casecellshop.Base.{
  ℕ, String, Bool, true, false, ◌≡◌, refl, Option, List, [], ◌∷◌, map, contains, if◌then◌else◌,
}
use casecellshop.Base.Assoc.{lookup, insert, remove}
use casecellshop.Action.{Action, pure, ◌>>=◌, ◌>>◌}
use casecellshop.World.{World}
use casecellshop.Store.{Db}
use casecellshop.Observability.Trace.{span}
use casecellshop.Cache.Entry.{ProductListItem, card}
use casecellshop.Cache.Service.{
  Entries, get_json_many, set_json, acquire_lock, release_lock, set_nx, or_catch, and_then,
}
use casecellshop.Cache.Service.Runs.{
  Runs, unchanged, pure-Runs, bind-Runs, or_catch-Runs, span-Runs, and_then-Runs,
  get_json_many-Runs, set_json-Runs, release_lock-Runs, acquire_lock-Runs,
}
use casecellshop.Products.Browsing.{Browsing}
use casecellshop.Products.Query.{NormalizedQuery}
use casecellshop.Products.Fetch.{fetch_products}
use casecellshop.Products.Cards.{card_key, cache_product_card}
use casecellshop.Products.Hydration.{
  Found, hydrate_products, hydrate_missing, hydrate_found, missing_ids, reread, fetch_missing,
  cards_query, cache_cards, add_all, collect, count_missing, hydration_lock_key, release_if, sleep,
  read_cards, nothing_cached,
}
use casecellshop.Products.Listing.{acquire_query_lock_with_retry, try_acquire_query_lock}
use casecellshop.Products.Listing.Filled.{card_entries}
use casecellshop.Products.Hydration.Spec.{
  fetched, cards_in, hydrated_by, supplied, supplied_entries, hydrated_found,
  hydrated_found_entries, hydrated, hydrated_entries,
}

pub if-Runs :
    {A : Type 0} (test : Bool) (m k : Action World A) (a a' : Db → Entries → A)
    (f f' : Db → Entries → Entries)
    → Runs m a f
    → Runs k a' f'
    → Runs
        (if test then m else k)
        (λ db e. if test then a db e else a' db e)
        (λ db e. if test then f db e else f' db e)
if-Runs true m k a a' f f' r r' = r
if-Runs false m k a a' f f' r r' = r'

module _ (tracer : Option (ℕ → String)) (version : ℕ) where
  pub cache_cards-Runs :
      (items : List ProductListItem)
      → Runs (cache_cards tracer version items) (λ db e. tt) (λ db e. card_entries version items e)
  unfolding cache_cards cache_product_card
  cache_cards-Runs [] = pure-Runs tt
  cache_cards-Runs (item ∷ items) =
      bind-Runs (cache_product_card tracer version item) (λ u. cache_cards tracer version items)
        (λ db e. tt) (λ db e. insert (card_key version item.id) (card item) e) (λ u db e. tt)
        (λ u db e. card_entries version items e)
        (or_catch-Runs tt (set_json tracer (card_key version item.id) (card item)) _ _
          (set_json-Runs tracer (card_key version item.id) (card item)))
        (λ u. cache_cards-Runs items)

  read_cards-Runs :
      (wanted : List String)
      → Runs
          (read_cards tracer version wanted)
          (λ db e. map (λ k. lookup k e) (map (card_key version) wanted))
          unchanged
  read_cards-Runs wanted =
      or_catch-Runs (nothing_cached wanted) (get_json_many tracer (map (card_key version) wanted)) _
        _ (get_json_many-Runs tracer (map (card_key version) wanted))

module _ (tracer : Option (ℕ → String)) (key : String) where
  try_lock-Runs :
      Runs
        (or_catch false (acquire_lock tracer key))
        (λ db e. (set_nx key e).0)
        (λ db e. (set_nx key e).1)
  try_lock-Runs = or_catch-Runs false (acquire_lock tracer key) _ _ (acquire_lock-Runs tracer key)

  pub release-Runs : Runs (release_if tracer true key) (λ db e. tt) (λ db e. remove key e)
  release-Runs = or_catch-Runs tt (release_lock tracer key) _ _ (release_lock-Runs tracer key)

sleep-Runs : (b : Browsing) → Runs (sleep b) (λ db e. tt) (λ db e. b.meanwhile e)
unfolding sleep
sleep-Runs b = record {
  answers = λ w ready. refl;
  leaves = λ w ready i. record { entries = b.meanwhile w.redis.entries; faults = ready i };
  keeps = λ w ready. refl;
}

module _ (b : Browsing) (tracer : Option (ℕ → String)) where
  pub lock_with_retry-Runs :
      (key : String)
      → Runs
          (acquire_query_lock_with_retry b tracer key)
          (λ db e. if (set_nx key e).0 then true else (set_nx key (b.meanwhile (set_nx key e).1)).0)
          (λ db e.
            if (set_nx key e).0
            then (set_nx key e).1
            else (set_nx key (b.meanwhile (set_nx key e).1)).1)
  unfolding acquire_query_lock_with_retry
  lock_with_retry-Runs key =
      bind-Runs (try_acquire_query_lock tracer key) _ _ _ _ _ (try_lock-Runs tracer key) (λ free.
        if-Runs free _ _ _ _ _ _ (pure-Runs true)
          (bind-Runs (sleep b) _ _ _ _ _ (sleep-Runs b) (λ u. try_lock-Runs tracer key)))

module _ (b : Browsing) (tracer : Option (ℕ → String)) (up : b.query_fails ≡ false) where
  pub fetch_products-Runs :
      (query : NormalizedQuery) (extra : String → Bool)
      → Runs (fetch_products b query extra) (λ db e. fetched b query extra db) unchanged
  unfolding fetch_products
  fetch_products-Runs query extra = record {
    answers = λ w ready. rw up refl;
    leaves = λ w ready. rw up (λ i. record { entries = w.redis.entries; faults = ready i });
    keeps = λ w ready. rw up refl;
  }

  module _ (version : ℕ) where
    fetch_missing-Runs :
        (missing : List String) (found : Found)
        → Runs
            (fetch_missing b tracer version missing found)
            (λ db e. add_all (fetched b (cards_query missing) (λ id. contains id missing) db) found)
            (λ db e.
              card_entries version
                (fetched b (cards_query missing) (λ id. contains id missing) db)
                e)
    unfolding fetch_missing
    fetch_missing-Runs missing found =
        let extra : String → Bool = λ id. contains id missing in
        bind-Runs
          (span tracer "repo.products.fetch_missing_cards"
            (fetch_products b (cards_query missing) extra))
          (λ items. cache_cards tracer version items >> pure (add_all items found))
          (λ db e. fetched b (cards_query missing) extra db) unchanged
          (λ items db e. add_all items found) (λ items db e. card_entries version items e)
          (span-Runs tracer "repo.products.fetch_missing_cards"
            (fetch_products b (cards_query missing) extra) _ _
            (fetch_products-Runs (cards_query missing) extra))
          (λ items.
            bind-Runs (cache_cards tracer version items) (λ u. pure (add_all items found)) _ _
              (λ u db e. add_all items found) (λ u. unchanged)
              (cache_cards-Runs tracer version items) (λ u. pure-Runs (add_all items found)))

    reread-Runs :
        (missing : List String) (found : Found)
        → Runs
            (reread b tracer version missing found)
            (λ db e. cards_in version missing (b.meanwhile e) found)
            (λ db e. b.meanwhile e)
    unfolding reread cards_in
    reread-Runs missing found =
        bind-Runs (sleep b)
          (λ u. read_cards tracer version missing >>= λ values. pure (collect missing values found))
          _ _ (λ u db e. cards_in version missing e found) (λ u. unchanged) (sleep-Runs b)
          (λ u.
            bind-Runs (read_cards tracer version missing)
              (λ values. pure (collect missing values found)) _ _
              (λ values db e. collect missing values found) (λ values. unchanged)
              (read_cards-Runs tracer version missing)
              (λ values. pure-Runs (collect missing values found)))

  module _ (version : ℕ) where
    supply-Runs :
        (missing : List String) (found : Found) (has_lock : Bool)
        → Runs
            (and_then
              (if has_lock
                then fetch_missing b tracer version missing found
                else reread b tracer version missing found)
              (release_if tracer has_lock (hydration_lock_key b version missing)))
            (supplied b version missing found has_lock)
            (supplied_entries b version missing has_lock)
    unfolding supplied
    supply-Runs missing found true =
        and_then-Runs (fetch_missing b tracer version missing found) _ _ _ _
          (fetch_missing-Runs version missing found)
          (release-Runs tracer (hydration_lock_key b version missing))
    supply-Runs missing found false =
        and_then-Runs (reread b tracer version missing found) (pure tt) _ _ unchanged
          (reread-Runs version missing found) (pure-Runs tt)

    count_missing-Runs :
        (missing : List String) → Runs (count_missing missing) (λ db e. tt) unchanged
    count_missing-Runs [] = pure-Runs tt
    count_missing-Runs (id ∷ more) = record {
      answers = λ w ready. refl;
      leaves = λ w ready i. record { entries = w.redis.entries; faults = ready i };
      keeps = λ w ready. refl;
    }

  module _ (version : ℕ) where
    hydrate_missing-Runs :
        (wanted : List String) (found : Found)
        → let missing = missing_ids wanted found in
          let key = hydration_lock_key b version missing in
          Runs
            (hydrate_missing b tracer version wanted found)
            (λ db e.
              hydrated_by wanted
                (supplied b version missing found (set_nx key e).0 db (set_nx key e).1))
            (λ db e. supplied_entries b version missing (set_nx key e).0 db (set_nx key e).1)
    unfolding hydrate_missing hydrated_by
    hydrate_missing-Runs wanted found =
        let missing = missing_ids wanted found in
        let key = hydration_lock_key b version missing in
        bind-Runs (or_catch false (acquire_lock tracer key)) _ _ _
          (λ has_lock db e. hydrated_by wanted (supplied b version missing found has_lock db e))
          (λ has_lock. supplied_entries b version missing has_lock) (try_lock-Runs tracer key)
          (λ has_lock.
            bind-Runs _ _ (supplied b version missing found has_lock)
              (supplied_entries b version missing has_lock)
              (λ found' db e. hydrated_by wanted found') (λ found'. unchanged)
              (supply-Runs version missing found has_lock)
              (λ found'.
                bind-Runs (count_missing (missing_ids wanted found')) _ _ _
                  (λ u db e. hydrated_by wanted found') (λ u. unchanged)
                  (count_missing-Runs version (missing_ids wanted found')) (λ u. pure-Runs _)))

  module _ (version : ℕ) where
    hydrate_found-Runs :
        (wanted : List String) (found : Found) (missing : List String)
        → Runs
            (hydrate_found b tracer version wanted found missing)
            (hydrated_found b version wanted found missing)
            (hydrated_found_entries b version wanted found missing)
    unfolding hydrate_found hydrated_found hydrated_found_entries
    hydrate_found-Runs wanted found [] = pure-Runs _
    hydrate_found-Runs wanted found (id ∷ missing) = hydrate_missing-Runs version wanted found

  pub hydrate_products-Runs :
      (version : ℕ) (wanted : List String)
      → Runs
          (hydrate_products b tracer version wanted)
          (hydrated b version wanted)
          (hydrated_entries b version wanted)
  unfolding hydrate_products hydrated hydrated_entries cards_in
  hydrate_products-Runs version [] = pure-Runs _
  hydrate_products-Runs version (id ∷ more) =
      bind-Runs (read_cards tracer version (id ∷ more))
        (λ values.
          let found = collect (id ∷ more) values [] in
          hydrate_found b tracer version (id ∷ more) found (missing_ids (id ∷ more) found))
        _ _
        (λ values.
          let found = collect (id ∷ more) values [] in
          hydrated_found b version (id ∷ more) found (missing_ids (id ∷ more) found))
        (λ values.
          let found = collect (id ∷ more) values [] in
          hydrated_found_entries b version (id ∷ more) found (missing_ids (id ∷ more) found))
        (read_cards-Runs tracer version (id ∷ more))
        (λ values.
          let found = collect (id ∷ more) values [] in
          hydrate_found-Runs version (id ∷ more) found (missing_ids (id ∷ more) found))
