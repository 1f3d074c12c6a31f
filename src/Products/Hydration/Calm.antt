-- ===== src/Products/Hydration/Calm.antt =====
-- `hydrateProducts` of apps/api/src/products/products.service.ts while Redis fails.
use casecellshop.Base.{
  ℕ, String, Bool, true, false, ◌≡◌, refl, ◌∙◌, Option, List, [], ◌∷◌, map, contains, if◌then◌else◌,
}
use casecellshop.Action.{Action, pure, ◌>>=◌, ◌>>◌}
use casecellshop.World.{World}
use casecellshop.Observability.Trace.{span}
use casecellshop.Cache.Entry.{ProductListItem, card}
use casecellshop.Cache.Service.Calm.{
  IsCalm, pure-IsCalm, bind-IsCalm, if-IsCalm, or_catch-IsCalm, span-IsCalm,
}
use casecellshop.Cache.Service.Frame.{
  get_json_many-SparesDb, set_json-SparesDb, release_lock-SparesDb, acquire_lock-SparesDb,
}
use casecellshop.Cache.Service.{
  get_json_many, set_json, acquire_lock, release_lock, or_catch, and_then,
}
use casecellshop.Products.Browsing.{Browsing}
use casecellshop.Products.Query.{NormalizedQuery}
use casecellshop.Products.Fetch.{fetch_products}
use casecellshop.Products.Cards.{card_key, cache_product_card}
use casecellshop.Products.Hydration.{
  Found, hydrate_products, hydrate_missing, hydrate_found, missing_ids, reread, fetch_missing,
  cards_query, cache_cards, add_all, collect, count_missing, hydration_lock_key, release_if, sleep,
  read_cards, nothing_cached,
}

module _ (tracer : Option (ℕ → String)) (version : ℕ) where
  pub cache_product_card-IsCalm :
      (item : ProductListItem) → IsCalm (cache_product_card tracer version item)
  unfolding cache_product_card
  cache_product_card-IsCalm item =
      or_catch-IsCalm tt (set_json tracer (card_key version item.id) (card item))
        (set_json-SparesDb tracer (card_key version item.id) (card item))

  pub cache_cards-IsCalm :
      (items : List ProductListItem) → IsCalm (cache_cards tracer version items)
  unfolding cache_cards
  cache_cards-IsCalm [] = pure-IsCalm tt
  cache_cards-IsCalm (item ∷ items) =
      bind-IsCalm (cache_product_card tracer version item) (λ u. cache_cards tracer version items)
        (cache_product_card-IsCalm item) (λ u. cache_cards-IsCalm items)

  read_cards-IsCalm : (wanted : List String) → IsCalm (read_cards tracer version wanted)
  read_cards-IsCalm wanted =
      or_catch-IsCalm (nothing_cached wanted) (get_json_many tracer (map (card_key version) wanted))
        (get_json_many-SparesDb tracer (map (card_key version) wanted))

pub try_lock-IsCalm :
    (tracer : Option (ℕ → String)) (key : String)
    → IsCalm (or_catch false (acquire_lock tracer key))
try_lock-IsCalm tracer key =
    or_catch-IsCalm false (acquire_lock tracer key) (acquire_lock-SparesDb tracer key)

pub release_if-IsCalm :
    (tracer : Option (ℕ → String)) (held : Bool) (key : String)
    → IsCalm (release_if tracer held key)
release_if-IsCalm tracer true key =
    or_catch-IsCalm tt (release_lock tracer key) (release_lock-SparesDb tracer key)
release_if-IsCalm tracer false key = pure-IsCalm tt

pub and_then-IsCalm :
    {A : Type 0} (m : Action World A) (after : Action World (Unit {0}))
    → IsCalm m
    → IsCalm after
    → IsCalm (and_then m after)
and_then-IsCalm m after c d = record {
  answers =
      λ w. let (a, e) = c.answers w in let (u, f) = d.answers (m w).1 in (a, rw (f, and_then) e);
  keeps = λ w. let (u, f) = d.answers (m w).1 in rw (f, and_then) (d.keeps (m w).1 ∙ c.keeps w);
}

pub sleep-IsCalm : (b : Browsing) → IsCalm (sleep b)
unfolding sleep
sleep-IsCalm b = record { answers = λ w. (tt, refl); keeps = λ w. refl }

count_missing-IsCalm : (missing : List String) → IsCalm (count_missing missing)
count_missing-IsCalm [] = pure-IsCalm tt
count_missing-IsCalm (id ∷ more) = record { answers = λ w. (tt, refl); keeps = λ w. refl }

-- From here on the database answers the queries for products.
module _ (b : Browsing) (tracer : Option (ℕ → String)) (up : b.query_fails ≡ false) where
  pub fetch_products-IsCalm :
      (query : NormalizedQuery) (extra : String → Bool) → IsCalm (fetch_products b query extra)
  unfolding fetch_products
  fetch_products-IsCalm query extra = record {
    answers = λ w. rw up (_, refl);
    keeps = λ w. rw up refl;
  }

  module _ (version : ℕ) where
    fetch_missing-IsCalm :
        (missing : List String) (found : Found)
        → IsCalm (fetch_missing b tracer version missing found)
    unfolding fetch_missing
    fetch_missing-IsCalm missing found =
        let query = fetch_products b (cards_query missing) (λ id. contains id missing) in
        bind-IsCalm (span tracer "repo.products.fetch_missing_cards" query)
          (λ items. cache_cards tracer version items >> pure (add_all items found))
          (span-IsCalm tracer "repo.products.fetch_missing_cards" query
            (fetch_products-IsCalm (cards_query missing) (λ id. contains id missing)))
          (λ items.
            bind-IsCalm (cache_cards tracer version items) (λ u. pure (add_all items found))
              (cache_cards-IsCalm tracer version items) (λ u. pure-IsCalm (add_all items found)))

    reread-IsCalm :
        (missing : List String) (found : Found) → IsCalm (reread b tracer version missing found)
    unfolding reread
    reread-IsCalm missing found =
        bind-IsCalm (sleep b)
          (λ u. read_cards tracer version missing >>= λ values. pure (collect missing values found))
          (sleep-IsCalm b)
          (λ u.
            bind-IsCalm (read_cards tracer version missing)
              (λ values. pure (collect missing values found))
              (read_cards-IsCalm tracer version missing)
              (λ values. pure-IsCalm (collect missing values found)))

    hydrate_missing-IsCalm :
        (wanted : List String) (found : Found)
        → IsCalm (hydrate_missing b tracer version wanted found)
    unfolding hydrate_missing
    hydrate_missing-IsCalm wanted found =
        let missing = missing_ids wanted found in
        let key = hydration_lock_key b version missing in
        bind-IsCalm (or_catch false (acquire_lock tracer key)) _ (try_lock-IsCalm tracer key)
          (λ has_lock.
            bind-IsCalm
              (and_then
                (if has_lock
                  then fetch_missing b tracer version missing found
                  else reread b tracer version missing found)
                (release_if tracer has_lock key))
              _
              (and_then-IsCalm _ _
                (if-IsCalm has_lock _ _ (fetch_missing-IsCalm missing found)
                  (reread-IsCalm missing found))
                (release_if-IsCalm tracer has_lock key))
              (λ found'.
                bind-IsCalm (count_missing (missing_ids wanted found')) _
                  (count_missing-IsCalm (missing_ids wanted found')) (λ u. pure-IsCalm _)))

    hydrate_found-IsCalm :
        (wanted : List String) (found : Found) (missing : List String)
        → IsCalm (hydrate_found b tracer version wanted found missing)
    unfolding hydrate_found
    hydrate_found-IsCalm wanted found [] = pure-IsCalm _
    hydrate_found-IsCalm wanted found (id ∷ missing) = hydrate_missing-IsCalm wanted found

    pub hydrate_products-IsCalm :
        (wanted : List String) → IsCalm (hydrate_products b tracer version wanted)
    unfolding hydrate_products
    hydrate_products-IsCalm [] = pure-IsCalm _
    hydrate_products-IsCalm (id ∷ more) =
        bind-IsCalm (read_cards tracer version (id ∷ more)) _
          (read_cards-IsCalm tracer version (id ∷ more))
          (λ values.
            let found = collect (id ∷ more) values [] in
            hydrate_found-IsCalm (id ∷ more) found (missing_ids (id ∷ more) found))
