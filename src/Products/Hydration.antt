-- ===== src/Products/Hydration.antt =====
-- `hydrateProducts` of apps/api/src/products/products.service.ts: the cards of a cached page, from Redis
-- and, for those that are missing there, from the database.
pub mod Calm
pub mod Spec
pub mod Runs
use casecellshop.Base.{
  ℕ, ◌+◌, String, Bool, true, false, not, Option, none, some, List, [], ◌∷◌, ◌++◌, map, concat,
  contains, decimal, is_some, length, select, sort, if◌then◌else◌,
}
use casecellshop.Base.Assoc.{lookup, insert}
use casecellshop.Action.{ok, err, Action, pure, modify, ◌>>=◌, ◌>>◌}
use casecellshop.Observability.Metrics.{record_product_card_hydration_miss}
use casecellshop.Observability.Trace.{span}
use casecellshop.World.{World, modify_metrics}
use casecellshop.Cache.Entry.{ProductListItem, CacheValue, card}
use casecellshop.Cache.Service.{get_json_many, acquire_lock, release_lock, or_catch, and_then}
use casecellshop.Products.Browsing.{Browsing}
use casecellshop.Products.Query.{NormalizedQuery}
use casecellshop.Products.Fetch.{fetch_products}
use casecellshop.Products.Cards.{card_key, cache_product_card}

-- The `Map` from ids to cards.
abbrev pub Found : Type 0
Found = List (String × ProductListItem)

-- A card that `getJsonMany` has read; under a card's key there is nothing else.
abbrev pub as_card : Option CacheValue → Option ProductListItem
as_card (some (card item)) = some item
as_card _ = none

abbrev pub set_card : String → Option ProductListItem → Found → Found
set_card id none found = found
set_card id (some item) found = insert id item found

-- `collectCachedProducts`
unfoldable pub collect : List String → List (Option CacheValue) → Found → Found
collect [] values found = found
collect (id ∷ ids) [] found = found
collect (id ∷ ids) (value ∷ values) found = collect ids values (set_card id (as_card value) found)

-- `findMissingProductIds`
abbrev pub missing_ids : List String → Found → List String
missing_ids ids found = select (λ id. not (is_some (lookup id found))) ids

-- `orderHydratedProducts`
unfoldable pub ordered : List String → Found → List ProductListItem
ordered [] found = []
ordered (id ∷ ids) found =
    let rest = ordered ids found in elim (lookup id found) [ none ↦ rest | some item ↦ item ∷ rest ]

-- `texts.join(',')`
unfoldable pub join : List String → String
join [] = ""
join (text ∷ []) = text
join (text ∷ more ∷ texts) = concat (text ∷ "," ∷ join (more ∷ texts) ∷ [])

unfoldable pub hydration_lock_key : Browsing → ℕ → List String → String
unfolding join
hydration_lock_key b version missing = concat (
    "lock:product:hydrate:v"
    ∷ decimal version
    ∷ ":"
    ∷ b.short_hash (join (sort b.code_unit_le missing))
    ∷ [])

abbrev pub release_if : Option (ℕ → String) → Bool → String → Action World (Unit {0})
release_if tracer true key = or_catch tt (release_lock tracer key)
release_if tracer false key = pure tt

-- `sleep`, for 25 ms and a random part, while other processes go on.
unfoldable pub sleep : Browsing → Action World (Unit {0})
sleep b w = (
  ok tt,
  record w {
    delays = w.delays ++ (25 + b.random (length w.delays)) ∷ [];
    redis = record w.redis { entries = b.meanwhile w.redis.entries };
  },
)

-- What a failed read of Redis counts as.
abbrev pub nothing_cached : List String → List (Option CacheValue)
nothing_cached = map (λ id. none)

abbrev pub read_cards :
    Option (ℕ → String) → ℕ → List String → Action World (List (Option CacheValue))
read_cards tracer version ids =
    or_catch (nothing_cached ids) (get_json_many tracer (map (card_key version) ids))

-- Without the lock: another process fetches the cards, so they are read once more after a wait.
unfoldable pub reread :
    Browsing → Option (ℕ → String) → ℕ → List String → Found → Action World Found
unfolding collect
reread b tracer version missing found = do
  sleep b
  values ← read_cards tracer version missing
  pure (collect missing values found)

abbrev pub cards_query : List String → NormalizedQuery
cards_query missing = record {
  brand = "";
  device = "";
  sort = "relevance";
  page = 1;
  page_size = length missing;
}

unfoldable pub cache_cards :
    Option (ℕ → String) → ℕ → List ProductListItem → Action World (Unit {0})
cache_cards tracer version [] = pure tt
cache_cards tracer version (item ∷ items) =
    cache_product_card tracer version item >> cache_cards tracer version items

unfoldable pub add_all : List ProductListItem → Found → Found
add_all [] found = found
add_all (item ∷ items) found = add_all items (insert item.id item found)

-- With the lock: the missing cards are fetched and cached.
unfoldable pub fetch_missing :
    Browsing → Option (ℕ → String) → ℕ → List String → Found → Action World Found
unfolding cache_cards add_all
fetch_missing b tracer version missing found = do
  items ←
      span tracer "repo.products.fetch_missing_cards"
        (fetch_products b (cards_query missing) (λ id. contains id missing))
  cache_cards tracer version items
  pure (add_all items found)

pub record HydratedProducts : Type 0 where
  pub items : List ProductListItem
  pub missing_product_card_ids : List String

abbrev pub count_missing : List String → Action World (Unit {0})
count_missing [] = pure tt
count_missing (id ∷ ids) =
    modify (modify_metrics (record_product_card_hydration_miss (length (id ∷ ids))))

-- From the point where some cards are known to be missing.
unfoldable pub hydrate_missing :
    Browsing → Option (ℕ → String) → ℕ → List String → Found → Action World HydratedProducts
unfolding reread fetch_missing ordered
hydrate_missing b tracer version ids found = do
  let missing = missing_ids ids found
  let key = hydration_lock_key b version missing
  has_lock ← or_catch false (acquire_lock tracer key)
  found' ←
      and_then
        (if has_lock
          then fetch_missing b tracer version missing found
          else reread b tracer version missing found)
        (release_if tracer has_lock key)
  count_missing (missing_ids ids found')
  pure (record { items = ordered ids found'; missing_product_card_ids = missing_ids ids found' })

-- Once it is known which cards are missing.
unfoldable pub hydrate_found :
    Browsing
    → Option (ℕ → String)
    → ℕ
    → List String
    → Found
    → List String
    → Action World HydratedProducts
unfolding ordered hydrate_missing
hydrate_found b tracer version ids found [] =
    pure (record { items = ordered ids found; missing_product_card_ids = [] })
hydrate_found b tracer version ids found (id ∷ missing) = hydrate_missing b tracer version ids found

unfoldable pub hydrate_products :
    Browsing → Option (ℕ → String) → ℕ → List String → Action World HydratedProducts
unfolding collect hydrate_found ordered
hydrate_products b tracer version [] = pure (record { items = []; missing_product_card_ids = [] })
hydrate_products b tracer version (id ∷ ids) = do
  values ← read_cards tracer version (id ∷ ids)
  let found = collect (id ∷ ids) values []
  hydrate_found b tracer version (id ∷ ids) found (missing_ids (id ∷ ids) found)
