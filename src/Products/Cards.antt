-- ===== src/Products/Cards.antt =====
-- The product cards of apps/api/src/products/products.service.ts in Redis: their keys, and the
-- deletion after a checkout.
pub mod Frame
pub mod Keys
use casecellshop.Base.{
  Bool, true, false, ℕ, String, Option, List, [], ◌∷◌, concat, decimal, or_else,
}
use casecellshop.Action.{Error, other, ok, err, Action, pure, ◌>>=◌, ◌>>◌}
use casecellshop.Store.{Db}
use casecellshop.Cache.Entry.{ProductListItem, CacheValue, card}
use casecellshop.Cache.Service.{delete, set_json, or_catch}
use casecellshop.World.{World}

abbrev pub version_of : Db → ℕ
version_of db = or_else db.catalog_version 1

-- The error of a read that the database fails.
abbrev pub read_failed : Error
read_failed = other "database"

-- `getCatalogVersion`; `fails` says whether the database fails the read.
abbrev pub get_catalog_version : Bool → Action World ℕ
get_catalog_version true w = (err read_failed, w)
get_catalog_version false w = (ok (version_of w.db), w)

unfoldable pub card_key : ℕ → String → String
unfolding decimal
card_key version id = concat ("product:card:v" ∷ decimal version ∷ ":" ∷ id ∷ [])

-- The deletions run at the same time; each is alone on its key, so their order does not matter.
unfoldable pub delete_cards : Option (ℕ → String) → ℕ → List String → Action World (Unit {0})
delete_cards tracer version [] = pure tt
delete_cards tracer version (id ∷ ids) =
    or_catch tt (delete tracer (card_key version id)) >> delete_cards tracer version ids

unfoldable pub invalidate_availability :
    Option (ℕ → String) → Bool → List String → Action World (Unit {0})
unfolding delete_cards
invalidate_availability tracer fails ids = do
  version ← get_catalog_version fails
  delete_cards tracer version ids

unfoldable pub cache_product_card :
    Option (ℕ → String) → ℕ → ProductListItem → Action World (Unit {0})
cache_product_card tracer version item =
    or_catch tt (set_json tracer (card_key version item.id) (card item))
