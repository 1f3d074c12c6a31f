-- ===== src/Products/Cards/Keys.antt =====
-- The keys of product cards in Redis.
use text.Mathlib.TextLemmas.{append_cancel_left, append_cancel_right}
use casecellshop.Base.{ℕ, String, ◌≡◌, decimal, decimal_inj}
use casecellshop.Cache.Keys.{colon-split, has_colon-decimal}
use casecellshop.Products.Cards.{card_key}

-- Two cards have the same key only if they are of the same version of the catalogue and of the same product.
pub card_key_inj :
    (v v' : ℕ) (id id' : String) → card_key v id ≡ card_key v' id' → (v ≡ v') × (id ≡ id')
unfolding card_key
card_key_inj v v' id id' e =
    let tails = append_cancel_left "product:card:v" _ _ e in
    let (number, rest) =
      colon-split (decimal v) (decimal v') _ _ (has_colon-decimal v) (has_colon-decimal v') tails in
    (decimal_inj v v' number, append_cancel_right id id' "" rest)
