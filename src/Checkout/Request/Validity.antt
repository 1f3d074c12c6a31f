-- ===== src/Checkout/Request/Validity.antt =====
-- The requests that `validateRequest` of apps/api/src/checkout/checkout.service.ts lets pass.
use casecellshop.Base.{
  ℕ, suc, zero, String, true, false, ◌≡◌, ◌≢◌, refl, ◌↔◌, inl, inr, Option, some, none, List, [],
  ◌∷◌, not, ◌||◌, eq_iff, Bool-cases, All, arith, is_falsy,
}
use casecellshop.Action.{ok}
use casecellshop.Checkout.Request.{
  JsNumber, pos, negsuc, other, CheckoutItemInput, CheckoutRequest, is_invalid, is_integer,
  at_most_zero, validate_items, validate_request,
}

-- A product id that is no empty text, and a positive integer.
abbrev pub IsValidItem : CheckoutItemInput → Type 0
IsValidItem item =
    ((id : String) × ((item.product_id ≡ some id) × (id ≢ "")))
    × ((n : ℕ) × (item.quantity ≡ pos (suc n)))

-- At least one item, and only such items.
abbrev pub IsValid : CheckoutRequest → Type 0
IsValid body =
    (first : CheckoutItemInput) × (rest : List CheckoutItemInput) × ((body.items
        ≡ some (first ∷ rest))
      × All IsValidItem (first ∷ rest))

has_id_of : (o : Option String) → is_falsy o ≡ false → (id : String) × ((o ≡ some id) × (id ≢ ""))
has_id_of none h = cc
has_id_of (some id) h = (id, (refl, λ e. ground (arith, eq_iff id "")))

is_positive_of :
    (q : JsNumber) → (at_most_zero q || not (is_integer q)) ≡ false → (n : ℕ) × (q ≡ pos (suc n))
is_positive_of (pos zero) h = cc
is_positive_of (pos (suc n)) h = (n, refl)
is_positive_of (negsuc n) h = cc
is_positive_of (other true) h = cc
is_positive_of (other false) h = cc

valid_of : (item : CheckoutItemInput) → is_invalid item ≡ false → IsValidItem item
valid_of item h =
    (has_id_of item.product_id (ground arith), is_positive_of item.quantity (ground arith))

not_invalid : (item : CheckoutItemInput) → IsValidItem item → is_invalid item ≡ false
not_invalid item ((id, (is, filled)), (n, positive)) =
    rw (is, positive) (ground (arith, eq_iff id ""))

validate_items-All :
    (items : List CheckoutItemInput) → validate_items items ≡ ok tt → All IsValidItem items
unfolding validate_items
validate_items-All [] h = tt
validate_items-All (item ∷ items) h = elim (Bool-cases (is_invalid item)) [
  | inl bad ↦ cc (rw bad at h)
  | inr good ↦ (valid_of item good, validate_items-All items (rw good at h))
]

All-validate_items :
    (items : List CheckoutItemInput) → All IsValidItem items → validate_items items ≡ ok tt
unfolding validate_items
All-validate_items [] a = refl
All-validate_items (item ∷ items) (v, a) = rw (not_invalid item v) (All-validate_items items a)

items-IsValid :
    (items : Option (List CheckoutItemInput))
    → validate_request (record { items = items }) ≡ ok tt
    → IsValid (record { items = items })
unfolding validate_request
items-IsValid none h = cc
items-IsValid (some []) h = cc
items-IsValid (some (first ∷ rest)) h = (first, rest, (refl, validate_items-All (first ∷ rest) h))

-- A request passes the validation just when it has at least one item, and each item has a product id
-- that is no empty text and a positive integer as its quantity.
pub validate_request_iff : (body : CheckoutRequest) → (validate_request body ≡ ok tt) ↔ IsValid body
unfolding validate_request
validate_request_iff body = (
  items-IsValid body.items,
  λ (first, rest, (is, a)). rw is (All-validate_items (first ∷ rest) a),
)
