-- ===== src/Checkout/Request.antt =====
-- The request of apps/api/src/checkout/checkout.service.ts: its types, validation and normal form.
pub mod Locks
pub mod Validity
use casecellshop.Base.{
  sort, ℕ, suc, String, Bool, true, false, ◌||◌, not, Option, none, some, List, [], ◌∷◌, map,
  is_falsy, if◌then◌else◌, contains,
}
use casecellshop.Store.{AcceptedResponse}
use casecellshop.Action.{bad_request, Result, ok, err}

-- A JavaScript value where a number is expected: an integer, pos n or -(n + 1), or anything else,
-- with what `value <= 0` says of it.
pub data JsNumber : Type 0 where
  pos negsuc : ℕ → JsNumber
  other : Bool → JsNumber

pub record CheckoutItemInput : Type 0 where
  pub product_id : Option String
  pub quantity : JsNumber

-- `items` is undefined in a body that lacks it, and where there is no body.
pub record CheckoutRequest : Type 0 where
  pub items : Option (List CheckoutItemInput)

-- An item once the request has passed validation.
pub record CheckoutItem : Type 0 where
  pub product_id : String
  pub quantity : ℕ

pub record CheckoutResult : Type 0 where
  pub http_status : ℕ
  pub body : AcceptedResponse

-- What the service takes from elsewhere: the ids of the database (`cuid()`) and of `randomUUID`,
-- by the number of the call; SHA-256 over the JSON text of the items; `localeCompare`, as the test
-- that it does not answer a positive number; and the order of UTF-16 code units, by which `sort`
-- without a comparison goes.
pub record Platform : Type 0 where
  pub cuid : ℕ → String
  pub uuid : ℕ → String
  pub request_hash : List CheckoutItem → String
  pub locale_le : String → String → Bool
  pub code_unit_le : String → String → Bool
  pub version_fails : Bool

abbrev pub at_most_zero : JsNumber → Bool
at_most_zero (pos n) = elim n [ suc k ↦ false | _ ↦ true ]
at_most_zero (negsuc n) = true
at_most_zero (other b) = b

-- `Number.isInteger(value)`
abbrev pub is_integer : JsNumber → Bool
is_integer (other b) = false
is_integer _ = true

abbrev pub is_invalid : CheckoutItemInput → Bool
is_invalid item =
    is_falsy item.product_id || (at_most_zero item.quantity || not (is_integer item.quantity))

-- The loop of `validateRequest`.
unfoldable pub validate_items : List CheckoutItemInput → Result (Unit {0})
validate_items [] = ok tt
validate_items (item ∷ items) =
    if is_invalid item then err (bad_request "Invalid checkout item") else validate_items items

abbrev validate_some : List CheckoutItemInput → Result (Unit {0})
unfolding validate_items
validate_some [] = err (bad_request "Checkout requires at least one item")
validate_some (item ∷ items) = validate_items (item ∷ items)

unfoldable pub validate_request : CheckoutRequest → Result (Unit {0})
unfolding validate_items
validate_request body = elim body.items [
  | none ↦ err (bad_request "Checkout requires at least one item")
  | some items ↦ validate_some items
]

-- Only a request that has passed validation is normalised, so every quantity is a `pos`.
abbrev pub whole : JsNumber → ℕ
whole (pos n) = n
whole _ = 0

abbrev pub text_of : Option String → String
text_of none = ""
text_of (some s) = s

abbrev pub to_item : CheckoutItemInput → CheckoutItem
to_item item = record { product_id = text_of item.product_id; quantity = whole item.quantity }

abbrev pub items_of : CheckoutRequest → List CheckoutItemInput
items_of body = elim body.items [ none ↦ [] | some items ↦ items ]

unfoldable pub normalize_request : Platform → CheckoutRequest → List CheckoutItem
unfolding sort
normalize_request p body =
    sort (λ left right. p.locale_le left.product_id right.product_id) (map to_item (items_of body))

abbrev pub product_ids : List CheckoutItem → List String
product_ids = map (λ item. item.product_id)

-- `[...new Set(texts)]`: the first occurrences, in order.
unfoldable pub distinct_from : List String → List String → List String
distinct_from seen [] = []
distinct_from seen (s ∷ ss) =
    let rest = distinct_from (s ∷ seen) ss in
    let skip = distinct_from seen ss in if contains s seen then skip else s ∷ rest

unfoldable pub inventory_lock_keys : Platform → List CheckoutItem → List String
unfolding sort distinct_from
inventory_lock_keys p items = sort p.code_unit_le (distinct_from [] (product_ids items))
