-- ===== src/Checkout/Service/Rejection.antt =====
-- Requests that `checkout` of apps/api/src/checkout/checkout.service.ts turns away before its transaction.
use casecellshop.Base.{
  ℕ, String, ◌≡◌, refl, inl, inr, Option, some, none, List, [], ◌∷◌, Bool-cases, is_falsy,
}
use casecellshop.Action.{Error, err, bad_request, Result-cases}
use casecellshop.World.{World}
use casecellshop.Checkout.Request.{
  Platform, CheckoutItemInput, CheckoutRequest, is_invalid, validate_items, validate_request,
}
use casecellshop.Checkout.Service.{checkout}
use casecellshop.Checkout.Service.Outcome.{checkout_no_customer, checkout_no_key, checkout_invalid}
use casecellshop.Checkout.Service.Replay.{IsChecked}

-- The error is an HTTP 400.
abbrev pub IsBadRequest : Error → Type 0
IsBadRequest e = (message : String) × (e ≡ bad_request message)

validate_items-IsBadRequest :
    (items : List CheckoutItemInput) (e : Error) → validate_items items ≡ err e → IsBadRequest e
unfolding validate_items
validate_items-IsBadRequest [] e h = cc
validate_items-IsBadRequest (item ∷ items) e h = elim (Bool-cases (is_invalid item)) [
  | inl bad ↦ ("Invalid checkout item", cc (rw bad at h))
  | inr good ↦ validate_items-IsBadRequest items e (rw good at h)
]

items-IsBadRequest :
    (items : Option (List CheckoutItemInput)) (e : Error)
    → validate_request (record { items = items }) ≡ err e
    → IsBadRequest e
unfolding validate_request
items-IsBadRequest none e h = ("Checkout requires at least one item", cc)
items-IsBadRequest (some []) e h = ("Checkout requires at least one item", cc)
items-IsBadRequest (some (first ∷ rest)) e h = validate_items-IsBadRequest (first ∷ rest) e h

-- A checkout without a customer, without a key or with a request that fails the validation answers 400
-- and changes nothing: neither the database, nor a counter, nor the cache.
pub checkout_rejects :
    (p : Platform) (tracer : Option (ℕ → String)) (customer key : Option String)
    (body : CheckoutRequest) (w : World)
    → ¬ IsChecked customer key body
    → (e : Error) × ((checkout p tracer customer key body w ≡ (err e, w)) × IsBadRequest e)
checkout_rejects p tracer customer key body w unchecked = elim (Bool-cases (is_falsy customer)) [
  | inl c ↦ (
    bad_request "Missing X-Customer-Id header",
    (checkout_no_customer p tracer customer key body w c, ("Missing X-Customer-Id header", refl)),
  )
  | inr c ↦ elim (Bool-cases (is_falsy key)) [
    | inl k ↦ (
      bad_request "Missing Idempotency-Key header",
      (checkout_no_key p tracer customer key body w c k, ("Missing Idempotency-Key header", refl)),
    )
    | inr k ↦ elim (Result-cases (validate_request body)) [
      | inl (e, bad) ↦ (
        e,
        (
          checkout_invalid p tracer customer key body w c k e bad,
          items-IsBadRequest body.items e bad,
        ),
      )
      | inr (u, v) ↦ absurd (unchecked (c, k, v))
    ]
  ]
]
