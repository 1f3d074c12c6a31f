-- ===== src/Tests/Checkouts.antt =====
-- Checkouts of the small shop.
use Prim.Native.Nat.{ℕ}
use casecellshop.Base.{
  ◌↔◌, ◌⊎◌, String, arith, contains, Bool-cases, inl, inr, ◌≡◌, refl, none, some, true, [], ◌∷◌,
  ◌≢◌, eq_iff, ◌==◌, decimal,
}
use casecellshop.Action.{ok, err, conflict, Action, throw, prisma}
use casecellshop.Checkout.Request.{inventory_lock_keys, product_ids, validate_items}
use casecellshop.Checkout.Request.Locks.{
  IsOrder, IsSorted, IsDistinct, inventory_lock_keys-IsSorted,
}
use casecellshop.Checkout.Request.Validity.{IsValid, validate_request_iff}
use casecellshop.Checkout.Service.Rejection.{IsBadRequest, checkout_rejects}
use casecellshop.Checkout.Request.{Platform, CheckoutRequest, pos}
use casecellshop.Action.{Error}
use casecellshop.World.{World}
use casecellshop.Checkout.Request.{validate_request, normalize_request}
use casecellshop.Checkout.Retry.{run_with_retry}
use casecellshop.Checkout.Retry.Bounds.{Retries, run_with_retry-Retries}
use casecellshop.Checkout.Service.{checkout}
use casecellshop.Checkout.Service.Outcome.{CheckoutEnds, checkout-Ends}
use casecellshop.Checkout.Service.Stock.{SellsUnanswered, Sells, sold, checkout-Sells}
use casecellshop.Checkout.Service.Replay.{IsChecked, checkout_replays, checkout_refuses}
use casecellshop.Tests.Samples.{case_a_first, platform, shop, world, body, answer, entry, shop_with}

-- The database fails the read of the catalogue's version that follows the commit.
abbrev platform_cut_off : Platform
platform_cut_off = record platform { version_fails = true }

checkout-Ends_example :
    let (r, w') = checkout platform_cut_off none (some "ana") (some "k1") body (world shop) in
    CheckoutEnds platform_cut_off (some "ana") (some "k1") body shop r w'.db
checkout-Ends_example =
    checkout-Ends platform_cut_off none (some "ana") (some "k1") body (world shop)

checkout-Sells_example :
    let (r, w') = checkout platform none (some "ana") (some "k1") body (world shop) in
    Sells "case-a" (sold "case-a" (normalize_request platform body) r) shop w'.db
    ⊎ SellsUnanswered platform body "case-a" shop r w'.db
checkout-Sells_example =
    checkout-Sells platform none (some "ana") (some "k1") body "case-a" (world shop)

body-IsChecked : IsChecked (some "ana") (some "k1") body
unfolding validate_request
body-IsChecked = (refl, refl, refl)

same_hash : "case-acase-b" ≡ platform.request_hash (normalize_request platform body)
unfolding normalize_request
same_hash = refl

other_hash : "other" ≢ platform.request_hash (normalize_request platform body)
unfolding normalize_request
other_hash e =
    let same : ("other" == "case-acase-b") ≡ true = (eq_iff "other" "case-acase-b").1 e in cc

checkout_replays_example :
    let (r, w') =
      checkout platform none (some "ana") (some "k1") body (world (shop_with "case-acase-b")) in
    (r ≡ ok (record { http_status = 200; body = answer })) × (w'.db ≡ shop_with "case-acase-b")
checkout_replays_example =
    checkout_replays platform none (some "ana") (some "k1") body (world (shop_with "case-acase-b"))
      (entry "case-acase-b") answer body-IsChecked refl refl same_hash refl refl

checkout_refuses_example :
    let (r, w') =
      checkout platform none (some "ana") (some "k1") body (world (shop_with "other")) in
    (r ≡ err (conflict "Idempotency key reused with different payload"))
    × (w'.db ≡ shop_with "other")
checkout_refuses_example =
    checkout_refuses platform none (some "ana") (some "k1") body (world (shop_with "other"))
      (entry "other") body-IsChecked refl other_hash

abbrev conflicting : Action World ℕ
conflicting = throw (prisma "P2034")

run_with_retry-Retries_example :
    Retries conflicting 0 (world shop) (run_with_retry conflicting (world shop))
run_with_retry-Retries_example = run_with_retry-Retries conflicting (world shop)

-- Three waits between the four attempts.
conflicting_delays : (run_with_retry conflicting (world shop)).1.delays ≡ 25 ∷ 50 ∷ 100 ∷ []
unfolding run_with_retry
conflicting_delays = refl

decimal_digits : decimal 1204 ≡ "1204"
unfolding decimal
decimal_digits = refl

case_a_first-IsOrder : IsOrder case_a_first
case_a_first-IsOrder = record {
  total = λ a b. elim (Bool-cases (a == "case-a")) [
    | inl first ↦ inl (rw first refl)
    | inr later ↦ inr (rw later (ground arith))
  ];
  trans = λ a b c h k. ground arith;
}

inventory_lock_keys-IsSorted_example :
    let keys = inventory_lock_keys platform (normalize_request platform body) in
    IsSorted case_a_first keys
    × (IsDistinct keys
        × ((id : String)
            → contains id keys ≡ contains id (product_ids (normalize_request platform body))))
inventory_lock_keys-IsSorted_example =
    inventory_lock_keys-IsSorted platform (normalize_request platform body) case_a_first-IsOrder

validate_request_iff_example : (validate_request body ≡ ok tt) ↔ IsValid body
validate_request_iff_example = validate_request_iff body

-- An item with the quantity 0.
abbrev empty_order : CheckoutRequest
empty_order = record { items = some (record { product_id = some "case-a"; quantity = pos 0 } ∷ []) }

empty_order-fails : ¬ IsChecked (some "ana") (some "k1") empty_order
unfolding validate_request validate_items
empty_order-fails (c, k, v) = cc

checkout_rejects_example :
    (e : Error) × ((checkout platform none (some "ana") (some "k1") empty_order (world shop)
        ≡ (err e, world shop))
      × IsBadRequest e)
checkout_rejects_example =
    checkout_rejects platform none (some "ana") (some "k1") empty_order (world shop)
      empty_order-fails
