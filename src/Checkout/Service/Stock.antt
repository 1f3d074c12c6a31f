-- ===== src/Checkout/Service/Stock.antt =====
-- What a checkout does to the stock of each product.
use casecellshop.Base.{
  true, ℕ, ◌+◌, String, ◌≡◌, ◌⊎◌, inl, inr, Option, arith, ap, List, eqb, if◌then◌else◌,
}
use casecellshop.Action.{Result, ok, err}
use casecellshop.Store.{Db}
use casecellshop.World.{World}
use casecellshop.Products.Cards.{read_failed}
use casecellshop.Checkout.Request.{
  Platform, CheckoutItem, CheckoutRequest, CheckoutResult, normalize_request,
}
use casecellshop.Checkout.Steps.Stock.{available_of, reserved_of, ordered_of, reserved_rows-units}
use casecellshop.Checkout.Service.{checkout}
use casecellshop.Checkout.Service.Outcome.{CheckoutEnds, checkout-Ends}

-- The units of a product that a checkout with this result has sold: those of an accepted order.
abbrev pub sold : String → List CheckoutItem → Result CheckoutResult → ℕ
sold id items (err e) = 0
sold id items (ok r) = if eqb r.http_status 202 then ordered_of id items else 0

-- Units move from the shelf to the reservations, and no more than were on the shelf.
abbrev pub Sells : String → ℕ → Db → Db → Type 0
Sells id n db db' =
    (available_of id db'.inventory + n ≡ available_of id db.inventory)
    × (reserved_of id db'.inventory ≡ reserved_of id db.inventory + n)

-- The units of an order that was recorded before the database failed the read of the catalogue's version.
abbrev pub SellsUnanswered :
    Platform → CheckoutRequest → String → Db → Result CheckoutResult → Db → Type 0
SellsUnanswered p body id db r db' =
    (p.version_fails ≡ true)
    × (r ≡ err read_failed)
    × Sells id (ordered_of id (normalize_request p body)) db db'

CheckoutEnds-Sells :
    (p : Platform) (customer key : Option String) (body : CheckoutRequest) (id : String)
    (db db' : Db) (r : Result CheckoutResult)
    → CheckoutEnds p customer key body db r db'
    → Sells id (sold id (normalize_request p body) r) db db' ⊎ SellsUnanswered p body id db r db'
CheckoutEnds-Sells p customer key body id db db' (err e) (inl h) = inl (rw h (omega arith))
CheckoutEnds-Sells p customer key body id db db' (err e) (inr (fails, is, (r, inl replayed))) =
    inl (rw replayed.is_unchanged (omega arith))
CheckoutEnds-Sells p customer key body id db db' (err e) (inr (fails, is, (r, inr accepted))) =
    let same = ap (λ (x : Db). x.inventory) accepted.records.is_after in
    inr (
      fails,
      ap (λ x. err x) is,
      rw same (reserved_rows-units id (normalize_request p body) db.inventory accepted.is_found),
    )
CheckoutEnds-Sells p customer key body id db db' (ok r) (inl replayed) =
    inl (rw (replayed.is_unchanged, replayed.is_200) (omega arith))
CheckoutEnds-Sells p customer key body id db db' (ok r) (inr accepted) =
    let e = ap (λ (x : Db). x.inventory) accepted.records.is_after in
    let s = ap (λ (x : CheckoutResult). x.http_status) accepted.records.is_result in
    inl
      (rw (e, s) (reserved_rows-units id (normalize_request p body) db.inventory accepted.is_found))

-- For every product, a checkout moves exactly the units of an accepted order from the shelf to the
-- reservations, and none otherwise; so no unit is sold twice, and none that is not on the shelf. Where the
-- database fails the read of the catalogue's version after the commit, the checkout fails with that error and
-- has moved either none, or the units of the order that it has recorded.
pub checkout-Sells :
    (p : Platform) (tracer : Option (ℕ → String)) (customer key : Option String)
    (body : CheckoutRequest) (id : String) (w : World)
    → let (r, w') = checkout p tracer customer key body w in
      Sells id (sold id (normalize_request p body) r) w.db w'.db
      ⊎ SellsUnanswered p body id w.db r w'.db
checkout-Sells p tracer customer key body id w =
    CheckoutEnds-Sells p customer key body id w.db _ _ (checkout-Ends p tracer customer key body w)
