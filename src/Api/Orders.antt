-- ===== src/Api/Orders.antt =====
-- Reading an order back: apps/api/src/orders/orders.controller.ts after a checkout.
use casecellshop.Base.{
  Option-cases, ℕ, String, ◌≡◌, refl, ap, sym, ◌∙◌, inl, inr, Option, none, some, find, eq_refl,
  ◌==◌, arith,
}
use casecellshop.Action.{ok}
use casecellshop.Store.{Db, Order, IdempotencyKey, completed}
use casecellshop.World.{World}
use casecellshop.Checkout.Request.{
  Platform, CheckoutRequest, CheckoutResult, text_of, normalize_request,
}
use casecellshop.Checkout.Service.{checkout}
use casecellshop.Checkout.Service.Outcome.{checkout-Ends}
use casecellshop.Checkout.Service.Repeat.{checkout-HasStored, checkout-IsChecked, find-append}
use casecellshop.Checkout.Steps.{find_entry, new_order, response_of}
use casecellshop.Checkout.Steps.Callback.{Succeeds}
use casecellshop.Observability.Http.Answers.{SparesContext}
use casecellshop.Api.Controllers.{get_by_id, get_by_idempotency_key, details}

module _ (p : Platform) (tracer : Option (ℕ → String)) (customer key : Option String)
    (body : CheckoutRequest) (w w' : World) (r : CheckoutResult) where
  -- After a checkout that succeeds, on the database that it left, the order's entry is read back by the
  -- customer and the key: it is completed and holds the body that the checkout answered with, and the
  -- read changes nothing.
  pub get_by_idempotency_key-checkout :
      (checkout p tracer customer key body w).0 ≡ ok r
      → w'.db ≡ (checkout p tracer customer key body w).1.db
      → (entry : IdempotencyKey) × (get_by_idempotency_key customer (text_of key) w'
          ≡ (ok (200, entry), w'))
        × (entry.status ≡ completed)
        × (entry.response_body ≡ some r.body)
  unfolding get_by_idempotency_key
  get_by_idempotency_key-checkout done same =
      let s = checkout-HasStored p tracer customer key body w r done in
      let named = (checkout-IsChecked p tracer customer key body w r done).0 in
      let found : find_entry (text_of customer) (text_of key) w'.db ≡ some s.entry =
        ap (find_entry (text_of customer) (text_of key)) same ∙ s.is_stored in
      (s.entry, rw (named, found) refl, s.is_completed, s.has_body)

  -- The order that a 202 has recorded, by its id.
  accepted-found :
      Succeeds p
        (text_of customer)
        (text_of key)
        (p.request_hash (normalize_request p body))
        (normalize_request p body)
        w.db
        w'.db
        r
      → r.http_status ≡ 202
      → find (λ (row : Order). row.id == p.cuid w.db.next_id) w.db.orders ≡ none
      → (order : Order) × (response_of order ≡ r.body)
        × (order.customer_id ≡ text_of customer)
        × (find (λ (row : Order). row.id == r.body.order_id) w'.db.orders ≡ some order)
  accepted-found (inl s) is_202 fresh =
      let clash : ⊥ = omega (arith, s.is_200, is_202) in absurd clash
  accepted-found (inr s) is_202 fresh =
      let order = new_order p (text_of customer) (text_of key) s.rows w.db in
      let answered : response_of order ≡ r.body =
        ap (λ (x : CheckoutResult). x.body) (sym s.records.is_result) in
      (
        order,
        answered,
        refl,
        ap (λ id. find (λ (row : Order). row.id == id) w'.db.orders)
              (ap (λ b. b.order_id) (sym answered))
            ∙ ap (λ (db : Db). find (λ (row : Order). row.id == p.cuid w.db.next_id) db.orders)
                s.records.is_after
            ∙ find-append (λ (row : Order). row.id == p.cuid w.db.next_id) w.db.orders order fresh
                (eq_refl (p.cuid w.db.next_id)),
      )

  -- After a checkout that is accepted with a 202, where no order has the id that the database hands out next,
  -- the order is read back by the id of the answer: it is the customer's and agrees with the answer in its
  -- status, total and currency, and the read changes nothing.
  pub get_by_id-checkout :
      (checkout p tracer customer key body w).0 ≡ ok r
      → w'.db ≡ (checkout p tracer customer key body w).1.db
      → r.http_status ≡ 202
      → find (λ (row : Order). row.id == p.cuid w.db.next_id) w.db.orders ≡ none
      → (order : Order) × (get_by_id r.body.order_id w' ≡ (ok (200, details w'.db order), w'))
        × (order.customer_id ≡ text_of customer)
        × (response_of order ≡ r.body)
  unfolding get_by_id
  get_by_id-checkout done same is_202 fresh =
      let ends = rw done at (checkout-Ends p tracer customer key body w) in
      let (order, answered, owner, found) = accepted-found (rw (← same) at ends) is_202 fresh in
      (order, rw found refl, owner, answered)

pub get_by_id-SparesContext : (id : String) → SparesContext (get_by_id id)
unfolding get_by_id
get_by_id-SparesContext id w =
    elim (Option-cases (find (λ (row : Order). row.id == id) w.db.orders)) [
      | inl gone ↦ rw gone refl
      | inr (order, found) ↦ rw found refl
    ]
