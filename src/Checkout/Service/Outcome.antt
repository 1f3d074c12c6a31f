-- ===== src/Checkout/Service/Outcome.antt =====
-- What a checkout leaves in the database, by its result.
use casecellshop.Base.{
  ℕ, ◌+◌, String, List, true, false, ◌≡◌, refl, inl, inr, ◌⊎◌, Bool, Option, none, some, is_falsy,
  Bool-cases,
}
use casecellshop.Action.{
  Error, bad_request, Result, ok, err, Result-cases, Action, pure, ◌>>=◌, ◌>>◌,
}
use casecellshop.Action.Laws.{bind-ok, bind-err}
use casecellshop.Store.{Db}
use casecellshop.Observability.Trace.{start_span, span_context, span_calls}
use casecellshop.Observability.Metrics.{record_checkout_started}
use casecellshop.Products.Cards.{invalidate_availability, read_failed}
use casecellshop.Products.Cards.Frame.{after_read, invalidate_availability_lem}
use casecellshop.World.{World, transaction}
use casecellshop.World.Transactions.{Ends, transaction-Ends}
use casecellshop.Checkout.Request.{
  Platform, CheckoutItem, CheckoutRequest, CheckoutResult, text_of, validate_request,
  normalize_request, product_ids,
}
use casecellshop.Checkout.Steps.{checkout_callback}
use casecellshop.Checkout.Steps.Callback.{Succeeds, checkout_callback-Succeeds}
use casecellshop.Checkout.Retry.{run_with_retry}
use casecellshop.Checkout.Retry.Bounds.{Retries, stop, again, run_with_retry-Retries}
use casecellshop.Checkout.Service.{process, checkout, finally, record_duration}

module _ {A : Type 0} (P : Db → Db → A → Type 0) where
  Retries-Ends :
      (operation : Action World A)
      → ((w : World) → Ends P w.db (operation w).0 (operation w).1.db)
      → {n : ℕ} {w : World} {r : Result A × World} → Retries operation n w r
      → Ends P w.db r.0 r.1.db
  Retries-Ends operation each (stop same final) = rw same (each _)
  Retries-Ends operation each {w = w} {r = r} (again e failed retried few rest) =
      let kept : (operation w).1.db ≡ w.db = rw failed at (each w) in
      rw kept at (Retries-Ends operation each rest)

module _ (p : Platform) (tracer : Option (ℕ → String)) (customer key hash : String)
    (items : List CheckoutItem) where
  transaction_each :
      (w : World)
      → let (r, w') = transaction (checkout_callback p customer key hash items) w in
        Ends (Succeeds p customer key hash items) w.db r w'.db
  transaction_each =
      transaction-Ends (Succeeds p customer key hash items)
        (checkout_callback p customer key hash items)
        (λ w r. checkout_callback-Succeeds p customer key hash items w {r = r})

  retried_each :
      (w : World)
      → let (r, w') =
          run_with_retry (transaction (checkout_callback p customer key hash items)) w in
        Ends (Succeeds p customer key hash items) w.db r w'.db
  retried_each w =
      Retries-Ends (Succeeds p customer key hash items) _ transaction_each
        (run_with_retry-Retries _ w)

  -- The retried transaction, under a span or not.
  process-Ends :
      (w : World)
      → let (r, w') = process p tracer customer key hash items w in
        Ends (Succeeds p customer key hash items) w.db r w'.db
  unfolding process start_span
  process-Ends w =
      elim tracer
        as (λ t.
          let (r, w') = process p t customer key hash items w in
          Ends (Succeeds p customer key hash items) w.db r w'.db) [
            | none ↦ retried_each w
            | some uuid ↦ retried_each (record w {
              context = some (span_context uuid w.uuids w.context);
              uuids = w.uuids + span_calls w.context;
            })
          ]

-- What the whole service call says.
abbrev pub CheckoutSucceeds :
    Platform → Option String → Option String → CheckoutRequest → Db → Db → CheckoutResult → Type 0
CheckoutSucceeds p customer key body =
    let items = normalize_request p body in
    Succeeds p (text_of customer) (text_of key) (p.request_hash items) items

-- The transaction has succeeded, but the database fails the read of the catalogue's version after it.
abbrev pub IsLost :
    Platform → Option String → Option String → CheckoutRequest → Db → Db → Error → Type 0
IsLost p customer key body db db' e =
    (p.version_fails ≡ true)
    × (e ≡ read_failed)
    × ((r : CheckoutResult) × CheckoutSucceeds p customer key body db db' r)

abbrev pub CheckoutEnds :
    Platform
    → Option String
    → Option String
    → CheckoutRequest
    → Db
    → Result CheckoutResult
    → Db
    → Type 0
CheckoutEnds p customer key body db (ok r) db' = CheckoutSucceeds p customer key body db db' r
CheckoutEnds p customer key body db (err e) db' = (db' ≡ db) ⊎ IsLost p customer key body db db' e

-- What the read of the version after the transaction makes of the transaction's result.
abbrev pub read_after : {A : Type 0} → Bool → Result A → Result A
read_after fails (err e) = err e
read_after fails (ok a) = after_read fails a

module _ (p : Platform) (tracer : Option (ℕ → String)) (customer key : Option String)
    (body : CheckoutRequest) where
  abbrev pub items : List CheckoutItem
  items = normalize_request p body

  abbrev pub processed : Action World CheckoutResult
  processed = do
    result ← process p tracer (text_of customer) (text_of key) (p.request_hash items) items
    invalidate_availability tracer p.version_fails (product_ids items)
    pure result

  abbrev pub started : World → World
  started w = record w { metrics = record_checkout_started w.metrics; outcome = "error" }

  pub checkout_no_customer :
      (w : World)
      → is_falsy customer ≡ true
      → checkout p tracer customer key body w
        ≡ (err (bad_request "Missing X-Customer-Id header"), w)
  unfolding checkout
  checkout_no_customer w c = rw (c, checkout)

  pub checkout_no_key :
      (w : World)
      → is_falsy customer ≡ false
      → is_falsy key ≡ true
      → checkout p tracer customer key body w
        ≡ (err (bad_request "Missing Idempotency-Key header"), w)
  unfolding checkout
  checkout_no_key w c k = rw (c, k, checkout)

  pub checkout_invalid :
      (w : World)
      → is_falsy customer ≡ false
      → is_falsy key ≡ false
      → (e : Error) → validate_request body ≡ err e
      → checkout p tracer customer key body w ≡ (err e, w)
  unfolding checkout
  checkout_invalid w c k e v = rw (c, k, v, checkout)

  pub checkout_valid :
      (w : World)
      → is_falsy customer ≡ false
      → is_falsy key ≡ false
      → validate_request body ≡ ok tt
      → checkout p tracer customer key body w ≡ finally processed record_duration (started w)
  unfolding checkout
  checkout_valid w c k v = rw (c, k, v, checkout)

  deleted_lem :
      (fails : Bool) (w : World) (r : CheckoutResult)
      → let (answer, w') = (invalidate_availability tracer fails (product_ids items) >> pure r) w in
        (answer ≡ after_read fails r) × (w'.db ≡ w.db)
  deleted_lem true w r =
      let m = invalidate_availability tracer true (product_ids items) in
      let (done, same) = invalidate_availability_lem tracer true (product_ids items) w in
      rw (bind-err m (λ u. pure r) w done) (refl, same)
  deleted_lem false w r =
      let m = invalidate_availability tracer false (product_ids items) in
      let (done, same) = invalidate_availability_lem tracer false (product_ids items) w in
      rw (bind-ok m (λ u. pure r) w done) (refl, same)

  -- Deleting the cards does not change the database, and fails only where the read of the version does.
  pub processed_lem :
      (w : World) (r : Result CheckoutResult)
      → (process p tracer (text_of customer) (text_of key) (p.request_hash items) items w).0 ≡ r
      → let (answer, w') =
          process p tracer (text_of customer) (text_of key) (p.request_hash items) items w in
        ((processed w).0 ≡ read_after p.version_fails answer) × ((processed w).1.db ≡ w'.db)
  processed_lem w (err x) is =
      let e =
        bind-err (process p tracer (text_of customer) (text_of key) (p.request_hash items) items)
          (λ r. invalidate_availability tracer p.version_fails (product_ids items) >> pure r) w
          is in
      rw (e, is) (refl, refl)
  processed_lem w (ok r) is =
      let (answer, w') =
        process p tracer (text_of customer) (text_of key) (p.request_hash items) items w in
      let e =
        bind-ok (process p tracer (text_of customer) (text_of key) (p.request_hash items) items)
          (λ r. invalidate_availability tracer p.version_fails (product_ids items) >> pure r) w
          is in
      let (done, same) = deleted_lem p.version_fails w' r in rw (e, is) (done, same)

  read_after-Ends :
      (fails : Bool) (db db' : Db) (r : Result CheckoutResult)
      → p.version_fails ≡ fails
      → Ends (CheckoutSucceeds p customer key body) db r db'
      → CheckoutEnds p customer key body db (read_after fails r) db'
  read_after-Ends fails db db' (err e) is h = inl h
  read_after-Ends true db db' (ok r) is h = inr (is, refl, (r, h))
  read_after-Ends false db db' (ok r) is h = h

  checkout_valid-Ends :
      (w : World)
      → is_falsy customer ≡ false
      → is_falsy key ≡ false
      → validate_request body ≡ ok tt
      → let (r, w') = checkout p tracer customer key body w in
        CheckoutEnds p customer key body w.db r w'.db
  checkout_valid-Ends w c k v =
      let (answer, same) = processed_lem (started w) _ refl in
      rw (checkout_valid w c k v) (
        rw (answer, same)
          (read_after-Ends p.version_fails w.db _ _ refl (
            process-Ends p tracer (text_of customer) (text_of key) (p.request_hash items) items
              (started w))))

-- Whatever the request and the write conflicts, a checkout that succeeds has replayed the answer that is
-- stored for its key, changing nothing, or has recorded a new order. One that fails leaves the database as
-- it was, unless the database has failed the read of the catalogue's version that follows the commit: then
-- the error is that read's, and an answer was replayed or a new order recorded all the same.
pub checkout-Ends :
    (p : Platform) (tracer : Option (ℕ → String)) (customer key : Option String)
    (body : CheckoutRequest) (w : World)
    → let (r, w') = checkout p tracer customer key body w in
      CheckoutEnds p customer key body w.db r w'.db
checkout-Ends p tracer customer key body w = elim (Bool-cases (is_falsy customer)) [
  | inl c ↦ rw (checkout_no_customer p tracer customer key body w c) (inl refl)
  | inr c ↦ elim (Bool-cases (is_falsy key)) [
    | inl k ↦ rw (checkout_no_key p tracer customer key body w c k) (inl refl)
    | inr k ↦ elim (Result-cases (validate_request body)) [
      | inl (e, bad) ↦ rw (checkout_invalid p tracer customer key body w c k e bad) (inl refl)
      | inr (u, v) ↦ checkout_valid-Ends p tracer customer key body w c k v
    ]
  ]
]
