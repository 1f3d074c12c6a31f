-- ===== src/Checkout/Service/Repeat.antt =====
-- A checkout that is sent again: `checkout` of apps/api/src/checkout/checkout.service.ts after its own success.
use casecellshop.Base.{
  ℕ, String, true, ◌≡◌, refl, sym, ap, ◌∙◌, inl, inr, Option, none, some, List, [], ◌∷◌, ◌++◌, Bool,
  find, is_falsy, Bool-cases, eq_refl,
}
use casecellshop.Action.{ok, Result-cases}
use casecellshop.Store.{Db, IdempotencyKey, AcceptedResponse, completed}
use casecellshop.Products.Cards.Frame.{after_read}
use casecellshop.World.{World}
use casecellshop.Checkout.Request.{
  Platform, CheckoutItem, CheckoutRequest, CheckoutResult, text_of, validate_request,
  normalize_request,
}
use casecellshop.Checkout.Steps.{find_entry, is_entry, completed_entry, new_order}
use casecellshop.Checkout.Steps.Accepted.{Accepts}
use casecellshop.Checkout.Steps.Callback.{Succeeds, Replays}
use casecellshop.Checkout.Service.{checkout}
use casecellshop.Checkout.Service.Outcome.{
  checkout-Ends, checkout_no_customer, checkout_no_key, checkout_invalid,
}
use casecellshop.Checkout.Service.Replay.{IsChecked, checkout_replays}

pub find-append {ℓ} :
    {A : Type ℓ} (test : A → Bool) (xs : List A) (x : A)
    → find test xs ≡ none
    → test x ≡ true
    → find test (xs ++ x ∷ []) ≡ some x
find-append test [] x missed hit = rw hit refl
find-append test (y ∷ ys) x missed hit = elim (Bool-cases (test y)) [
  | inl early ↦ cc (rw early at missed)
  | inr other ↦ rw other (find-append test ys x (rw other at missed) hit)
]

-- The database has the answer stored for the key and the hash.
pub record HasStored (customer key hash : String) (db : Db) (b : AcceptedResponse) : Type 0 where
  pub entry : IdempotencyKey
  pub is_stored : find_entry customer key db ≡ some entry
  pub has_hash : entry.request_hash ≡ hash
  pub is_completed : entry.status ≡ completed
  pub has_body : entry.response_body ≡ some b

module _ (p : Platform) (customer key hash : String) (items : List CheckoutItem) (db db' : Db)
    (r : CheckoutResult) where
  Replays-HasStored : Replays customer key hash db db' r → HasStored customer key hash db' r.body
  Replays-HasStored s = record {
    entry = s.entry;
    is_stored = ap (find_entry customer key) s.is_unchanged ∙ s.is_stored;
    has_hash = s.has_hash;
    is_completed = s.is_completed;
    has_body = s.has_body;
  }

  Accepts-HasStored :
      Accepts p customer key hash items db db' r → HasStored customer key hash db' r.body
  Accepts-HasStored s = record {
    entry = completed_entry hash (new_order p customer key s.rows db);
    is_stored =
        ap (find_entry customer key) s.records.is_after
        ∙ find-append (is_entry customer key) db.idempotency_keys _ s.records.no_entry
            (rw (eq_refl customer, eq_refl key) refl);
    has_hash = refl;
    is_completed = refl;
    has_body = ap (λ (x : CheckoutResult). some x.body) (sym s.records.is_result);
  }

  Succeeds-HasStored :
      Succeeds p customer key hash items db db' r → HasStored customer key hash db' r.body
  Succeeds-HasStored (inl s) = Replays-HasStored s
  Succeeds-HasStored (inr s) = Accepts-HasStored s

module _ (p : Platform) (tracer : Option (ℕ → String)) (customer key : Option String)
    (body : CheckoutRequest) where
  -- Only a request that passes the checks succeeds.
  pub checkout-IsChecked :
      (w : World) (r : CheckoutResult)
      → (checkout p tracer customer key body w).0 ≡ ok r
      → IsChecked customer key body
  checkout-IsChecked w r done = elim (Bool-cases (is_falsy customer)) [
    | inl c ↦ cc (rw (checkout_no_customer p tracer customer key body w c) at done)
    | inr c ↦ elim (Bool-cases (is_falsy key)) [
      | inl k ↦ cc (rw (checkout_no_key p tracer customer key body w c k) at done)
      | inr k ↦ elim (Result-cases (validate_request body)) [
        | inl (e, bad) ↦ cc (rw (checkout_invalid p tracer customer key body w c k e bad) at done)
        | inr (u, v) ↦ (c, k, v)
      ]
    ]
  ]

  pub checkout-HasStored :
      (w : World) (r : CheckoutResult)
      → (checkout p tracer customer key body w).0 ≡ ok r
      → HasStored
          (text_of customer)
          (text_of key)
          (p.request_hash (normalize_request p body))
          (checkout p tracer customer key body w).1.db
          r.body
  checkout-HasStored w r done =
      Succeeds-HasStored p (text_of customer) (text_of key)
        (p.request_hash (normalize_request p body)) (normalize_request p body) w.db
        (checkout p tracer customer key body w).1.db r
        (rw done at (checkout-Ends p tracer customer key body w))

  abbrev later : Bool → Platform
  later fails = record p { version_fails = fails }

  normalize_request-later :
      (fails : Bool) → normalize_request (later fails) body ≡ normalize_request p body
  unfolding normalize_request
  normalize_request-later fails = refl

  -- The same checkout, sent again to the database that a successful one has left, answers 200 with the
  -- body of the first answer and changes nothing there, where no write conflict is to come; where the
  -- database fails the read of the catalogue's version after the commit, it fails with that error instead.
  pub checkout_again :
      (fails : Bool) (w w' : World) (r : CheckoutResult)
      → (checkout p tracer customer key body w).0 ≡ ok r
      → w'.db ≡ (checkout p tracer customer key body w).1.db
      → w'.conflicts ≡ []
      → let (r', w'') = checkout (record p { version_fails = fails }) tracer customer key body w' in
        (r' ≡ after_read fails (record { http_status = 200; body = r.body })) × (w''.db ≡ w'.db)
  checkout_again fails w w' r done same free =
      let s = checkout-HasStored w r done in
      checkout_replays (later fails) tracer customer key body w' s.entry r.body
        (checkout-IsChecked w r done) free
        (ap (find_entry (text_of customer) (text_of key)) same ∙ s.is_stored)
        (s.has_hash ∙ ap p.request_hash (sym (normalize_request-later fails))) s.is_completed
        s.has_body
