-- ===== src/Checkout/Steps/Callback.antt =====
-- The whole callback of the transaction: what its result says about the database it began at.
use casecellshop.Base.{
  String, ◌≡◌, refl, ◌⊎◌, inl, inr, Option, none, some, List, [], ◌∷◌, arith, eq_iff, concat, ◌++◌,
  ap, sym, ◌∙◌,
}
use casecellshop.Action.{Result, ok, Action, ◌>>◌}
use casecellshop.Store.{Db, IdempotencyKey, completed, AcceptedResponse}
use casecellshop.World.{World}
use casecellshop.Checkout.Request.{Platform, CheckoutItem, CheckoutResult, inventory_lock_keys}
use casecellshop.Checkout.Steps.{
  find_entry, Decision, replay, refuse, proceed, decide, replay_response, resolve, place_order,
  acquire_inventory_locks, acquire_idempotency_lock, checkout_callback,
}
use casecellshop.Checkout.Steps.Accepted.{Accepts, place_order-Accepts}

-- The answer of a key that was completed before by the same request.
pub record Replays (customer key hash : String) (db db' : Db) (r : CheckoutResult) : Type 0 where
  pub entry : IdempotencyKey
  pub is_stored : find_entry customer key db ≡ some entry
  pub has_hash : entry.request_hash ≡ hash
  pub is_completed : entry.status ≡ completed
  pub has_body : entry.response_body ≡ some r.body
  pub is_200 : r.http_status ≡ 200
  pub is_unchanged : db' ≡ db

pub replay_response_lem :
    (body : AcceptedResponse) (order : Option String) (w : World)
    → ((replay_response body order w).0 ≡ ok (record { http_status = 200; body = body }))
      × ((replay_response body order w).1.db ≡ w.db)
unfolding replay_response
replay_response_lem body none w = (refl, refl)
replay_response_lem body (some id) w = (refl, ground arith)

acquire_inventory_locks_lem :
    (ids : List String) (w : World)
    → (locks : List String) × (acquire_inventory_locks ids w ≡ (ok tt, record w { locks = locks }))
unfolding acquire_inventory_locks
acquire_inventory_locks_lem [] w = (w.locks, refl)
acquire_inventory_locks_lem (id ∷ ids) w =
    acquire_inventory_locks_lem ids
      (record w { locks = w.locks ++ concat ("inventory:" ∷ id ∷ []) ∷ [] })

module _ (p : Platform) (customer key hash : String) (items : List CheckoutItem) where
  -- What a success says: a replay, or a new order.
  abbrev pub Succeeds : Db → Db → CheckoutResult → Type 0
  Succeeds db db' r =
      Replays customer key hash db db' r ⊎ Accepts p customer key hash items db db' r

  -- The decision is a replay only of a completed entry with this hash.
  decide-replay :
      (db : Db) (body : AcceptedResponse) (order : Option String) (stored : Option IdempotencyKey)
      → find_entry customer key db ≡ stored
      → decide hash stored ≡ replay body order
      → (entry : IdempotencyKey) × (find_entry customer key db ≡ some entry)
        × (entry.request_hash ≡ hash)
        × (entry.status ≡ completed)
        × (entry.response_body ≡ some body)
  decide-replay db body order none s e = cc
  decide-replay db body order (some entry) s e =
      (entry, s, ground (arith, eq_iff entry.request_hash hash), ground arith, ground arith)

  resolve-Succeeds :
      (w : World) (d : Decision) {r : CheckoutResult}
      → decide hash (find_entry customer key w.db) ≡ d
      → (resolve d (place_order p customer key hash items) w).0 ≡ ok r
      → Succeeds w.db (resolve d (place_order p customer key hash items) w).1.db r
  unfolding replay_response
  resolve-Succeeds w (replay body order) {r} s e =
      let (entry, stored, same, done, has) = decide-replay w.db body order _ refl s in
      let (answer, unchanged) = replay_response_lem body order w in
      let is : record { http_status = 200; body = body } ≡ r = cc (sym answer ∙ e) in
      inl (record {
        entry = entry;
        is_stored = stored;
        has_hash = same;
        is_completed = done;
        has_body = has ∙ ap (λ (x : CheckoutResult). some x.body) is;
        is_200 = sym (ap (λ (x : CheckoutResult). x.http_status) is);
        is_unchanged = unchanged;
      })
  resolve-Succeeds w (refuse x) s e = cc
  resolve-Succeeds w proceed s e = inr (place_order-Accepts p customer key hash items w e)

  -- The locks change nothing that the rest of the callback reads.
  pub callback-resolve :
      (w : World)
      → (locks : List String) × (checkout_callback p customer key hash items w
          ≡ resolve
              (decide hash (find_entry customer key w.db))
              (place_order p customer key hash items)
              (record w { locks = locks }))
  unfolding checkout_callback acquire_idempotency_lock
  callback-resolve w =
      let w' = record w { locks = w.locks ++ concat (customer ∷ ":" ∷ key ∷ []) ∷ [] } in
      let (locks, e) = acquire_inventory_locks_lem (inventory_lock_keys p items) w' in
      let rest : Action World CheckoutResult = λ v.
        resolve (decide hash (find_entry customer key v.db)) (place_order p customer key hash items)
          v in
      (locks, ap (λ (x : Result (Unit {0}) × World). ((λ _. x) >> rest) w') e)

  -- When the callback succeeds it has replayed a completed entry or recorded a new order.
  pub checkout_callback-Succeeds :
      (w : World) {r : CheckoutResult}
      → (checkout_callback p customer key hash items w).0 ≡ ok r
      → Succeeds w.db (checkout_callback p customer key hash items w).1.db r
  checkout_callback-Succeeds w e =
      let (locks, same) = callback-resolve w in
      rw same (resolve-Succeeds (record w { locks = locks }) _ refl (rw same at e))
