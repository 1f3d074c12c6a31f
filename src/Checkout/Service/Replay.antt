-- ===== src/Checkout/Service/Replay.antt =====
-- A key that has been used before.
use casecellshop.Base.{
  ℕ, ◌+◌, String, false, ◌≡◌, refl, ap, ◌∙◌, Option, none, some, List, [], is_falsy, ◌==◌, eq_refl,
  eq_iff, arith, ◌≢◌,
}
use casecellshop.Action.{conflict, ok, err}
use casecellshop.Store.{IdempotencyKey, AcceptedResponse, completed}
use casecellshop.Observability.Trace.{start_span, span_context, span_calls}
use casecellshop.Products.Cards.Frame.{after_read}
use casecellshop.World.{World, transaction}
use casecellshop.World.Transactions.{begun, transaction_commits, transaction_throws}
use casecellshop.Checkout.Request.{
  Platform, CheckoutItem, CheckoutRequest, text_of, validate_request, normalize_request,
}
use casecellshop.Checkout.Steps.{find_entry, replay_response, checkout_callback}
use casecellshop.Checkout.Steps.Callback.{callback-resolve, replay_response_lem}
use casecellshop.Checkout.Retry.{run_with_retry}
use casecellshop.Checkout.Retry.Bounds.{run_with_retry_ok, run_with_retry_final}
use casecellshop.Checkout.Service.{process, checkout}
use casecellshop.Checkout.Service.Outcome.{read_after, checkout_valid, processed_lem, started}

module _ (p : Platform) (customer key hash : String) (items : List CheckoutItem)
    (entry : IdempotencyKey) where
  callback_replays :
      (w : World) (b : AcceptedResponse)
      → find_entry customer key w.db ≡ some entry
      → entry.request_hash ≡ hash
      → entry.status ≡ completed
      → entry.response_body ≡ some b
      → ((checkout_callback p customer key hash items w).0
          ≡ ok (record { http_status = 200; body = b }))
        × ((checkout_callback p customer key hash items w).1.db ≡ w.db)
  unfolding replay_response
  callback_replays w b stored same done has =
      let (locks, e) = callback-resolve p customer key hash items w in
      rw (e, stored, same, eq_refl hash, done, has)
        (replay_response_lem b entry.order_id (record w { locks = locks }))

  callback_refuses :
      (w : World)
      → find_entry customer key w.db ≡ some entry
      → entry.request_hash ≢ hash
      → (checkout_callback p customer key hash items w).0
        ≡ err (conflict "Idempotency key reused with different payload")
  unfolding replay_response
  callback_refuses w stored other =
      let (locks, e) = callback-resolve p customer key hash items w in
      let differs : (entry.request_hash == hash) ≡ false =
        ground (arith, eq_iff entry.request_hash hash) in
      rw (e, stored, differs)

  retried_replays :
      (w : World) (b : AcceptedResponse)
      → w.conflicts ≡ []
      → find_entry customer key w.db ≡ some entry
      → entry.request_hash ≡ hash
      → entry.status ≡ completed
      → entry.response_body ≡ some b
      → let (r, w') =
          run_with_retry (transaction (checkout_callback p customer key hash items)) w in
        (r ≡ ok (record { http_status = 200; body = b })) × (w'.db ≡ w.db)
  retried_replays w b free stored same done has =
      let body = checkout_callback p customer key hash items in
      let (answer, kept) = callback_replays (begun body w) b stored same done has in
      let (is, db) = transaction_commits body w _ (rw free) answer in
      let first = run_with_retry_ok (transaction body) w _ is in rw first (is, db ∙ kept)

  process_replays :
      (tracer : Option (ℕ → String)) (w : World) (b : AcceptedResponse)
      → w.conflicts ≡ []
      → find_entry customer key w.db ≡ some entry
      → entry.request_hash ≡ hash
      → entry.status ≡ completed
      → entry.response_body ≡ some b
      → let (r, w') = process p tracer customer key hash items w in
        (r ≡ ok (record { http_status = 200; body = b })) × (w'.db ≡ w.db)
  unfolding process start_span
  process_replays none w b free stored same done has = retried_replays w b free stored same done has
  process_replays (some uuid) w b free stored same done has =
      retried_replays
        (record w {
          context = some (span_context uuid w.uuids w.context);
          uuids = w.uuids + span_calls w.context;
        })
        b free stored same done has

  retried_refuses :
      (w : World)
      → find_entry customer key w.db ≡ some entry
      → entry.request_hash ≢ hash
      → let (r, w') =
          run_with_retry (transaction (checkout_callback p customer key hash items)) w in
        (r ≡ err (conflict "Idempotency key reused with different payload")) × (w'.db ≡ w.db)
  retried_refuses w stored other =
      let body = checkout_callback p customer key hash items in
      let (is, kept) = transaction_throws body w _ (callback_refuses (begun body w) stored other) in
      let first = run_with_retry_final (transaction body) w _ is refl in rw first (is, kept)

  process_refuses :
      (tracer : Option (ℕ → String)) (w : World)
      → find_entry customer key w.db ≡ some entry
      → entry.request_hash ≢ hash
      → let (r, w') = process p tracer customer key hash items w in
        (r ≡ err (conflict "Idempotency key reused with different payload")) × (w'.db ≡ w.db)
  unfolding process start_span
  process_refuses none w stored other = retried_refuses w stored other
  process_refuses (some uuid) w stored other =
      retried_refuses
        (record w {
          context = some (span_context uuid w.uuids w.context);
          uuids = w.uuids + span_calls w.context;
        })
        stored other

-- A request whose headers and items pass the checks.
abbrev pub IsChecked : Option String → Option String → CheckoutRequest → Type 0
IsChecked customer key body =
    (is_falsy customer ≡ false) × (is_falsy key ≡ false) × (validate_request body ≡ ok tt)

module _ (p : Platform) (tracer : Option (ℕ → String)) (customer key : Option String)
    (body : CheckoutRequest) (w : World) (entry : IdempotencyKey) where
  -- A valid checkout whose key is stored as completed for items of the same hash answers 200 with the
  -- stored body and leaves the database as it was, where no write conflict is to come; where the database
  -- fails the read of the catalogue's version after the commit, it fails with that error instead.
  pub checkout_replays :
      (b : AcceptedResponse)
      → IsChecked customer key body
      → w.conflicts ≡ []
      → find_entry (text_of customer) (text_of key) w.db ≡ some entry
      → entry.request_hash ≡ p.request_hash (normalize_request p body)
      → entry.status ≡ completed
      → entry.response_body ≡ some b
      → let (r, w') = checkout p tracer customer key body w in
        (r ≡ after_read p.version_fails (record { http_status = 200; body = b })) × (w'.db ≡ w.db)
  checkout_replays b (c, k, v) free stored same done has =
      let w' = started p tracer customer key body w in
      let items = normalize_request p body in
      let (is, kept) =
        process_replays p (text_of customer) (text_of key) (p.request_hash items) items entry tracer
          w' b free stored same done has in
      let (answer, db) = processed_lem p tracer customer key body w' _ refl in
      rw (checkout_valid p tracer customer key body w c k v)
        (answer ∙ ap (read_after p.version_fails) is, db ∙ kept)

  -- A valid checkout whose key is stored for items of another hash answers 409 and leaves the database
  -- as it was, whatever the status of the stored key and whatever conflicts are to come.
  pub checkout_refuses :
      IsChecked customer key body
      → find_entry (text_of customer) (text_of key) w.db ≡ some entry
      → entry.request_hash ≢ p.request_hash (normalize_request p body)
      → let (r, w') = checkout p tracer customer key body w in
        (r ≡ err (conflict "Idempotency key reused with different payload")) × (w'.db ≡ w.db)
  checkout_refuses (c, k, v) stored other =
      let w' = started p tracer customer key body w in
      let items = normalize_request p body in
      let (is, kept) =
        process_refuses p (text_of customer) (text_of key) (p.request_hash items) items entry tracer
          w' stored other in
      let (answer, db) = processed_lem p tracer customer key body w' _ refl in
      rw (checkout_valid p tracer customer key body w c k v)
        (answer ∙ ap (read_after p.version_fails) is, db ∙ kept)
