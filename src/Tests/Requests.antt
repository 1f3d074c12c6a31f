-- ===== src/Tests/Requests.antt =====
-- Requests to the API of the small shop.
use casecellshop.Base.{true, false, length, [], ℕ, String, ◌≡◌, refl, none, some, decimal}
use casecellshop.Action.{ok, err}
use casecellshop.Store.{Order, IdempotencyKey, completed}
use casecellshop.World.{World, transaction}
use casecellshop.Observability.Http.{Nest, HttpRequest, serve}
use casecellshop.Observability.Http.Answers.{Serves, serve-Serves}
use casecellshop.Checkout.Request.{
  CheckoutResult, validate_request, normalize_request, inventory_lock_keys,
}
use casecellshop.Checkout.Retry.{run_with_retry}
use casecellshop.Observability.Trace.{start_span}
use casecellshop.Products.Cards.{read_failed, invalidate_availability, delete_cards}
use casecellshop.Cache.Service.{delete}
use casecellshop.Checkout.Steps.{
  response_of, checkout_callback, place_order, reserve_items, price_items, record_order,
  create_order, create_event, create_entry, acquire_idempotency_lock, acquire_inventory_locks,
  total_cents,
}
use casecellshop.Observability.Context.{Context}
use casecellshop.Checkout.Service.{checkout, process}
use casecellshop.Checkout.Service.Repeat.{checkout_again}
use casecellshop.Api.Controllers.{get_by_id, get_by_idempotency_key, details}
use casecellshop.Api.Orders.{
  get_by_id-SparesContext, get_by_idempotency_key-checkout, get_by_id-checkout,
}
use casecellshop.Base.Assoc.{lookup}
use casecellshop.Observability.Metrics.{no_metrics}
use casecellshop.Outbox.Publisher.{flush_pending_outbox}
use casecellshop.Billing.Consumer.{consume}
use casecellshop.Billing.Consumer.Exhaustion.{steady}
use casecellshop.System.Fulfilment.Accepted.{IsFulfilled, checkout-IsFulfilled}
use casecellshop.Tests.Samples.{no_erp, platform, shop, world, body, answer}

abbrev uuid : ℕ → String
uuid n = "u"

abbrev nest : Nest
nest = record { reason = λ n. "Conflict"; status_name = λ n. none; message_of = λ e. "" }

abbrev request : HttpRequest
request = record {
  method = some "POST";
  route_path = some "/checkout";
  original_url = some "/checkout";
  url = "/checkout";
  correlation_header = some "corr-1";
}

abbrev accepted : CheckoutResult
accepted = record { http_status = 202; body = answer }

first_is : (checkout platform none (some "ana") (some "k1") body (world shop)).0 ≡ ok accepted
unfolding checkout validate_request normalize_request process run_with_retry transaction start_span
    checkout_callback place_order reserve_items price_items record_order create_order create_event
    create_entry acquire_idempotency_lock acquire_inventory_locks inventory_lock_keys
    invalidate_availability delete_cards decimal delete total_cents
first_is = refl

-- The database fails the read of the catalogue's version after the commit: the order is recorded, and the
-- checkout fails.
checkout_unanswered :
    let (r, w') =
      checkout
        (record platform { version_fails = true })
        none
        (some "ana")
        (some "k1")
        body
        (world shop) in
    (r ≡ err read_failed) × (length w'.db.orders ≡ 1)
unfolding checkout validate_request normalize_request process run_with_retry transaction start_span
    checkout_callback place_order reserve_items price_items record_order create_order create_event
    create_entry acquire_idempotency_lock acquire_inventory_locks inventory_lock_keys
    invalidate_availability delete_cards decimal delete total_cents
checkout_unanswered = (refl, refl)

-- The shop after the first checkout.
abbrev after : World
after = world (checkout platform none (some "ana") (some "k1") body (world shop)).1.db

checkout_again_example :
    let (r', w'') =
      checkout
        (record platform { version_fails = false })
        none
        (some "ana")
        (some "k1")
        body
        after in
    (r' ≡ ok (record { http_status = 200; body = answer })) × (w''.db ≡ after.db)
checkout_again_example =
    checkout_again platform none (some "ana") (some "k1") body false (world shop) after accepted
      first_is refl refl

get_by_idempotency_key-checkout_example :
    (entry : IdempotencyKey) × (get_by_idempotency_key (some "ana") "k1" after
      ≡ (ok (200, entry), after))
    × (entry.status ≡ completed)
    × (entry.response_body ≡ some answer)
get_by_idempotency_key-checkout_example =
    get_by_idempotency_key-checkout platform none (some "ana") (some "k1") body (world shop) after
      accepted first_is refl

get_by_id-checkout_example :
    (order : Order) × (get_by_id "c0" after ≡ (ok (200, details after.db order), after))
    × (order.customer_id ≡ "ana")
    × (response_of order ≡ answer)
get_by_id-checkout_example =
    get_by_id-checkout platform none (some "ana") (some "k1") body (world shop) after accepted
      first_is refl refl refl

serve-Serves_example :
    let (r, w') = serve nest uuid request (get_by_id "c0") after in
    Serves uuid request (get_by_id "c0") after r w'
serve-Serves_example =
    serve-Serves nest uuid request (get_by_id "c0") after (get_by_id-SparesContext "c0")

checkout-IsFulfilled_example :
    IsFulfilled accepted [] []
      (consume (flush_pending_outbox true (steady after.db no_erp no_metrics true [] [] [])))
unfolding lookup
checkout-IsFulfilled_example =
    checkout-IsFulfilled platform none (some "ana") (some "k1") body (world shop) accepted no_erp
      no_metrics true [] [] first_is refl refl refl refl refl
