-- ===== src/Checkout/Service.antt =====
-- `CheckoutService.checkout`.
pub mod Outcome
pub mod Stock
pub mod Replay
pub mod Repeat
pub mod Rejection
use casecellshop.Base.{ℕ, String, Option, List, is_falsy}
use casecellshop.Action.{bad_request, Action, throw_if, modify, pure, ◌>>=◌, ◌>>◌}
use casecellshop.Observability.Metrics.{record_checkout_started, record_checkout_duration}
use casecellshop.Observability.Trace.{span}
use casecellshop.Products.Cards.{invalidate_availability}
use casecellshop.World.{World, modify_metrics, transaction}
use casecellshop.Checkout.Request.{
  Platform, CheckoutRequest, CheckoutItem, CheckoutResult, text_of, validate_request,
  normalize_request, product_ids,
}
use casecellshop.Checkout.Steps.{checkout_callback}
use casecellshop.Checkout.Retry.{run_with_retry}

-- The transaction and its retries, under a span where there is a `TraceService`.
unfoldable pub process :
    Platform
    → Option (ℕ → String)
    → String
    → String
    → String
    → List CheckoutItem
    → Action World CheckoutResult
unfolding run_with_retry transaction
process p tracer customer key hash items =
    span tracer "checkout.process"
      (run_with_retry (transaction (checkout_callback p customer key hash items)))

-- `try { … } finally { … }` round the process.
abbrev pub finally : {A : Type 0} → Action World A → (World → World) → Action World A
finally m after w = let (r, w') = m w in (r, after w')

abbrev pub record_duration : World → World
record_duration w = modify_metrics (record_checkout_duration w.outcome) w

-- The whole service call: the checks, the transaction with its retries, the deletion of the cards.
unfoldable pub checkout :
    Platform
    → Option (ℕ → String)
    → Option String
    → Option String
    → CheckoutRequest
    → Action World CheckoutResult
checkout p tracer customer key body = do
  throw_if (is_falsy customer) (bad_request "Missing X-Customer-Id header")
  throw_if (is_falsy key) (bad_request "Missing Idempotency-Key header")
  λ w. (validate_request body, w)
  modify (modify_metrics record_checkout_started)
  let items = normalize_request p body
  modify (λ w. record w { outcome = "error" })
  finally
      (do
        result ← process p tracer (text_of customer) (text_of key) (p.request_hash items) items
        invalidate_availability tracer p.version_fails (product_ids items)
        pure result)
      record_duration
