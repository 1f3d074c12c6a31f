-- ===== src/Api/Checkouts.antt =====
-- `POST /checkout` from the request to the response: apps/api/src/checkout/checkout.controller.ts inside what
-- libs/observability puts round it.
use casecellshop.Base.{ℕ}
use casecellshop.Action.{Result, ok, err, Action}
use casecellshop.Store.{AcceptedResponse}
use casecellshop.Observability.Context.{Context}
use casecellshop.World.{World}
use casecellshop.Checkout.Request.{CheckoutResult}

-- What the handler makes of the service's result.
abbrev pub handled : Result CheckoutResult → Result (ℕ × AcceptedResponse)
handled (ok r) = ok (r.http_status, r.body)
handled (err e) = err e
