-- ===== src/Observability/Context.antt =====
-- libs/observability/src/request-context.service.ts: the context that AsyncLocalStorage carries.
-- It is passed as `Option Context`, where `none` stands for code that runs outside `run`.
use casecellshop.Base.{String, Option, none, some}

pub record Context : Type 0 where
  pub request_id : String
  pub correlation_id : String
  pub trace_id : String
  pub span_id : Option String
  pub parent_span_id : Option String
  pub order_id : Option String

-- `setOrderId`: without a store nothing is written.
abbrev pub set_order_id : String → Option Context → Option Context
set_order_id order none = none
set_order_id order (some c) = some (record c { order_id = some order })
