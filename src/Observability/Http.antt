-- ===== src/Observability/Http.antt =====
-- What libs/observability/src puts round a handler of the API: request-context.middleware.ts,
-- http-metrics.interceptor.ts and http-error.filter.ts, in the order in which Nest runs them.
pub mod Answers
use Prim.Native.Char.{code}
use Prim.Native.String
use casecellshop.Base.{
  ℕ, ◌+◌, String, Bool, true, false, Option, none, some, [], ◌∷◌, concat, or_else, eqb,
  if◌then◌else◌, ◌==◌,
}
use casecellshop.Action.{
  Error, bad_request, conflict, unprocessable, not_found, service_unavailable, prisma, other,
  Result, ok, err, Action, pure, ◌>>=◌, ◌>>◌,
}
use casecellshop.Observability.Context.{Context}
use casecellshop.Observability.Metrics.{record_http_request}
use casecellshop.World.{World, modify_metrics}

-- `Partial<ObservabilityContext>`
pub record PartialContext : Type 0 where
  pub request_id : Option String
  pub correlation_id : Option String
  pub trace_id : Option String
  pub span_id : Option String
  pub parent_span_id : Option String
  pub order_id : Option String

-- `id ?? this.createId(prefix)`
abbrev pub or_create : (ℕ → String) → String → Option String → Action World String
or_create uuid prefix (some id) w = (ok id, w)
or_create uuid prefix none w =
    (ok (concat (prefix ∷ "_" ∷ uuid w.uuids ∷ [])), record w { uuids = w.uuids + 1 })

unfoldable pub create : (ℕ → String) → PartialContext → Action World Context
create uuid input = do
  request ← or_create uuid "req" input.request_id
  correlation ← or_create uuid "corr" input.correlation_id
  trace ← or_create uuid "trace" input.trace_id
  pure (record {
    request_id = request;
    correlation_id = correlation;
    trace_id = trace;
    span_id = input.span_id;
    parent_span_id = input.parent_span_id;
    order_id = input.order_id;
  })

-- `run(context, callback)`
abbrev pub run : {A : Type 0} → Context → Action World A → Action World A
run context callback w =
    let (r, w') = callback (record w { context = some context }) in
    (r, record w' { context = w.context })

-- What the three read of a request.
pub record HttpRequest : Type 0 where
  pub method : Option String
  pub route_path : Option String
  pub original_url : Option String
  pub url : String
  pub correlation_header : Option String

-- `url.split('?')[0]`
unfoldable pub before_query : String → String
before_query String.[] = ""
before_query (String.◌∷◌ c s) = if eqb (code c) b'?' then "" else String.◌∷◌ c (before_query s)

abbrev path_of : Option String → Option String
unfolding before_query
path_of none = none
path_of (some url) = some (before_query url)

unfoldable pub route_of : HttpRequest → String
unfolding path_of
route_of request = or_else request.route_path (or_else (path_of request.original_url) "unknown")

-- `getStatus()` of an exception of Nest; anything else counts as 500.
abbrev pub status_of : Error → ℕ
status_of (bad_request message) = 400
status_of (not_found message) = 404
status_of (conflict message) = 409
status_of (unprocessable message) = 422
status_of (service_unavailable message) = 503
status_of (prisma code) = 500
status_of (other message) = 500

abbrev pub is_http : Error → Bool
is_http (prisma code) = false
is_http (other message) = false
is_http _ = true

-- What Nest and the errors' classes give: the `error` text in the response of an exception with a status,
-- the names of `HttpStatus`, and the `message` of an error that is not Nest's.
pub record Nest : Type 0 where
  pub reason : ℕ → String
  pub status_name : ℕ → Option String
  pub message_of : Error → String

pub record ErrorBody : Type 0 where
  pub status_code : ℕ
  pub error : String
  pub message : String
  pub request_id : Option String
  pub correlation_id : Option String
  pub order_id : Option String
  pub path : String

-- An exception of Nest has the message that it was made with.
abbrev message_of : Nest → Error → String
message_of nest (bad_request message) = message
message_of nest (not_found message) = message
message_of nest (conflict message) = message
message_of nest (unprocessable message) = message
message_of nest (service_unavailable message) = message
message_of nest e = nest.message_of e

abbrev pub of_context : {A : Type 0} → (Context → A) → Option Context → Option A
of_context f none = none
of_context f (some c) = some (f c)

-- `context?.orderId ? { orderId } : {}`
abbrev pub named_order : Option Context → Option String
named_order none = none
named_order (some c) = elim c.order_id [
  | none ↦ none
  | some id ↦ if id == "" then none else some id
]

-- `catch`
unfoldable pub catch_error : Nest → Option Context → HttpRequest → Error → ErrorBody
catch_error nest context request e = record {
  status_code = status_of e;
  error =
      if is_http e
      then nest.reason (status_of e)
      else or_else (nest.status_name (status_of e)) "Error";
  message = message_of nest e;
  request_id = of_context (λ c. c.request_id) context;
  correlation_id = of_context (λ c. c.correlation_id) context;
  order_id = named_order context;
  path = request.url;
}

-- A handler answers with the response's status and a body.
abbrev pub handled_status : {A : Type 0} → Result (ℕ × A) → ℕ
handled_status (ok (status, body)) = status
handled_status (err e) = status_of e

-- `intercept`: the call is observed when it ends, with an error or without one.
unfoldable pub intercept : {A : Type 0} → HttpRequest → Action World (ℕ × A) → Action World (ℕ × A)
unfolding route_of
intercept request handler w =
    let (r, w') = handler w in
    (
      r,
      modify_metrics
          (record_http_request (route_of request) (or_else request.method "UNKNOWN")
            (handled_status r))
          w',
    )

pub data Reply (A : Type 0) : Type 0 where
  replied : ℕ → A → Reply A
  failed : ErrorBody → Reply A

unfoldable pub reply_to :
    {A : Type 0} → Nest → HttpRequest → Option Context → Result (ℕ × A) → Reply A
unfolding catch_error
reply_to nest request context (ok (status, body)) = replied status body
reply_to nest request context (err e) = failed (catch_error nest context request e)

unfoldable pub respond :
    {A : Type 0} → Nest → HttpRequest → Action World (ℕ × A) → Action World (Reply A)
unfolding reply_to
respond nest request handler w =
    let (r, w') = handler w in (ok (reply_to nest request w'.context r), w')

-- The headers X-Request-Id and X-Correlation-Id, and the reply.
pub record HttpResponse (A : Type 0) : Type 0 where
  pub request_id : String
  pub correlation_id : String
  pub reply : Reply A

abbrev pub from_header : Option String → PartialContext
from_header correlation = record {
  request_id = none;
  correlation_id = correlation;
  trace_id = none;
  span_id = none;
  parent_span_id = none;
  order_id = none;
}

-- A request, from the middleware's `use` to the response.
unfoldable pub serve :
    {A : Type 0}
    → Nest
    → (ℕ → String)
    → HttpRequest
    → Action World (ℕ × A)
    → Action World (HttpResponse A)
unfolding create intercept respond
serve nest uuid request handler = do
  context ← create uuid (from_header request.correlation_header)
  reply ← run context (respond nest request (intercept request handler))
  pure (record {
    request_id = context.request_id;
    correlation_id = context.correlation_id;
    reply = reply;
  })
