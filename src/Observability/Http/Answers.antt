-- ===== src/Observability/Http/Answers.antt =====
-- A request to the API and its answer: libs/observability/src/request-context.middleware.ts,
-- http-metrics.interceptor.ts and http-error.filter.ts together.
use casecellshop.Base.{
  ℕ, ◌+◌, concat, [], ◌∷◌, String, ◌≡◌, refl, ap, ◌∙◌, Option, none, some, or_else,
}
use casecellshop.Action.{Result, ok, err, Action, ◌>>=◌}
use casecellshop.Observability.Context.{Context}
use casecellshop.Observability.Metrics.{record_http_request}
use casecellshop.World.{World}
use casecellshop.Observability.Http.{
  HttpRequest, HttpResponse, Nest, ErrorBody, replied, failed, status_of, create, respond,
  intercept, serve, route_of, catch_error, reply_to, from_header, handled_status, of_context,
  named_order,
}

-- The handler leaves the context as it was.
abbrev pub SparesContext : {A : Type 0} → Action World A → Type 0
SparesContext m = (w : World) → (m w).1.context ≡ w.context

-- Where the headers name no correlation, one is made from the second `randomUUID`.
abbrev pub correlation_of : (ℕ → String) → HttpRequest → World → String
correlation_of uuid request w =
    or_else request.correlation_header (concat ("corr" ∷ "_" ∷ uuid (w.uuids + 1) ∷ []))

create_lem :
    (uuid : ℕ → String) (header : Option String) (w : World)
    → (c : Context) × (n : ℕ) × ((create uuid (from_header header) w).0 ≡ ok c)
      × ((create uuid (from_header header) w).1 ≡ record w { uuids = n })
      × (c.correlation_id ≡ or_else header (concat ("corr" ∷ "_" ∷ uuid (w.uuids + 1) ∷ [])))
      × (c.order_id ≡ none)
unfolding create
create_lem uuid none w = (_, _, refl, refl, refl, refl)
create_lem uuid (some id) w = (_, _, refl, refl, refl, refl)

-- The reply to what the handler came to: its status and body, or the error's status with the ids that
-- the headers have.
abbrev pub IsReplyTo : {A : Type 0} → HttpRequest → Result (ℕ × A) → HttpResponse A → Type 0
IsReplyTo request (ok (status, body)) answer = answer.reply ≡ replied status body
IsReplyTo request (err e) answer =
    (body : ErrorBody) × (answer.reply ≡ failed body)
    × (body.status_code ≡ status_of e)
    × (body.request_id ≡ some answer.request_id)
    × (body.correlation_id ≡ some answer.correlation_id)
    × (body.order_id ≡ none)
    × (body.path ≡ request.url)

-- The handler starts in a context of its own, without an order, and the request is answered with what it
-- comes to: the correlation is the caller's, where there is one, the request is counted once, with the
-- handler's status, and the context that was there before is there again.
pub record Serves {A : Type 0} (uuid : ℕ → String) (request : HttpRequest)
    (handler : Action World (ℕ × A)) (w : World) (r : Result (HttpResponse A)) (w' : World)
    : Type 0 where
  pub answer : HttpResponse A
  pub context : Context
  pub uuids : ℕ
  pub is_answered : r ≡ ok answer
  pub has_correlation : answer.correlation_id ≡ correlation_of uuid request w
  pub is_reply :
      IsReplyTo request (handler (record w { context = some context; uuids = uuids })).0 answer
  pub is_counted :
      w'.metrics
      ≡ record_http_request
          (route_of request)
          (or_else request.method "UNKNOWN")
          (handled_status (handler (record w { context = some context; uuids = uuids })).0)
          (handler (record w { context = some context; uuids = uuids })).1.metrics
  pub is_restored : w'.context ≡ w.context
  pub is_stored : w'.db ≡ (handler (record w { context = some context; uuids = uuids })).1.db

module _ {A : Type 0} (nest : Nest) (uuid : ℕ → String) (request : HttpRequest)
    (handler : Action World (ℕ × A)) where
  reply_to-IsReplyTo :
      (c : Context) (after : Option Context) (r : Result (ℕ × A))
      → after ≡ some c
      → c.order_id ≡ none
      → IsReplyTo request r (record {
        request_id = c.request_id;
        correlation_id = c.correlation_id;
        reply = reply_to nest request after r;
      })
  unfolding reply_to catch_error
  reply_to-IsReplyTo c after (ok (status, body)) same fresh = refl
  reply_to-IsReplyTo c after (err e) same fresh = (
    catch_error nest after request e,
    refl,
    refl,
    ap (of_context (λ c. c.request_id)) same,
    ap (of_context (λ c. c.correlation_id)) same,
    ap named_order same ∙ rw fresh refl,
    refl,
  )

  -- Every request whose handler leaves the context as it was is answered with what the handler comes to.
  pub serve-Serves :
      (w : World)
      → SparesContext handler
      → let (r, w') = serve nest uuid request handler w in Serves uuid request handler w r w'
  unfolding serve respond intercept
  serve-Serves w spares =
      let (c, n, is, after, correlation, fresh) = create_lem uuid request.correlation_header w in
      let begun : World = record w { context = some c; uuids = n } in
      rw (is, ◌>>=◌)
        (rw (after, ◌>>=◌)
          (record {
            answer = record {
              request_id = c.request_id;
              correlation_id = c.correlation_id;
              reply = reply_to nest request (handler begun).1.context (handler begun).0;
            };
            context = c;
            uuids = n;
            is_answered = refl;
            has_correlation = correlation;
            is_reply =
                reply_to-IsReplyTo c (handler begun).1.context (handler begun).0 (spares begun)
                  fresh;
            is_counted = refl;
            is_restored = refl;
            is_stored = refl;
          }))
