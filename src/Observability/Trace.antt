-- ===== src/Observability/Trace.antt =====
-- libs/observability/src/trace.service.ts: a span runs its callback in a context of its own.
use casecellshop.Base.{ℕ, ◌+◌, String, Option, none, some, [], ◌∷◌, ◌++◌, concat}
use casecellshop.Action.{Result, ok, err, Action}
use casecellshop.Observability.Context.{Context}
use casecellshop.World.{World}

abbrev option_map : {A : Type 0} → (Context → A) → Option Context → Option A
option_map f none = none
option_map f (some c) = some (f c)

abbrev or_new : (ℕ → String) → String → ℕ → Option String → String
or_new uuid prefix n none = concat (prefix ∷ uuid n ∷ [])
or_new uuid prefix n (some id) = id

-- The calls of `randomUUID` that a span makes.
abbrev pub span_calls : Option Context → ℕ
span_calls none = 4
span_calls (some c) = 1

abbrev flatten : Option (Option String) → Option String
flatten none = none
flatten (some o) = o

-- The span's context: the parent's ids, or new ones where there is no parent. The calls of
-- `randomUUID` are numbered in the order of the source.
unfoldable pub span_context : (ℕ → String) → ℕ → Option Context → Context
span_context uuid n parent = record {
  request_id = or_new uuid "req_" (n + 1) (option_map (λ c. c.request_id) parent);
  correlation_id = or_new uuid "corr_" (n + 2) (option_map (λ c. c.correlation_id) parent);
  trace_id = or_new uuid "trace_" (n + 3) (option_map (λ c. c.trace_id) parent);
  span_id = some (concat ("span_" ∷ uuid n ∷ []));
  parent_span_id = flatten (option_map (λ c. c.span_id) parent);
  order_id = flatten (option_map (λ c. c.order_id) parent);
}

abbrev span_status : {A : Type 0} → Result A → String
span_status (ok a) = "ok"
span_status (err e) = "error"

-- `startSpan(operation, callback)`: the parent's context comes back when the callback is done.
unfoldable pub start_span : {A : Type 0} → (ℕ → String) → String → Action World A → Action World A
unfolding span_context
start_span uuid operation callback w =
    let (r, w') = callback (record w {
      context = some (span_context uuid w.uuids w.context);
      uuids = w.uuids + span_calls w.context;
    }) in
    (r, record w' { context = w.context; spans = w'.spans ++ (operation, span_status r) ∷ [] })

-- A service's optional `TraceService`, with its `randomUUID`, and the call through it.
abbrev pub span : {A : Type 0} → Option (ℕ → String) → String → Action World A → Action World A
unfolding start_span
span none operation callback w = callback w
span (some uuid) operation callback w = start_span uuid operation callback w
