-- ===== src/Observability/Metrics.antt =====
-- libs/observability/src/metrics.service.ts: the counters that the services feed. A counter without
-- labels is its value; one with labels is the list of the labels that it was incremented with,
-- oldest first. A histogram keeps its labels, not the measured durations.
use casecellshop.Base.{ℕ, ◌+◌, String, List, [], ◌∷◌, ◌++◌}

pub record Metrics : Type 0 where
  pub http_requests : List (String × String × ℕ)
  pub cache_hits : List String
  pub cache_misses : List String
  pub product_card_hydration_misses : ℕ
  pub redis_operations : List (String × String)
  pub checkout_started : ℕ
  pub orders_accepted : ℕ
  pub orders_rejected_out_of_stock : ℕ
  pub checkout_durations : List String
  pub idempotency_duplicate : ℕ
  pub erp_requests : List (String × String)
  pub erp_errors : List String
  pub reconciliation_divergences : ℕ

abbrev pub no_metrics : Metrics
no_metrics = record {
  http_requests = [];
  cache_hits = [];
  cache_misses = [];
  product_card_hydration_misses = 0;
  redis_operations = [];
  checkout_started = 0;
  orders_accepted = 0;
  orders_rejected_out_of_stock = 0;
  checkout_durations = [];
  idempotency_duplicate = 0;
  erp_requests = [];
  erp_errors = [];
  reconciliation_divergences = 0;
}

-- The route, the method and the status.
abbrev pub record_http_request : String → String → ℕ → Metrics → Metrics
record_http_request route method status m = record m {
  http_requests = m.http_requests ++ (route, method, status) ∷ [];
}

abbrev pub record_cache_hit : String → Metrics → Metrics
record_cache_hit cache m = record m { cache_hits = m.cache_hits ++ cache ∷ [] }

abbrev pub record_cache_miss : String → Metrics → Metrics
record_cache_miss cache m = record m { cache_misses = m.cache_misses ++ cache ∷ [] }

abbrev pub record_product_card_hydration_miss : ℕ → Metrics → Metrics
record_product_card_hydration_miss count m = record m {
  product_card_hydration_misses = m.product_card_hydration_misses + count;
}

abbrev pub record_redis_operation : String → String → Metrics → Metrics
record_redis_operation operation outcome m = record m {
  redis_operations = m.redis_operations ++ (operation, outcome) ∷ [];
}

abbrev pub record_checkout_started : Metrics → Metrics
record_checkout_started m = record m { checkout_started = m.checkout_started + 1 }

abbrev pub record_checkout_accepted : Metrics → Metrics
record_checkout_accepted m = record m { orders_accepted = m.orders_accepted + 1 }

abbrev pub record_checkout_rejected_out_of_stock : Metrics → Metrics
record_checkout_rejected_out_of_stock m = record m {
  orders_rejected_out_of_stock = m.orders_rejected_out_of_stock + 1;
}

abbrev pub record_checkout_duration : String → Metrics → Metrics
record_checkout_duration outcome m = record m {
  checkout_durations = m.checkout_durations ++ outcome ∷ [];
}

abbrev pub record_idempotency_duplicate : Metrics → Metrics
record_idempotency_duplicate m = record m { idempotency_duplicate = m.idempotency_duplicate + 1 }

abbrev pub record_erp_request : String → String → Metrics → Metrics
record_erp_request operation outcome m = record m {
  erp_requests = m.erp_requests ++ (operation, outcome) ∷ [];
}

abbrev pub record_erp_error : String → Metrics → Metrics
record_erp_error operation m = record m { erp_errors = m.erp_errors ++ operation ∷ [] }

abbrev pub record_reconciliation_divergence : ℕ → Metrics → Metrics
record_reconciliation_divergence count m = record m {
  reconciliation_divergences = m.reconciliation_divergences + count;
}
