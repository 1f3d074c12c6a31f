-- ===== src/Plant.antt =====
-- The state that the workers share: the database, the queues and the ERP, each of which may fail a
-- call, and the counters.
use casecellshop.Base.{String, Bool, true, false, List, [], ◌∷◌}
use casecellshop.Action.{
  Error, other, bad_request, conflict, unprocessable, not_found, service_unavailable, prisma, ok,
  err, Action,
}
use casecellshop.Store.{Db}
use casecellshop.Erp.Service.{Erp, Response}
use casecellshop.Queue.Broker.{Broker}
use casecellshop.Observability.Metrics.{Metrics}

-- What becomes of a request to the ERP: it is answered, or it is lost before or after the ERP has
-- handled it.
pub data Network : Type 0 where
  answered request_lost reply_lost : Network

-- `db_faults` says for each statement to come whether the database fails it, and `network` what
-- becomes of each request to come; past their ends nothing fails.
pub record Plant : Type 0 where
  pub db : Db
  pub broker : Broker
  pub erp : Erp
  pub metrics : Metrics
  pub db_faults : List Bool
  pub network : List Network

abbrev pub next_fault : List Bool → Bool
next_fault [] = false
next_fault (b ∷ bs) = b

abbrev pub rest_faults : List Bool → List Bool
rest_faults [] = []
rest_faults (b ∷ bs) = bs

abbrev pub run_statement : {A : Type 0} → Bool → Action Db A → Action Plant A
run_statement true statement s = (err (other "database"), s)
run_statement false statement s = let (r, db) = statement s.db in (r, record s { db = db })

-- One statement outside a transaction.
unfoldable pub statement : {A : Type 0} → Action Db A → Action Plant A
statement run s =
    run_statement (next_fault s.db_faults) run (record s { db_faults = rest_faults s.db_faults })

-- One call of `RabbitService`.
abbrev pub queue : {A : Type 0} → Action Broker A → Action Plant A
queue call s = let (r, b) = call s.broker in (r, record s { broker = b })

abbrev pub next_network : List Network → Network
next_network [] = answered
next_network (n ∷ ns) = n

abbrev pub rest_network : List Network → List Network
rest_network [] = []
rest_network (n ∷ ns) = ns

abbrev deliver : {A : Type 0} → Network → (Erp → Response A × Erp) → Action Plant (Response A)
deliver answered handler s = let (r, erp) = handler s.erp in (ok r, record s { erp = erp })
deliver request_lost handler s = (err (other "fetch failed"), s)
deliver reply_lost handler s =
    let (r, erp) = handler s.erp in (err (other "fetch failed"), record s { erp = erp })

-- `fetch`, at an endpoint of the ERP.
unfoldable pub fetch : {A : Type 0} → (Erp → Response A × Erp) → Action Plant (Response A)
fetch handler s =
    deliver (next_network s.network) handler (record s { network = rest_network s.network })

-- `error.message`
abbrev pub message_of : Error → String
message_of (bad_request m) = m
message_of (conflict m) = m
message_of (unprocessable m) = m
message_of (not_found m) = m
message_of (service_unavailable m) = m
message_of (prisma code) = code
message_of (other m) = m
