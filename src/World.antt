-- ===== src/World.antt =====
-- The state that one process of the shop works on: the database, the counters, the request's
-- context and what the environment decides.
pub mod Transactions
use casecellshop.Base.{ℕ, String, Bool, true, false, Option, List, [], ◌∷◌}
use casecellshop.Action.{prisma, Result, ok, err, Action}
use casecellshop.Store.{Db}
use casecellshop.Observability.Metrics.{Metrics}
use casecellshop.Observability.Context.{Context}
use casecellshop.Cache.Entry.{Redis}

-- `conflicts` says for each transaction to come whether the database refuses its commit with
-- P2034, a write conflict or a deadlock; past its end no transaction is refused. `locks` are the
-- advisory locks that the running transaction holds, in the order of acquisition, and `delays`
-- the waits of `delay` in milliseconds. `outcome` is the variable of that name in `checkout`, `uuids` counts
-- the calls of `randomUUID`, and `spans` are the spans that have finished, with their status.
pub record World : Type 0 where
  pub db : Db
  pub metrics : Metrics
  pub context : Option Context
  pub conflicts : List Bool
  pub locks : List String
  pub delays : List ℕ
  pub outcome : String
  pub redis : Redis
  pub uuids : ℕ
  pub spans : List (String × String)

abbrev pub modify_db : (Db → Db) → World → World
modify_db f w = record w { db = f w.db }

abbrev pub modify_metrics : (Metrics → Metrics) → World → World
modify_metrics f w = record w { metrics = f w.metrics }

abbrev pub next_conflict : List Bool → Bool
next_conflict [] = false
next_conflict (b ∷ bs) = b

abbrev pub rest_conflicts : List Bool → List Bool
rest_conflicts [] = []
rest_conflicts (b ∷ bs) = bs

-- What the end of a transaction that began at `before` makes of the callback's result: a throw or
-- a refused commit puts the database back, and nothing else; the locks are released either way.
abbrev end_transaction : {A : Type 0} → Db → Bool → Result A × World → Result A × World
end_transaction before refused (err e, w) = (err e, record w { db = before; locks = [] })
end_transaction before true (ok a, w) = (err (prisma "P2034"), record w { db = before; locks = [] })
end_transaction before false (ok a, w) = (ok a, record w { locks = [] })

-- `prisma.$transaction(callback)`.
unfoldable pub transaction : {A : Type 0} → Action World A → Action World A
transaction body w =
    end_transaction w.db (next_conflict w.conflicts)
      (body (record w { conflicts = rest_conflicts w.conflicts; locks = [] }))
