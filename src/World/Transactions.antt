-- ===== src/World/Transactions.antt =====
-- What a transaction leaves in the database, by its result.
use casecellshop.Base.{◌≡◌, refl, Bool, true, false, []}
use casecellshop.Action.{Error, Result, ok, err, Action}
use casecellshop.Store.{Db}
use casecellshop.World.{World, end_transaction, next_conflict, rest_conflicts, transaction}

-- A failure leaves the database as it was; `P` says what a success has made of it.
abbrev pub Ends : {A : Type 0} → (Db → Db → A → Type 0) → Db → Result A → Db → Type 0
Ends P db (ok r) db' = P db db' r
Ends P db (err e) db' = db' ≡ db

module _ {A : Type 0} (P : Db → Db → A → Type 0) where
  end_transaction-Ends :
      (db : Db) (refused : Bool) (r : Result A) (w : World)
      → ((a : A) → r ≡ ok a → P db w.db a)
      → Ends P db (end_transaction db refused (r, w)).0 (end_transaction db refused (r, w)).1.db
  end_transaction-Ends db refused (err e) w h = refl
  end_transaction-Ends db true (ok a) w h = refl
  end_transaction-Ends db false (ok a) w h = h a refl

  pub transaction-Ends :
      (body : Action World A)
      → ((w : World) (a : A) → (body w).0 ≡ ok a → P w.db (body w).1.db a)
      → (w : World) → Ends P w.db (transaction body w).0 (transaction body w).1.db
  unfolding transaction
  transaction-Ends body h w =
      let w' = record w { conflicts = rest_conflicts w.conflicts; locks = [] } in
      end_transaction-Ends w.db (next_conflict w.conflicts) (body w').0 (body w').1 (h w')

module _ {A : Type 0} (body : Action World A) (w : World) where
  -- The world that the callback starts in.
  abbrev pub begun : World
  begun = record w { conflicts = rest_conflicts w.conflicts; locks = [] }

  end_transaction_ok :
      (a : A) (r : Result A) (v : World)
      → r ≡ ok a
      → let (s, u) = end_transaction w.db false (r, v) in (s ≡ ok a) × (u.db ≡ v.db)
  end_transaction_ok a (ok b) v e = (e, refl)
  end_transaction_ok a (err x) v e = cc

  -- A success whose commit is not refused stays.
  pub transaction_commits :
      (a : A)
      → next_conflict w.conflicts ≡ false
      → (body begun).0 ≡ ok a
      → ((transaction body w).0 ≡ ok a) × ((transaction body w).1.db ≡ (body begun).1.db)
  unfolding transaction
  transaction_commits a free e = rw free (end_transaction_ok a _ _ e)

  end_transaction_err :
      (x : Error) (refused : Bool) (r : Result A) (v : World)
      → r ≡ err x
      → let (s, u) = end_transaction w.db refused (r, v) in (s ≡ err x) × (u.db ≡ w.db)
  end_transaction_err x refused (ok b) v e = cc
  end_transaction_err x refused (err y) v e = (e, refl)

  -- A throw is the transaction's, and takes everything back.
  pub transaction_throws :
      (x : Error)
      → (body begun).0 ≡ err x
      → ((transaction body w).0 ≡ err x) × ((transaction body w).1.db ≡ w.db)
  unfolding transaction
  transaction_throws x e = end_transaction_err x _ _ _ e
