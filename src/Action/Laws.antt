-- ===== src/Action/Laws.antt =====
-- Inversion of a sequence of actions that succeeded.
use casecellshop.Base.{◌≡◌, refl, ap}
use casecellshop.Action.{Error, Result, ok, err, Action, ◌>>=◌}

module _ {S A B : Type 0} (m : Action S A) (f : A → Action S B) (s : S) where
  bind-eq-ok_of :
      {b : B} (r : Result A)
      → (m s).0 ≡ r
      → ((m >>= f) s).0 ≡ ok b
      → (a : A) × ((m s).0 ≡ ok a) × ((m >>= f) s ≡ f a (m s).1)
  bind-eq-ok_of (ok a) e h = (a, e, rw (e, ◌>>=◌))
  bind-eq-ok_of (err x) e h = cc (rw (e, ◌>>=◌) at h)

  pub bind-eq-ok :
      {b : B} → ((m >>= f) s).0 ≡ ok b → (a : A) × ((m s).0 ≡ ok a) × ((m >>= f) s ≡ f a (m s).1)
  bind-eq-ok h = bind-eq-ok_of (m s).0 refl h

  pub bind-ok : {a : A} → (m s).0 ≡ ok a → (m >>= f) s ≡ f a (m s).1
  bind-ok e = rw (e, ◌>>=◌)

  pub bind-err : {e : Error} → (m s).0 ≡ err e → (m >>= f) s ≡ (err e, (m s).1)
  bind-err e = rw (e, ◌>>=◌)

  pub bind-runs : {a : A} {t : S} → m s ≡ (ok a, t) → (m >>= f) s ≡ f a t
  bind-runs e = ap (λ (x : Result A × S). ((λ _. x) >>= f) s) e

  pub bind-stops : {x : Error} {t : S} → m s ≡ (err x, t) → (m >>= f) s ≡ (err x, t)
  bind-stops e = ap (λ (x : Result A × S). ((λ _. x) >>= f) s) e
