-- ===== src/Cache/Service/Calm.antt =====
-- What runs of the cache service and of the database share: an answer, and a database left as it was.
use casecellshop.Base.{
  ℕ, String, Bool, true, false, ◌≡◌, refl, ◌∙◌, inl, inr, Option, none, some, if◌then◌else◌,
}
use casecellshop.Action.{ok, Action, pure, ◌>>=◌, Result-cases}
use casecellshop.World.{World}
use casecellshop.Observability.Trace.{span, start_span}
use casecellshop.Cache.Service.Frame.{SparesDb}
use casecellshop.Cache.Service.{or_catch}

-- The run answers, and leaves the database as it was.
pub record IsCalm {A : Type 0} (m : Action World A) : Type 0 where
  pub answers : (w : World) → (a : A) × ((m w).0 ≡ ok a)
  pub keeps : (w : World) → (m w).1.db ≡ w.db

pub pure-IsCalm : {A : Type 0} (a : A) → IsCalm {A = A} (pure a)
pure-IsCalm a = record { answers = λ w. (a, refl); keeps = λ w. refl }

pub bind-IsCalm :
    {A B : Type 0} (m : Action World A) (k : A → Action World B)
    → IsCalm m
    → ((a : A) → IsCalm (k a))
    → IsCalm (m >>= k)
bind-IsCalm m k c next = record {
  answers = λ w. let (a, e) = c.answers w in rw (e, ◌>>=◌) ((next a).answers (m w).1);
  keeps = λ w. let (a, e) = c.answers w in rw (e, ◌>>=◌) ((next a).keeps (m w).1 ∙ c.keeps w);
}

pub if-IsCalm :
    {A : Type 0} (test : Bool) (m k : Action World A)
    → IsCalm m
    → IsCalm k
    → IsCalm (if test then m else k)
if-IsCalm true m k c d = c
if-IsCalm false m k c d = d

pub or_catch-IsCalm :
    {A : Type 0} (value : A) (m : Action World A) → SparesDb m → IsCalm (or_catch value m)
or_catch-IsCalm value m keeps = record {
  answers = λ w. elim (Result-cases (m w).0) [
    | inl (e, fails) ↦ (value, rw (fails, or_catch) refl)
    | inr (a, runs) ↦ (a, rw (runs, or_catch) refl)
  ];
  keeps = λ w. elim (Result-cases (m w).0) [
    | inl (e, fails) ↦ rw (fails, or_catch) (keeps w)
    | inr (a, runs) ↦ rw (runs, or_catch) (keeps w)
  ];
}

pub span-IsCalm :
    {A : Type 0} (tracer : Option (ℕ → String)) (operation : String) (m : Action World A)
    → IsCalm m
    → IsCalm (span tracer operation m)
unfolding start_span
span-IsCalm none operation m c = c
span-IsCalm (some uuid) operation m c = record {
  answers = λ w. c.answers _;
  keeps = λ w. c.keeps _;
}
