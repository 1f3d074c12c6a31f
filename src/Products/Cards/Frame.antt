-- ===== src/Products/Cards/Frame.antt =====
-- The deletion of cards, `invalidateAvailability` of apps/api/src/products/products.service.ts.
use casecellshop.Base.{
  Bool, true, false, ℕ, String, ◌≡◌, refl, Option, none, some, List, [], ◌∷◌, ◌∙◌, arith,
}
use casecellshop.Action.{Result, ok, err, Action}
use casecellshop.Action.Laws.{bind-ok}
use casecellshop.World.{World}
use casecellshop.Cache.Service.{delete, or_catch}
use casecellshop.Observability.Trace.{start_span}
use casecellshop.Products.Cards.{card_key, delete_cards, invalidate_availability, read_failed}

delete_lem :
    (tracer : Option (ℕ → String)) (key : String) (w : World)
    → ((or_catch tt (delete tracer key) w).0 ≡ ok tt)
      × ((or_catch tt (delete tracer key) w).1.db ≡ w.db)
unfolding delete start_span
delete_lem none key w = ground arith
delete_lem (some uuid) key w = ground arith

delete_cards_lem :
    (tracer : Option (ℕ → String)) (version : ℕ) (ids : List String) (w : World)
    → ((delete_cards tracer version ids w).0 ≡ ok tt)
      × ((delete_cards tracer version ids w).1.db ≡ w.db)
unfolding delete_cards
delete_cards_lem tracer version [] w = (refl, refl)
delete_cards_lem tracer version (id ∷ ids) w =
    let one : Action World (Unit {0}) = or_catch tt (delete tracer (card_key version id)) in
    let (done, same) = delete_lem tracer (card_key version id) w in
    let (rest, kept) = delete_cards_lem tracer version ids (one w).1 in
    let e = bind-ok one (λ _. delete_cards tracer version ids) w done in
    (rw e rest, rw e (kept ∙ same))

-- What becomes of a result when the version of the catalogue is read after it.
abbrev pub after_read : {A : Type 0} → Bool → A → Result A
after_read true a = err read_failed
after_read false a = ok a

-- Whatever Redis does, the deletion of the ordered products' cards fails only where the database fails the
-- read of the catalogue's version, and leaves the database as it was.
pub invalidate_availability_lem :
    (tracer : Option (ℕ → String)) (fails : Bool) (ids : List String) (w : World)
    → ((invalidate_availability tracer fails ids w).0 ≡ after_read fails tt)
      × ((invalidate_availability tracer fails ids w).1.db ≡ w.db)
unfolding invalidate_availability
invalidate_availability_lem tracer true ids w = (refl, refl)
invalidate_availability_lem tracer false ids w = delete_cards_lem tracer _ ids w
