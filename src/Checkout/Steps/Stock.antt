-- ===== src/Checkout/Steps/Stock.antt =====
-- The loop that reserves stock, as a change of the inventory's rows, and what it conserves.
use Prim.Native.Nat.{ℕ, ◌+◌, ◌*◌}
use casecellshop.Base.{
  String, ◌≡◌, refl, List, [], ◌∷◌, arith, if◌then◌else◌, ◌==◌, count, update_many, eq_iff,
}
use casecellshop.Action.{ok}
use casecellshop.Action.Laws.{bind-eq-ok}
use casecellshop.Store.{Inventory}
use casecellshop.World.{World, modify_db}
use casecellshop.Checkout.Request.{CheckoutItem}
use casecellshop.Checkout.Steps.{has_stock, take_stock, reserve_item, reserve_items}

-- The rows after the updates for all the items.
abbrev pub reserved_rows : List CheckoutItem → List Inventory → List Inventory
reserved_rows [] rows = rows
reserved_rows (item ∷ items) rows =
    reserved_rows items (update_many (has_stock item) (take_stock item) rows)

-- Each update finds exactly one row, at its turn.
abbrev pub EachFound : List CheckoutItem → List Inventory → Type 0
EachFound [] rows = Unit
EachFound (item ∷ items) rows =
    (count (has_stock item) rows ≡ 1)
    × EachFound items (update_many (has_stock item) (take_stock item) rows)

abbrev pub with_inventory : List Inventory → World → World
with_inventory rows = modify_db (λ db. record db { inventory = rows })

-- The rows after the update for one item.
abbrev pub updated_rows : CheckoutItem → List Inventory → List Inventory
updated_rows item rows = update_many (has_stock item) (take_stock item) rows

reserve_item-ok :
    (item : CheckoutItem) (w : World) {u : Unit {0}}
    → (reserve_item item w).0 ≡ ok u
    → (count (has_stock item) w.db.inventory ≡ 1)
      × ((reserve_item item w).1 ≡ with_inventory (updated_rows item w.db.inventory) w)
unfolding reserve_item
reserve_item-ok item w h = ground arith

-- The loop succeeds only if each item's update finds one row, and then changes the inventory alone.
pub reserve_items-ok :
    (items : List CheckoutItem) (w : World) {u : Unit {0}}
    → (reserve_items items w).0 ≡ ok u
    → EachFound items w.db.inventory
      × ((reserve_items items w).1 ≡ with_inventory (reserved_rows items w.db.inventory) w)
unfolding reserve_items
reserve_items-ok [] w h = (tt, refl)
reserve_items-ok (item ∷ items) w h =
    let (u, first, e) = bind-eq-ok (reserve_item item) (λ _. reserve_items items) w h in
    let (one, same) = reserve_item-ok item w first in
    let w' = with_inventory (updated_rows item w.db.inventory) w in
    let (found, rest) = reserve_items-ok items w' (rw same at (rw e at h)) in
    ((one, found), rw e (rw same rest))

-- The units of a product on the shelf, those reserved, and those that a checkout asks for.
abbrev pub available_of : String → List Inventory → ℕ
available_of id [] = 0
available_of id (row ∷ rows) =
    (if row.product_id == id then row.available_qty else 0) + available_of id rows

abbrev pub reserved_of : String → List Inventory → ℕ
reserved_of id [] = 0
reserved_of id (row ∷ rows) =
    (if row.product_id == id then row.reserved_qty else 0) + reserved_of id rows

abbrev pub ordered_of : String → List CheckoutItem → ℕ
ordered_of id [] = 0
ordered_of id (item ∷ items) =
    (if item.product_id == id then item.quantity else 0) + ordered_of id items

abbrev units : String → CheckoutItem → ℕ
units id item = if item.product_id == id then item.quantity else 0

available_of-update :
    (id : String) (item : CheckoutItem) (rows : List Inventory)
    → available_of id (update_many (has_stock item) (take_stock item) rows)
        + count (has_stock item) rows * units id item
      ≡ available_of id rows
available_of-update id item [] = omega arith
available_of-update id item (row ∷ rows) = ground (
  arith,
  available_of-update id item rows,
  eq_iff row.product_id item.product_id,
  eq_iff row.product_id id,
  eq_iff item.product_id id,
)

reserved_of-update :
    (id : String) (item : CheckoutItem) (rows : List Inventory)
    → reserved_of id (update_many (has_stock item) (take_stock item) rows)
      ≡ reserved_of id rows + count (has_stock item) rows * units id item
reserved_of-update id item [] = omega arith
reserved_of-update id item (row ∷ rows) = ground (
  arith,
  reserved_of-update id item rows,
  eq_iff row.product_id item.product_id,
  eq_iff row.product_id id,
  eq_iff item.product_id id,
)

-- For each product, what the loop takes off the shelf is what was ordered, and is reserved.
pub reserved_rows-units :
    (id : String) (items : List CheckoutItem) (rows : List Inventory)
    → EachFound items rows
    → (available_of id (reserved_rows items rows) + ordered_of id items ≡ available_of id rows)
      × (reserved_of id (reserved_rows items rows) ≡ reserved_of id rows + ordered_of id items)
reserved_rows-units id [] rows f = omega arith
reserved_rows-units id (item ∷ items) rows (one, f) =
    let ih = reserved_rows-units id items _ f in
    let a : available_of id (update_many (has_stock item) (take_stock item) rows)
          + 1 * units id item
        ≡ available_of id rows =
      rw one at (available_of-update id item rows) in
    let r : reserved_of id (update_many (has_stock item) (take_stock item) rows)
        ≡ reserved_of id rows + 1 * units id item =
      rw one at (reserved_of-update id item rows) in
    omega arith
