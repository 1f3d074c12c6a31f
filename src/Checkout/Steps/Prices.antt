-- ===== src/Checkout/Steps/Prices.antt =====
-- The priced items of an order, and their total.
use Prim.Native.Nat.{ℕ, ◌+◌, ◌*◌}
use casecellshop.Base.{
  Bool, true, ◌≡◌, inl, inr, some, List, [], ◌∷◌, arith, foldl, ◌==◌, ◌&&◌, contains, find, select,
  Option-cases, eq_iff,
}
use casecellshop.Action.{ok}
use casecellshop.Store.{Db, Product, ProductPrice, OrderItem}
use casecellshop.Checkout.Request.{CheckoutItem, product_ids}
use casecellshop.Checkout.Steps.{
  find_products, find_price, priced, price_item, price_items, total_cents,
}

-- What is found in a selection passes both tests.
find-select :
    {A : Type 0} (t u : A → Bool) (xs : List A) {x : A}
    → find t (select u xs) ≡ some x
    → (u x ≡ true) × (t x ≡ true)
find-select t u [] e = cc
find-select t u (y ∷ ys) {x} e = ground (arith, find-select t u ys {x = x})

-- An order item as the tables give it: an active product of the request's id, at its price.
pub record IsPriced (db : Db) (item : CheckoutItem) (row : OrderItem) : Type 0 where
  pub product : Product
  pub price : ProductPrice
  pub is_active : product.active ≡ true
  pub has_id : product.id ≡ item.product_id
  pub has_price : find_price item.product_id db ≡ some price
  pub is_row : row ≡ priced item product price

abbrev pub AllPriced : Db → List CheckoutItem → List OrderItem → Type 0
AllPriced db [] [] = Unit
AllPriced db (item ∷ items) (row ∷ rows) = IsPriced db item row × AllPriced db items rows
AllPriced db _ _ = ⊥

price_item-IsPriced :
    (items : List CheckoutItem) (db : Db) (item : CheckoutItem) (row : OrderItem)
    → price_item (find_products items db) db item ≡ ok row
    → IsPriced db item row
unfolding price_item
price_item-IsPriced items db item row e =
    elim (Option-cases (find (λ p. p.id == item.product_id) (find_products items db))) [
      | inl missing ↦ cc (rw (missing, price_item) at e)
      | inr (product, found) ↦ elim (Option-cases (find_price product.id db)) [
        | inl free ↦ cc (rw (found, free, price_item) at e)
        | inr (price, has) ↦
            let (active, same) =
              find-select (λ p. p.id == item.product_id)
                (λ p. contains p.id (product_ids items) && p.active) db.products found in
            let id = (eq_iff product.id item.product_id).0 same in
            record {
              product = product;
              price = price;
              is_active = ground arith;
              has_id = id;
              has_price = rw (← id) has;
              is_row = cc (rw (found, has, price_item) at e);
            }
      ]
    ]

-- Every item of an order is priced by the tables, in the request's order.
pub price_items-AllPriced :
    (all : List CheckoutItem) (db : Db) (items : List CheckoutItem) (rows : List OrderItem)
    → price_items (find_products all db) db items ≡ ok rows
    → AllPriced db items rows
unfolding price_items
price_items-AllPriced all db [] [] e = tt
price_items-AllPriced all db [] (row ∷ rows) e = ground arith
price_items-AllPriced all db (item ∷ items) [] e = ground arith
price_items-AllPriced all db (item ∷ items) (row ∷ rows) e = (
  price_item-IsPriced all db item row (ground arith),
  price_items-AllPriced all db items rows (ground arith),
)

-- The sum of quantity times unit price.
abbrev pub order_value : List OrderItem → ℕ
order_value [] = 0
order_value (row ∷ rows) = row.quantity * row.unit_price_cents + order_value rows

foldl-order_value :
    (rows : List OrderItem) (sum : ℕ)
    → foldl (λ sum item. sum + item.quantity * item.unit_price_cents) sum rows
      ≡ sum + order_value rows
foldl-order_value [] sum = omega arith
foldl-order_value (row ∷ rows) sum =
    omega (arith, foldl-order_value rows (sum + row.quantity * row.unit_price_cents))

total_cents-eq-order_value : (rows : List OrderItem) → total_cents rows ≡ order_value rows
unfolding total_cents
total_cents-eq-order_value rows = omega (arith, foldl-order_value rows 0)
