-- ===== src/Base/Lists.antt =====
-- Lists measured by native numbers, tables as lists of rows, and predicates on lists.
use Prim.Native.Nat.{ℕ, zero, suc, ◌+◌}
use mathlib.Core.Path.{◌≡◌, refl}
use mathlib.Core.Logic.{◌⊎◌, inl, inr}
use mathlib.Core.Bool.{Bool}
use mathlib.Core.Option.{Option, none, some}
use mathlib.Core.List.{List, [], ◌∷◌, ◌++◌, map}
use native.Mathlib.Omega.{arith}
use casecellshop.Base.Tests.{if◌then◌else◌}

module _ {ℓ} {A : Type ℓ} where
  abbrev pub length : List A → ℕ
  length [] = 0
  length (x ∷ xs) = suc (length xs)

  abbrev pub take : ℕ → List A → List A
  take zero xs = []
  take (suc n) [] = []
  take (suc n) (x ∷ xs) = x ∷ take n xs

  -- `xs.filter(test)`, and the rows that a `where` clause selects.
  abbrev pub select : (A → Bool) → List A → List A
  select test [] = []
  select test (x ∷ xs) = if test x then x ∷ select test xs else select test xs

  -- `xs.find(test)`, and the row that a unique key selects.
  abbrev pub find : (A → Bool) → List A → Option A
  find test [] = none
  find test (x ∷ xs) = if test x then some x else find test xs

  -- An update of the rows that a `where` clause selects, with the rows' number.
  abbrev pub update_many : (A → Bool) → (A → A) → List A → List A
  update_many test change [] = []
  update_many test change (x ∷ xs) = (if test x then change x else x) ∷ update_many test change xs

  abbrev pub count : (A → Bool) → List A → ℕ
  count test [] = 0
  count test (x ∷ xs) = (if test x then 1 else 0) + count test xs

  pub length-append : (xs ys : List A) → length (xs ++ ys) ≡ length xs + length ys
  length-append [] ys = omega arith
  length-append (x ∷ xs) ys = omega (arith, length-append xs ys)

pub length-map {ℓ κ} :
    {A : Type ℓ} {B : Type κ} (f : A → B) (xs : List A) → length (map f xs) ≡ length xs
length-map f [] = refl
length-map f (x ∷ xs) = omega (arith, length-map f xs)

abbrev pub All {ℓ κ} : {A : Type ℓ} → (A → Type κ) → List A → Type κ
All P [] = Unit
All P (x ∷ xs) = P x × All P xs

pub All-append {ℓ κ} :
    {A : Type ℓ} (P : A → Type κ) (xs ys : List A) → All P xs → All P ys → All P (xs ++ ys)
All-append P [] ys a b = b
All-append P (x ∷ xs) ys (px, a) b = (px, All-append P xs ys a b)

pub All-weaken {ℓ κ} :
    {A : Type ℓ} (P Q : A → Type κ) (xs : List A) → ((x : A) → P x → Q x) → All P xs → All Q xs
All-weaken P Q [] h a = tt
All-weaken P Q (x ∷ xs) h (px, a) = (h x px, All-weaken P Q xs h a)

-- The value is one of the list's.
abbrev pub IsIn : {A : Type 0} → List A → A → Type 0
IsIn [] x = ⊥
IsIn (y ∷ ys) x = (x ≡ y) ⊎ IsIn ys x

pub All-IsIn : {A : Type 0} (xs : List A) → All (IsIn xs) xs
All-IsIn [] = tt
All-IsIn (x ∷ xs) = (inl refl, All-weaken (IsIn xs) (IsIn (x ∷ xs)) xs (λ y. inr) (All-IsIn xs))
