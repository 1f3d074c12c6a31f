-- ===== src/Cache/Keys.antt =====
-- The parts of a key in Redis, which colons separate.
use Prim.Native.Char.{code}
use Prim.Native.String
use Prim.Native.Nat.{zero, suc, ◌/◌, ◌%◌}
use casecellshop.Base.Decimal.{decimal, decimal_from, digit, nth_digit, ten_digits}
use casecellshop.Base.{
  ◌==◌, eq_iff, List, [], ◌∷◌, All, Bool-cases, ltb, inl, inr, ℕ, String, Bool, true, false, ◌≡◌,
  refl, sym, ap, ◌∙◌, eqb, if◌then◌else◌, arith,
}
use text.Mathlib.TextLemmas.{nil-append, cons-append, append_assoc, append_cancel_left}
use casecellshop.Cache.Service.{before_colon}

abbrev pub has_colon : String → Bool
has_colon String.[] = false
has_colon (String.◌∷◌ c s) = if eqb (code c) b':' then true else has_colon s

after_colon : String → String
after_colon String.[] = ""
after_colon (String.◌∷◌ c s) = if eqb (code c) b':' then s else after_colon s

colon-append : (t : String) → String.◌++◌ ":" t ≡ String.◌∷◌ ":" t
colon-append t = cons-append ":" "" t ∙ ap (String.◌∷◌ ":") (nil-append t)

before_colon-append :
    (s t : String) → has_colon s ≡ false → before_colon (String.◌++◌ s (String.◌++◌ ":" t)) ≡ s
unfolding before_colon
before_colon-append String.[] t none =
    ap before_colon (nil-append (String.◌++◌ ":" t) ∙ colon-append t)
before_colon-append (String.◌∷◌ c s) t none =
    rw (cons-append c s (String.◌++◌ ":" t)) (ground (arith, before_colon-append s t))

after_colon-append :
    (s t : String) → has_colon s ≡ false → after_colon (String.◌++◌ s (String.◌++◌ ":" t)) ≡ t
unfolding after_colon
after_colon-append String.[] t none =
    ap after_colon (nil-append (String.◌++◌ ":" t) ∙ colon-append t)
after_colon-append (String.◌∷◌ c s) t none =
    rw (cons-append c s (String.◌++◌ ":" t)) (ground (arith, after_colon-append s t))

-- A text that ends at a colon is determined, and so is what follows it.
pub colon-split :
    (s s' t t' : String)
    → has_colon s ≡ false
    → has_colon s' ≡ false
    → String.◌++◌ s (String.◌++◌ ":" t) ≡ String.◌++◌ s' (String.◌++◌ ":" t')
    → (s ≡ s') × (t ≡ t')
colon-split s s' t t' a b e =
    let p = before_colon-append s t a in
    let q = before_colon-append s' t' b in
    let u = after_colon-append s t a in
    let v = after_colon-append s' t' b in
    (sym p ∙ ap before_colon e ∙ q, sym u ∙ ap after_colon e ∙ v)

has_colon-append :
    (s t : String) → has_colon s ≡ false → has_colon t ≡ false → has_colon (String.◌++◌ s t) ≡ false
has_colon-append String.[] t none none' = ap has_colon (nil-append t) ∙ none'
has_colon-append (String.◌∷◌ c s) t none none' =
    rw (cons-append c s t) (ground (arith, has_colon-append s t))

has_colon-nth_digit :
    (texts : List String) (n : ℕ)
    → All (λ text. has_colon text ≡ false) texts
    → has_colon (nth_digit texts n) ≡ false
has_colon-nth_digit [] n a = refl
has_colon-nth_digit (text ∷ texts) zero (e, a) = e
has_colon-nth_digit (text ∷ texts) (suc n) (e, a) = has_colon-nth_digit texts n a

has_colon-digit : (n : ℕ) → has_colon (digit n) ≡ false
has_colon-digit n =
    has_colon-nth_digit ten_digits n
      (refl, (refl, (refl, (refl, (refl, (refl, (refl, (refl, (refl, (refl, tt))))))))))

has_colon-decimal_from : (fuel n : ℕ) → has_colon (decimal_from fuel n) ≡ false
unfolding decimal_from
has_colon-decimal_from zero n = refl
has_colon-decimal_from (suc fuel) n = elim (Bool-cases (ltb n 10)) [
  | inl small ↦ rw small (has_colon-digit n)
  | inr large ↦ rw large (
      has_colon-append (decimal_from fuel (n / 10)) (digit (n % 10))
        (has_colon-decimal_from fuel (n / 10)) (has_colon-digit (n % 10)))
]

pub has_colon-decimal : (n : ℕ) → has_colon (decimal n) ≡ false
unfolding decimal
has_colon-decimal n = has_colon-decimal_from (suc n) n

-- The same where a name follows the colon.
pub named-split :
    (name s s' t t' : String)
    → has_colon s ≡ false
    → has_colon s' ≡ false
    → String.◌++◌ s (String.◌++◌ (String.◌++◌ ":" name) t)
      ≡ String.◌++◌ s' (String.◌++◌ (String.◌++◌ ":" name) t')
    → (s ≡ s') × (t ≡ t')
named-split name s s' t t' a b e =
    let (heads, tails) = colon-split s s' (String.◌++◌ name t) (String.◌++◌ name t') a b (
      ap (String.◌++◌ s) (sym (append_assoc ":" name t))
      ∙ e
      ∙ ap (String.◌++◌ s') (append_assoc ":" name t')) in
    (heads, append_cancel_left name t t' tails)

-- The part of a key before its first colon.
pub before_colon-named :
    (name rest t : String)
    → has_colon name ≡ false
    → before_colon (String.◌++◌ (String.◌++◌ name (String.◌++◌ ":" rest)) t) ≡ name
before_colon-named name rest t none =
    ap before_colon
      (append_assoc name (String.◌++◌ ":" rest) t ∙ ap (String.◌++◌ name) (append_assoc ":" rest t))
    ∙ before_colon-append name (String.◌++◌ rest t) none

pub apart_by_name :
    (s t n m : String)
    → before_colon s ≡ n
    → before_colon t ≡ m
    → (n == m) ≡ false
    → (s == t) ≡ false
apart_by_name s t n m e f differ = elim (Bool-cases (s == t)) [
  | inl same ↦
      let names : n ≡ m = sym e ∙ ap before_colon ((eq_iff s t).0 same) ∙ f in
      ground (arith, differ, eq_iff n m, names)
  | inr apart ↦ apart
]
