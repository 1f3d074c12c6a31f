-- ===== src/Base/Decimal/Reading.antt =====
-- A number is read back from its decimal digits.
use Prim.Native.Char.{code}
use Prim.Native.Nat.{ℕ, zero, suc, ◌+◌, ◌-◌, ◌*◌, ◌/◌, ◌%◌, ◌<◌}
use Prim.Native.String
use Prim.Native.String.{String}
use mathlib.Core.Path.{◌≡◌, refl, sym, ap, ◌∙◌}
use mathlib.Core.Logic.{inl, inr}
use native.Mathlib.Omega.{arith}
use text.Mathlib.TextLemmas.{nil-append, cons-append}
use casecellshop.Base.Tests.{ltb, Bool-cases}
use casecellshop.Base.Decimal.{decimal, decimal_from, digit}

read_from : ℕ → String → ℕ
read_from total String.[] = total
read_from total (String.◌∷◌ c s) = read_from (total * 10 + (code c - 48)) s

read_from-append :
    (total : ℕ) (s t : String) → read_from total (String.◌++◌ s t) ≡ read_from (read_from total s) t
unfolding read_from
read_from-append total String.[] t = ap (read_from total) (nil-append t)
read_from-append total (String.◌∷◌ c s) t =
    ap (read_from total) (cons-append c s t) ∙ read_from-append (total * 10 + (code c - 48)) s t

read_from-digit : (total n : ℕ) → n < 10 → read_from total (digit n) ≡ total * 10 + n
unfolding read_from
read_from-digit total zero small = refl
read_from-digit total (suc zero) small = refl
read_from-digit total (suc (suc zero)) small = refl
read_from-digit total (suc (suc (suc zero))) small = refl
read_from-digit total (suc (suc (suc (suc zero)))) small = refl
read_from-digit total (suc (suc (suc (suc (suc zero))))) small = refl
read_from-digit total (suc (suc (suc (suc (suc (suc zero)))))) small = refl
read_from-digit total (suc (suc (suc (suc (suc (suc (suc zero))))))) small = refl
read_from-digit total (suc (suc (suc (suc (suc (suc (suc (suc zero)))))))) small = refl
read_from-digit total (suc (suc (suc (suc (suc (suc (suc (suc (suc zero))))))))) small = refl
read_from-digit total (suc (suc (suc (suc (suc (suc (suc (suc (suc (suc n)))))))))) small =
    omega arith

read_from-decimal_from : (fuel n : ℕ) → n < fuel → read_from 0 (decimal_from fuel n) ≡ n
unfolding decimal_from
read_from-decimal_from zero n enough = omega arith
read_from-decimal_from (suc fuel) n enough = elim (Bool-cases (ltb n 10)) [
  | inl small ↦ rw small (read_from-digit 0 n (ground arith) ∙ omega arith)
  | inr large ↦ rw large (
      read_from-append 0 (decimal_from fuel (n / 10)) (digit (n % 10))
      ∙ ap (λ k. read_from k (digit (n % 10))) (read_from-decimal_from fuel (n / 10) (ground arith))
      ∙ read_from-digit (n / 10) (n % 10) (omega arith)
      ∙ omega arith)
]

pub decimal_inj : (m n : ℕ) → decimal m ≡ decimal n → m ≡ n
unfolding decimal
decimal_inj m n e =
    sym (read_from-decimal_from (suc m) m (omega arith))
    ∙ ap (read_from 0) e
    ∙ read_from-decimal_from (suc n) n (omega arith)
