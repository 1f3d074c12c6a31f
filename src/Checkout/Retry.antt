-- ===== src/Checkout/Retry.antt =====
-- `runCheckoutTransactionWithRetry`: write conflicts are retried with a growing delay.
pub mod Bounds
use Prim.Native.Nat.{ℕ, zero, suc, ◌+◌, ◌-◌, ◌*◌, ◌^◌}
use casecellshop.Base.{Bool, false, not, ◌||◌, [], ◌∷◌, ◌++◌, leb, if◌then◌else◌, ◌==◌}
use casecellshop.Action.{Error, prisma, other, ok, err, Action}
use casecellshop.World.{World}

abbrev pub checkout_retry_attempts : ℕ
checkout_retry_attempts = 4

abbrev pub checkout_retry_base_delay_ms : ℕ
checkout_retry_base_delay_ms = 25

-- Of the errors that reach the loop, Prisma's alone carry a `code`.
abbrev pub is_retryable : Error → Bool
is_retryable (prisma code) = code == "P2034"
is_retryable _ = false

abbrev pub delay : ℕ → World → World
delay ms w = record w { delays = w.delays ++ ms ∷ [] }

-- The `while (true)` loop from a given attempt on; `out_of_fuel` is no error of the source.
abbrev pub out_of_fuel : Error
out_of_fuel = other "out of fuel"

unfoldable pub retry_from : {A : Type 0} → ℕ → ℕ → Action World A → Action World A
retry_from zero attempt operation w = (err out_of_fuel, w)
retry_from (suc fuel) attempt operation w =
    let (r, w') = operation w in
    elim r [
      | ok a ↦ (ok a, w')
      | err e ↦
          let again =
            retry_from fuel (attempt + 1) operation
              (delay (checkout_retry_base_delay_ms * 2 ^ attempt) w') in
          if not (is_retryable e) || leb (checkout_retry_attempts - 1) attempt
          then (err e, w')
          else again
    ]

unfoldable pub run_with_retry : {A : Type 0} → Action World A → Action World A
unfolding retry_from
run_with_retry operation = retry_from checkout_retry_attempts 0 operation
