-- ===== src/Checkout/Retry/Bounds.antt =====
-- What the retry loop does: which attempts it makes, that it ends, and how long it waits.
use Prim.Native.Nat.{ℕ, zero, suc, ◌+◌, ◌-◌, ◌*◌, ◌^◌, ◌≤◌, ◌<◌}
use casecellshop.Base.{true, false, ◌≡◌, refl, ◌⊎◌, inl, inr, arith, leb, Bool-cases}
use casecellshop.Action.{Error, Result, ok, err, Action}
use casecellshop.World.{World}
use casecellshop.Checkout.Retry.{
  is_retryable, delay, retry_from, run_with_retry, checkout_retry_attempts,
  checkout_retry_base_delay_ms,
}

-- When an attempt's result is the loop's: on success, on an error that is not a write conflict,
-- and at the fourth attempt.
abbrev pub IsFinal : {A : Type 0} → ℕ → Result A → Type 0
IsFinal attempt (ok a) = Unit
IsFinal attempt (err e) = (is_retryable e ≡ false) ⊎ (checkout_retry_attempts ≤ attempt + 1)

-- The runs that the loop may make from an attempt on, stated without fuel.
pub data Retries {A : Type 0} (operation : Action World A)
    : ℕ → World → Result A × World → Type 0 where
  stop :
      {n : ℕ} {w : World} {r : Result A × World}
      → r ≡ operation w
      → IsFinal n (operation w).0
      → Retries operation n w r
  again :
      {n : ℕ} {w : World} {r : Result A × World} (e : Error)
      → (operation w).0 ≡ err e
      → is_retryable e ≡ true
      → n + 1 < checkout_retry_attempts
      → Retries operation (n + 1) (delay (checkout_retry_base_delay_ms * 2 ^ n) (operation w).1) r
      → Retries operation n w r

module _ {A : Type 0} (operation : Action World A) where
  retry_from-Retries :
      (fuel n : ℕ) (w : World) (r : Result A)
      → (operation w).0 ≡ r
      → checkout_retry_attempts ≤ fuel + n
      → n < checkout_retry_attempts
      → Retries operation n w (retry_from fuel n operation w)
  unfolding retry_from
  retry_from-Retries zero n w r e enough h = absurd (omega arith)
  retry_from-Retries (suc fuel) n w (ok a) e enough h = rw (e, retry_from) (stop (cc e) (rw e tt))
  retry_from-Retries (suc fuel) n w (err x) e enough h = elim (Bool-cases (is_retryable x)) [
    | inl yes_retry ↦ elim (Bool-cases (leb (checkout_retry_attempts - 1) n)) [
      | inl last ↦ rw (e, retry_from, yes_retry, last) (stop (cc e) (rw e (inr (ground arith))))
      | inr more ↦
          let w' = delay (checkout_retry_base_delay_ms * 2 ^ n) (operation w).1 in
          let rest =
            retry_from-Retries fuel (n + 1) w' (operation w').0 refl (omega arith) (ground arith) in
          rw (e, retry_from, yes_retry, more) (again x e yes_retry (ground arith) rest)
    ]
    | inr final ↦ rw (e, retry_from, final) (stop (cc e) (rw e (inl final)))
  ]

-- The loop makes at most four attempts and never runs out of fuel: it retries write conflicts alone,
-- and its result is that of its last attempt.
pub run_with_retry-Retries :
    {A : Type 0} (operation : Action World A) (w : World)
    → Retries operation 0 w (run_with_retry operation w)
unfolding run_with_retry
run_with_retry-Retries operation w =
    retry_from-Retries operation 4 0 w (operation w).0 refl (omega arith) (omega arith)

module _ {A : Type 0} (operation : Action World A) (w : World) where
  pub run_with_retry_ok :
      (a : A) → (operation w).0 ≡ ok a → run_with_retry operation w ≡ operation w
  unfolding run_with_retry
  run_with_retry_ok a e = rw (e, retry_from) (cc)

  pub run_with_retry_final :
      (x : Error)
      → (operation w).0 ≡ err x
      → is_retryable x ≡ false
      → run_with_retry operation w ≡ operation w
  unfolding run_with_retry
  run_with_retry_final x e final = rw (e, retry_from, final) (cc)
