-- ===== src/System/Attempts.antt =====
-- The attempt numbers of the messages on the billing and the retry queue, over the turns of all the
-- services.
pub mod Turns
use Prim.Native.Nat.{ℕ, ◌+◌, ◌≤◌, ◌<◌}
use casecellshop.Base.{
  String, Bool, true, false, ◌≡◌, refl, sym, ap, ◌∙◌, Option, none, some, List, [], ◌∷◌, ◌++◌, All,
  All-append, arith, inl, inr, ◌&&◌, ◌==◌, Bool-cases, Option-cases, if◌then◌else◌, leb, ltb, not,
  select,
}
use casecellshop.Action.{
  Error, Result, ok, err, Action, pure, throw, gets, modify, ◌>>=◌, ◌>>◌, Result-cases,
}
use casecellshop.Store.{Db, Order, OutboxEvent}
use casecellshop.Plant.{Plant, statement, queue, next_fault, message_of}
use casecellshop.Queue.Broker.{
  hand_over, route, BillingMessage, Broker, Message, get_channel, ensure_topology, publish,
  publish_to_retry, publish_to_dlq, expire, expire_retry, next, rest,
}
use casecellshop.Erp.Clients.{request_billing, request_status}
use casecellshop.Erp.Clients.Calls.{request_billing-Calls, request_status-Asks}
use casecellshop.Outbox.Publisher.{
  publish_event, publish_events, publish_pending, flush_pending_outbox, update_event,
  mark_published, mark_failed, message_for, pending_events, catch,
}
use casecellshop.Billing.Consumer.{
  process_message, handle_failure, process_with_retry, handle_message, consume, consume_first,
  find_order, update_order, mark_billed, mark_erp_failed, billing_key, create_attempt, is_billed,
  failed_attempt, max_attempts, attempt_of, resend, with_headers,
}
use casecellshop.Reconciliation.Orders.{
  is_open, Tally, settle, reconcile_each, report, reconcile_orders,
}
use casecellshop.Checkout.Request.{Platform}
use casecellshop.System.{
  Step, Steps, checked_out, flushed, consumed, expired, reconciled, erp_failing, erp_mended, struck,
  here, after,
}

-- The message is none that follows the fourth attempt.
abbrev pub IsWithin : Message → Type 0
IsWithin m = elim m.content [ none ↦ Unit | some message ↦ attempt_of message ≤ max_attempts ]

pub record AreWithin (b : Broker) : Type 0 where
  pub billing : All IsWithin b.billing
  pub retry : All IsWithin b.retry

-- The run keeps both queues so.
abbrev pub Keeps : {A : Type 0} → Action Plant A → Type 0
Keeps m = (s : Plant) → AreWithin s.broker → AreWithin (m s).1.broker

abbrev pub KeepsQueues : {A : Type 0} → Action Broker A → Type 0
KeepsQueues call = (b : Broker) → AreWithin b → AreWithin (call b).1

pub bind-Keeps :
    {A B : Type 0} (m : Action Plant A) (k : A → Action Plant B) (s : Plant)
    → AreWithin (m s).1.broker
    → ((x : A) → Keeps (k x))
    → AreWithin ((m >>= k) s).1.broker
bind-Keeps m k s a next = elim (Result-cases (m s).0) [
  | inl (x, e) ↦ rw (e, ◌>>=◌) a
  | inr (x, e) ↦ rw (e, ◌>>=◌) (next x (m s).1 a)
]

statement-broker :
    {A : Type 0} (run : Action Db A) (s : Plant) → (statement run s).1.broker ≡ s.broker
unfolding statement
statement-broker run s = elim (Bool-cases (next_fault s.db_faults)) [
  | inl fails ↦ rw fails refl
  | inr runs ↦ rw runs refl
]

pub statement-Keeps : {A : Type 0} (run : Action Db A) → Keeps (statement run)
statement-Keeps run s v = rw (statement-broker run s) v

pub ensure_topology-Keeps : KeepsQueues ensure_topology
unfolding ensure_topology get_channel
ensure_topology-Keeps b v = elim (Bool-cases (next b.faults)) [
  | inl fails ↦ rw (fails, ◌>>=◌) (record { billing = v.billing; retry = v.retry })
  | inr runs ↦ rw (runs, ◌>>=◌) (record { billing = v.billing; retry = v.retry })
]

bind-KeepsQueues :
    {A B : Type 0} (m : Action Broker A) (k : A → Action Broker B)
    → KeepsQueues m
    → ((x : A) → KeepsQueues (k x))
    → KeepsQueues (m >>= k)
bind-KeepsQueues m k a next b v = elim (Result-cases (m b).0) [
  | inl (x, e) ↦ rw (e, ◌>>=◌) (a b v)
  | inr (x, e) ↦ rw (e, ◌>>=◌) (next x (m b).1 (a b v))
]

get_channel-Keeps : KeepsQueues get_channel
unfolding get_channel
get_channel-Keeps b v = record { billing = v.billing; retry = v.retry }

hand_over-Keeps :
    (arrive : Broker → Broker)
    → ((b : Broker) → AreWithin b → AreWithin (arrive b))
    → KeepsQueues (modify (hand_over arrive))
hand_over-Keeps arrive each b v = elim (Bool-cases (next b.losses)) [
  | inl lost ↦ rw lost (record { billing = v.billing; retry = v.retry })
  | inr kept ↦ rw kept (each _ (record { billing = v.billing; retry = v.retry }))
]

abbrev to_retry : Message → Broker → Broker
to_retry m b = record b { retry = b.retry ++ m ∷ [] }

abbrev to_dlq : Message → Broker → Broker
to_dlq m b = record b { dlq = b.dlq ++ m ∷ [] }

pub publish_to_retry-Keeps : (m : Message) → IsWithin m → KeepsQueues (publish_to_retry m)
unfolding publish_to_retry
publish_to_retry-Keeps m h =
    bind-KeepsQueues ensure_topology (λ u. get_channel >> modify (hand_over (to_retry m)))
      ensure_topology-Keeps
      (λ u.
        bind-KeepsQueues get_channel (λ w. modify (hand_over (to_retry m))) get_channel-Keeps
          (λ w. hand_over-Keeps (to_retry m) (λ b v. record {
            billing = v.billing;
            retry = All-append IsWithin b.retry (m ∷ []) v.retry (h, tt);
          })))

pub publish_to_dlq-Keeps : (m : Message) → KeepsQueues (publish_to_dlq m)
unfolding publish_to_dlq
publish_to_dlq-Keeps m =
    bind-KeepsQueues ensure_topology (λ u. get_channel >> modify (hand_over (to_dlq m)))
      ensure_topology-Keeps
      (λ u.
        bind-KeepsQueues get_channel (λ w. modify (hand_over (to_dlq m))) get_channel-Keeps
          (λ w.
            hand_over-Keeps (to_dlq m) (λ b v. record { billing = v.billing; retry = v.retry })))

pub publish-Keeps :
    (exchange key : String) (m : Message) → IsWithin m → KeepsQueues (publish exchange key m)
unfolding publish get_channel
publish-Keeps exchange key m h =
    bind-KeepsQueues get_channel (λ u. modify (hand_over (route exchange key m))) get_channel-Keeps
      (λ u. hand_over-Keeps (route exchange key m) (λ b v.
        elim (Bool-cases (b.bound && (exchange == "orders" && key == "billing"))) [
          | inl routed ↦ rw routed (record {
            billing = All-append IsWithin b.billing (m ∷ []) v.billing (h, tt);
            retry = v.retry;
          })
          | inr dropped ↦ rw dropped (record { billing = v.billing; retry = v.retry })
        ]))

pub message_for-IsWithin : (event : OutboxEvent) → IsWithin (message_for event)
message_for-IsWithin event = omega arith
