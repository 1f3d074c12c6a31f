-- ===== src/Queue/Broker.antt =====
-- libs/queue/src/rabbit.service.ts over the queues that it declares. A connection may fail, and a message
-- that a channel has taken may be lost, since the channels are without confirms; one that has reached its
-- queue is kept until it is acknowledged.
use casecellshop.Base.{
  ℕ, String, Bool, true, false, ◌&&◌, Option, List, [], ◌∷◌, ◌++◌, if◌then◌else◌, ◌==◌,
}
use casecellshop.Action.{other, ok, err, Action, modify, ◌>>◌}

-- `BillingMessage` of apps/order-worker/src/billing.consumer.ts.
pub record BillingMessage : Type 0 where
  pub order_id : String
  pub customer_id : String
  pub idempotency_key : String
  pub attempt : Option ℕ
  pub correlation_id : Option String
  pub request_id : Option String
  pub trace_id : Option String

pub record Headers : Type 0 where
  pub order_id : String
  pub customer_id : String
  pub idempotency_key : String
  pub correlation_id : String
  pub request_id : String
  pub trace_id : String

-- `content` is `none` where the bytes are no JSON text.
pub record Message : Type 0 where
  pub message_id : Option String
  pub headers : Headers
  pub content : Option BillingMessage

-- `faults` says for each call to come whether the connection fails, and `losses` for each message that a
-- channel takes whether it is lost before the broker has it; past their ends none fails and none is lost.
-- `bound` says whether the exchange, the queues and the binding have been declared.
pub record Broker : Type 0 where
  pub bound : Bool
  pub billing : List Message
  pub retry : List Message
  pub dlq : List Message
  pub faults : List Bool
  pub losses : List Bool

abbrev pub next : List Bool → Bool
next [] = false
next (b ∷ bs) = b

abbrev pub rest : List Bool → List Bool
rest [] = []
rest (b ∷ bs) = bs

-- `getChannel`
unfoldable pub get_channel : Action Broker (Unit {0})
get_channel b =
    (if next b.faults then err (other "rabbitmq") else ok tt, record b { faults = rest b.faults })

unfoldable pub ensure_topology : Action Broker (Unit {0})
unfolding get_channel
ensure_topology = do get_channel; modify (λ b. record b { bound = true })

-- What becomes of a message that a channel has taken.
abbrev pub hand_over : (Broker → Broker) → Broker → Broker
hand_over arrive b =
    if next b.losses
    then record b { losses = rest b.losses }
    else arrive (record b { losses = rest b.losses })

-- The exchange routes by the one binding; a message that fits no binding is dropped.
abbrev pub route : String → String → Message → Broker → Broker
route exchange key m b =
    if b.bound && (exchange == "orders" && key == "billing")
    then record b { billing = b.billing ++ m ∷ [] }
    else b

unfoldable pub publish : String → String → Message → Action Broker (Unit {0})
unfolding get_channel
publish exchange key m = do get_channel; modify (hand_over (route exchange key m))

unfoldable pub publish_to_retry : Message → Action Broker (Unit {0})
unfolding ensure_topology
publish_to_retry m = do
  ensure_topology
  get_channel
  modify (hand_over (λ b. record b { retry = b.retry ++ m ∷ [] }))

unfoldable pub publish_to_dlq : Message → Action Broker (Unit {0})
unfolding ensure_topology
publish_to_dlq m = do
  ensure_topology
  get_channel
  modify (hand_over (λ b. record b { dlq = b.dlq ++ m ∷ [] }))

-- The retry queue's time to live runs out for its oldest message, which its dead-letter exchange
-- routes back to the billing queue.
abbrev pub expire : List Message → Broker → Broker
expire [] b = b
expire (m ∷ ms) b = record b { retry = ms; billing = b.billing ++ m ∷ [] }

unfoldable pub expire_retry : Broker → Broker
expire_retry b = expire b.retry b
