-- ===== src/Billing/Consumer/Exhaustion/Rounds.antt =====
-- The four deliveries of a message whose billing always fails, one after the other.
use casecellshop.Base.{
  ℕ, ◌+◌, ◌<◌, String, Bool, true, false, ◌≡◌, refl, ap, ◌∙◌, ◌⊎◌, inl, inr, Option, none, some,
  List, [], ◌∷◌, ◌++◌, find, update_many, length, length-append, contains, arith, All, All-append,
  All-weaken, leb, ◌==◌,
}
use casecellshop.Action.{Result, ok, err}
use casecellshop.Store.{Db, Order, IntegrationAttempt}
use casecellshop.Erp.Service.{Erp}
use casecellshop.Observability.Metrics.{Metrics}
use casecellshop.Queue.Broker.{BillingMessage, Message, expire_retry}
use casecellshop.Plant.{Plant}
use casecellshop.Billing.Consumer.{
  has_id, is_billed, process_with_retry, handle_failure, handle_message, consume, attempt_of,
  failed_attempt, mark_erp_failed, resend, with_headers, same_attempt,
}
use casecellshop.Billing.Consumer.Exhaustion.{
  steady, refused, counted_refusal, process_message_fails, handle_failure_retries,
  handle_failure_gives_up,
}

-- The row is of another order, or of an attempt below the number.
abbrev IsBefore : String → ℕ → IntegrationAttempt → Type 0
IsBefore id n row = ((id == row.order_id) ≡ false) ⊎ (row.attempt_number < n)

is_fresh :
    (a : IntegrationAttempt) (rows : List IntegrationAttempt)
    → All (IsBefore a.order_id a.attempt_number) rows
    → find (same_attempt a) rows ≡ none
is_fresh a [] before = refl
is_fresh a (row ∷ rows) (inl other, before) = ground (arith, other, is_fresh a rows before)
is_fresh a (row ∷ rows) (inr lower, before) = ground (arith, lower, is_fresh a rows before)

-- A delivery of the message whose billing the ERP refuses.
module _ (m : Message) (message : BillingMessage) (order : Order) (db : Db) (erp : Erp)
    (metrics : Metrics) (bound : Bool) (dlq : List Message) where
  abbrev given : BillingMessage
  given = with_headers m.headers message

  consumed :
      m.content ≡ some message
      → find (has_id message.order_id) db.orders ≡ some order
      → is_billed order ≡ false
      → contains order.id erp.fail_billing_for ≡ true
      → consume (steady db erp metrics bound (m ∷ []) [] dlq)
        ≡ (handle_failure given refused (steady db erp (counted_refusal metrics) bound [] [] dlq)).1
  unfolding consume handle_message process_with_retry
  consumed content found open_ refusing =
      let answer : Result (Unit {0}) × Plant → Result (Unit {0}) × Plant =
        λ x. elim x.0 [ ok u ↦ (ok tt, x.1) | err e ↦ handle_failure given e x.1 ] in
      let start = steady db erp metrics bound [] [] dlq in
      let open_content : Option BillingMessage → Plant = λ c. elim c [
        | none ↦ start
        | some held ↦ (process_with_retry (with_headers m.headers held) start).1
      ] in
      ap open_content content
      ∙ ap (λ (x : Result (Unit {0}) × Plant). (answer x).1)
          (process_message_fails given order db erp metrics bound [] [] dlq found open_ refusing)

-- The order with its message on the billing queue for the `n`-th time, while the ERP refuses its billing and
-- nothing else fails; `total` counts the rows of attempts that were there before the first.
pub record Waits (id : String) (order : Order) (orders : List Order) (total n : ℕ)
    (dlq : List Message) (s : Plant) : Type 0 where
  pub m : Message
  pub message : BillingMessage
  pub db : Db
  pub erp : Erp
  pub metrics : Metrics
  pub bound : Bool
  pub is_state : s ≡ steady db erp metrics bound (m ∷ []) [] dlq
  pub has_content : m.content ≡ some message
  pub is_of : message.order_id ≡ id
  pub is_number : attempt_of message ≡ n
  pub has_orders : db.orders ≡ orders
  pub is_found : find (has_id id) orders ≡ some order
  pub is_open : is_billed order ≡ false
  pub is_refused : contains order.id erp.fail_billing_for ≡ true
  pub is_before : All (IsBefore id n) db.attempts
  pub has_rows : length db.attempts + 1 ≡ total + n

-- A delivery, after which the time of the retry queue runs out.
abbrev pub turn : Plant → Plant
turn s = let t = consume s in record t { broker = expire_retry t.broker }

module _ (id : String) (order : Order) (orders : List Order) (total n : ℕ) (dlq : List Message)
    (s : Plant) (w : Waits id order orders total n dlq s) where
  abbrev sent : BillingMessage
  sent = with_headers w.m.headers w.message

  fresh_row : find (same_attempt (failed_attempt sent refused)) w.db.attempts ≡ none
  fresh_row =
      is_fresh (failed_attempt sent refused) w.db.attempts (rw (w.is_of, w.is_number) w.is_before)

  found_row : find (has_id w.message.order_id) w.db.orders ≡ some order
  found_row = rw (w.is_of, w.has_orders) w.is_found

  delivered :
      consume s
      ≡ (handle_failure sent refused
          (steady w.db w.erp (counted_refusal w.metrics) w.bound [] [] dlq)).1
  delivered =
      ap consume w.is_state
      ∙ consumed w.m w.message order w.db w.erp w.metrics w.bound dlq w.has_content found_row
          w.is_open w.is_refused

  abbrev row : IntegrationAttempt
  row = failed_attempt sent refused

  row_added : All (IsBefore id (n + 1)) (w.db.attempts ++ row ∷ [])
  row_added =
      All-append (IsBefore id (n + 1)) w.db.attempts (row ∷ [])
        (All-weaken (IsBefore id n) (IsBefore id (n + 1)) w.db.attempts
          (λ a b. elim b [ inl other ↦ inl other | inr lower ↦ inr (omega (arith, lower)) ])
          w.is_before)
        (inr (omega (arith, w.is_number)), tt)

  rows_counted : length (w.db.attempts ++ row ∷ []) + 1 ≡ total + (n + 1)
  rows_counted = omega (arith, length-append w.db.attempts (row ∷ []), w.has_rows)

  -- The message comes back with the next number.
  turn-Waits : n < 4 → Waits id order orders total (n + 1) dlq (turn s)
  unfolding expire_retry
  turn-Waits few =
      let early : leb 4 (attempt_of sent) ≡ false = ground (arith, w.is_number) in
      let after : consume s
          ≡ steady (record w.db { attempts = w.db.attempts ++ row ∷ [] }) w.erp
              (counted_refusal w.metrics) true [] (resend (attempt_of sent + 1) sent ∷ []) dlq =
        delivered
        ∙ ap (λ (x : Result (Unit {0}) × Plant). x.1)
            (handle_failure_retries sent order w.db w.erp (counted_refusal w.metrics) w.bound [] []
              dlq refused found_row fresh_row early) in
      record {
        m = resend (attempt_of sent + 1) sent;
        message = record sent { attempt = some (attempt_of sent + 1) };
        db = record w.db { attempts = w.db.attempts ++ row ∷ [] };
        erp = w.erp;
        metrics = counted_refusal w.metrics;
        bound = true;
        is_state = ap (λ (t : Plant). record t { broker = expire_retry t.broker }) after;
        has_content = refl;
        is_of = w.is_of;
        is_number = ap (λ k. k + 1) w.is_number;
        has_orders = w.has_orders;
        is_found = w.is_found;
        is_open = w.is_open;
        is_refused = w.is_refused;
        is_before = row_added;
        has_rows = rows_counted;
      }

  -- The fourth delivery is the last.
  consume-gives_up :
      n ≡ 4
      → (d : Message) × (message : BillingMessage) × (d.content ≡ some message)
        × (message.order_id ≡ id)
        × (attempt_of message ≡ 4)
        × ((consume s).broker.dlq ≡ dlq ++ d ∷ [])
        × ((consume s).broker.billing ≡ [])
        × ((consume s).broker.retry ≡ [])
        × ((consume s).db.orders ≡ update_many (has_id id) mark_erp_failed orders)
        × (length (consume s).db.attempts ≡ total + 4)
  consume-gives_up last =
      let late : leb 4 (attempt_of sent) ≡ true = ground (arith, w.is_number, last) in
      let after =
        delivered
        ∙ ap (λ (x : Result (Unit {0}) × Plant). x.1)
            (handle_failure_gives_up sent order w.db w.erp (counted_refusal w.metrics) w.bound [] []
              dlq refused found_row fresh_row late) in
      (
        resend (attempt_of sent) sent,
        record sent { attempt = some (attempt_of sent) },
        refl,
        w.is_of,
        w.is_number ∙ last,
        ap (λ (t : Plant). t.broker.dlq) after,
        ap (λ (t : Plant). t.broker.billing) after,
        ap (λ (t : Plant). t.broker.retry) after,
        ap (λ (t : Plant). t.db.orders) after
            ∙ (λ i. update_many (has_id (w.is_of i)) mark_erp_failed (w.has_orders i)),
        ap (λ (t : Plant). length t.db.attempts) after ∙ omega (arith, rows_counted, last),
      )

-- Where an order's message waits for its first delivery, alone on the billing and the retry queue, the ERP
-- refuses the billing of the order and nothing else fails, four deliveries, with the retry queue run out between them, bring the message to the dead-letter
-- queue with the number four, leave the billing and the retry queue empty, mark the order, and it alone, as
-- failed, and record four attempts.
pub consume_four_times :
    (id : String) (order : Order) (orders : List Order) (total : ℕ) (dlq : List Message) (s : Plant)
    → Waits id order orders total 1 dlq s
    → let s' = consume (turn (turn (turn s))) in
      (d : Message) × (message : BillingMessage) × (d.content ≡ some message)
      × (message.order_id ≡ id)
      × (attempt_of message ≡ 4)
      × (s'.broker.dlq ≡ dlq ++ d ∷ [])
      × (s'.broker.billing ≡ [])
      × (s'.broker.retry ≡ [])
      × (s'.db.orders ≡ update_many (has_id id) mark_erp_failed orders)
      × (length s'.db.attempts ≡ total + 4)
consume_four_times id order orders total dlq s w =
    let second = turn-Waits id order orders total 1 dlq s w (omega arith) in
    let third = turn-Waits id order orders total 2 dlq (turn s) second (omega arith) in
    let fourth = turn-Waits id order orders total 3 dlq (turn (turn s)) third (omega arith) in
    consume-gives_up id order orders total 4 dlq (turn (turn (turn s))) fourth refl
