-- ===== src/Outbox/Publisher/Delivery.antt =====
-- Published events and the messages of the billing queue, over a run of `publishPending` of
-- apps/outbox-worker/src/outbox.publisher.ts.
use casecellshop.Base.{
  String, Bool, All, All-append, IsIn, ◌≡◌, refl, ap, ◌∙◌, true, false, List, [], ◌∷◌, ◌++◌, inl,
  inr, ◌⊎◌, Bool-cases, if◌then◌else◌, arith, map, contains, update_many, eq_iff, ◌==◌,
}
use casecellshop.Action.{Error, other, ok, err, Action, ◌>>=◌}
use casecellshop.Store.{Db, OutboxEvent, OutboxStatus}
use casecellshop.Queue.Broker.{Broker, get_channel, publish, next, rest}
use casecellshop.Plant.{Plant, statement, next_fault, rest_faults}
use casecellshop.Outbox.Publisher.{mark_published, mark_failed, message_for}

abbrev is_published : OutboxEvent → Bool
is_published event = elim event.status [ OutboxStatus.published ↦ true | _ ↦ false ]

-- Whether the event of an id is marked as published.
abbrev pub published_in : String → List OutboxEvent → Bool
published_in id [] = false
published_in id (e ∷ es) = if e.id == id then is_published e else published_in id es

abbrev pub event_ids : List OutboxEvent → List String
event_ids = map (λ e. e.id)

-- Some of the given events are sent, which is to say handed to a channel, and messages of given events have arrived
-- at the end of the queue: those of the events sent where no message is lost. An event that is marked as published
-- was so before, or has been sent.
pub record Sends (events : List OutboxEvent) (s s' : Plant) : Type 0 where
  pub sent : List OutboxEvent
  pub chosen : All (IsIn events) sent
  pub arrived : List OutboxEvent
  pub picked : All (IsIn events) arrived
  pub queued : s'.broker.billing ≡ s.broker.billing ++ map message_for arrived
  pub none_lost : s.broker.losses ≡ [] → (arrived ≡ sent) × (s'.broker.losses ≡ [])
  pub covered :
      (id : String)
      → published_in id s'.db.outbox_events ≡ true
      → (published_in id s.db.outbox_events ≡ true) ⊎ (contains id (event_ids sent) ≡ true)
  pub bound : s.broker.bound ≡ true → s'.broker.bound ≡ true

++-nil : {A : Type 0} (xs : List A) → xs ≡ xs ++ []
++-nil [] = refl
++-nil (x ∷ xs) = ap (λ t. x ∷ t) (++-nil xs)

++-assoc : {A : Type 0} (xs ys zs : List A) → (xs ++ ys) ++ zs ≡ xs ++ (ys ++ zs)
++-assoc [] ys zs = refl
++-assoc (x ∷ xs) ys zs = ap (λ t. x ∷ t) (++-assoc xs ys zs)

map-append : {A B : Type 0} (f : A → B) (xs ys : List A) → map f xs ++ map f ys ≡ map f (xs ++ ys)
map-append f [] ys = refl
map-append f (x ∷ xs) ys = ap (λ t. f x ∷ t) (map-append f xs ys)

contains-left :
    (id : String) (xs ys : List String) → contains id xs ≡ true → contains id (xs ++ ys) ≡ true
contains-left id [] ys h = cc
contains-left id (x ∷ xs) ys h = ground (arith, contains-left id xs ys)

contains-right :
    (id : String) (xs ys : List String) → contains id ys ≡ true → contains id (xs ++ ys) ≡ true
contains-right id [] ys h = h
contains-right id (x ∷ xs) ys h = ground (arith, contains-right id xs ys h)

pub Sends-trans :
    (events : List OutboxEvent) (s t u : Plant)
    → Sends events s t
    → Sends events t u
    → Sends events s u
Sends-trans events s t u a b = record {
  sent = a.sent ++ b.sent;
  chosen = All-append (IsIn events) a.sent b.sent a.chosen b.chosen;
  arrived = a.arrived ++ b.arrived;
  picked = All-append (IsIn events) a.arrived b.arrived a.picked b.picked;
  queued =
      b.queued
      ∙ ap (λ q. q ++ map message_for b.arrived) a.queued
      ∙ ++-assoc s.broker.billing (map message_for a.arrived) (map message_for b.arrived)
      ∙ ap (λ q. s.broker.billing ++ q) (map-append message_for a.arrived b.arrived);
  none_lost = λ h.
      let (first, still) = a.none_lost h in
      let (second, after) = b.none_lost still in
      (ap (λ q. q ++ b.arrived) first ∙ ap (λ q. a.sent ++ q) second, after);
  covered = λ id h. elim (b.covered id h) [
    | inl before ↦ elim (a.covered id before) [
      | inl first ↦ inl first
      | inr sent ↦ inr (
          rw⁻¹ (map-append (λ (e : OutboxEvent). e.id) a.sent b.sent)
            (contains-left id (event_ids a.sent) (event_ids b.sent) sent))
    ]
    | inr sent ↦ inr (
        rw⁻¹ (map-append (λ (e : OutboxEvent). e.id) a.sent b.sent)
          (contains-right id (event_ids a.sent) (event_ids b.sent) sent))
  ];
  bound = λ h. b.bound (a.bound h);
}

-- A run that sends nothing and publishes nothing.
pub Sends-none :
    (events : List OutboxEvent) (s s' : Plant)
    → s'.broker.billing ≡ s.broker.billing
    → s'.broker.losses ≡ s.broker.losses
    → (s.broker.bound ≡ true → s'.broker.bound ≡ true)
    → ((id : String)
        → published_in id s'.db.outbox_events ≡ true
        → published_in id s.db.outbox_events ≡ true)
    → Sends events s s'
Sends-none events s s' q l b h = record {
  sent = [];
  chosen = tt;
  arrived = [];
  picked = tt;
  queued = q ∙ ++-nil s.broker.billing;
  none_lost = λ none. (refl, l ∙ none);
  covered = λ id e. inl (h id e);
  bound = b;
}

pub mark_published-covers :
    (key id : String) (rows : List OutboxEvent)
    → published_in id (update_many (λ e. e.id == key) mark_published rows) ≡ true
    → (published_in id rows ≡ true) ⊎ ((key == id) ≡ true)
mark_published-covers key id [] h = cc
mark_published-covers key id (e ∷ es) h =
    ground (arith, mark_published-covers key id es, eq_iff e.id key, eq_iff e.id id, eq_iff key id)

pub mark_failed-covers :
    (key id message : String) (rows : List OutboxEvent)
    → published_in id (update_many (λ e. e.id == key) (mark_failed message) rows) ≡ true
    → published_in id rows ≡ true
mark_failed-covers key id message [] h = cc
mark_failed-covers key id message (e ∷ es) h =
    ground
      (arith, mark_failed-covers key id message es, eq_iff e.id key, eq_iff e.id id, eq_iff key id)

-- The event whose message has arrived, if it was not lost.
abbrev pub arrivals : Bool → OutboxEvent → List OutboxEvent
arrivals true event = []
arrivals false event = event ∷ []

module _ (event : OutboxEvent) (b : Broker) where
  abbrev pub taken : List Bool → List Bool → Bool → Broker
  taken faults losses lost = record b {
    faults = faults;
    losses = losses;
    billing = b.billing ++ map message_for (arrivals lost event);
  }

  -- A call of `publish` on a declared topology fails, or hands the message over, which queues it unless it is lost.
  pub publish-cases :
      b.bound ≡ true
      → ((e : Error) × (faults : List Bool) × (publish "orders" "billing" (message_for event) b
            ≡ (err e, record b { faults = faults })))
        ⊎ ((faults : List Bool) × (losses : List Bool) × (lost : Bool) × (publish "orders" "billing"
                (message_for event)
                b
              ≡ (ok tt, taken faults losses lost))
            × (b.losses ≡ [] → (lost ≡ false) × (losses ≡ [])))
  unfolding publish get_channel
  publish-cases declared = elim (Bool-cases (next b.faults)) [
    | inl fails ↦ inl (other "rabbitmq", rest b.faults, rw (fails, ◌>>=◌) refl)
    | inr runs ↦ inr (
      rest b.faults,
      rest b.losses,
      next b.losses,
      elim (Bool-cases (next b.losses)) [
        | inl lost ↦
            rw (runs, ◌>>=◌, lost)
              (ap
                (λ q.
                  (ok tt, record b { faults = rest b.faults; losses = rest b.losses; billing = q }))
                (++-nil b.billing))
        | inr kept ↦ rw (runs, ◌>>=◌, kept, declared) refl
      ],
      λ none. rw none (refl, refl),
    )
  ]

pub statement-cases :
    {A : Type 0} (run : Action Db A) (s : Plant)
    → ((e : Error) × (faults : List Bool) × (statement run s
          ≡ (err e, record s { db_faults = faults })))
      ⊎ ((faults : List Bool) × (statement run s
            ≡ ((run s.db).0, record s { db_faults = faults; db = (run s.db).1 })))
unfolding statement
statement-cases run s = elim (Bool-cases (next_fault s.db_faults)) [
  | inl fails ↦ inl (other "database", rest_faults s.db_faults, rw fails refl)
  | inr runs ↦ inr (rest_faults s.db_faults, rw runs refl)
]
