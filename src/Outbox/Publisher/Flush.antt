-- ===== src/Outbox/Publisher/Flush.antt =====
-- One run of `publishPending` of apps/outbox-worker/src/outbox.publisher.ts.
use casecellshop.Base.{
  false, String, Bool, All, All-IsIn, IsIn, ◌≡◌, refl, ap, ◌∙◌, true, List, [], ◌∷◌, inl, inr, ◌⊎◌,
  Bool-cases, update_many, ◌==◌,
}
use casecellshop.Action.{Error, other, Result, ok, err, Action, gets, ◌>>=◌, ◌>>◌, Result-cases}
use casecellshop.Action.Laws.{bind-ok, bind-err}
use casecellshop.Store.{OutboxEvent}
use casecellshop.Queue.Broker.{Broker, get_channel, publish, ensure_topology, next, rest}
use casecellshop.Plant.{Plant, statement, queue, message_of}
use casecellshop.Outbox.Publisher.{
  publish_event, publish_events, publish_pending, update_event, mark_published, mark_failed,
  message_for, catch, pending_events,
}
use casecellshop.Outbox.Publisher.Delivery.{
  arrivals, taken, Sends, Sends-trans, Sends-none, mark_published-covers, mark_failed-covers,
  publish-cases, statement-cases,
}

mark_failed-Sends :
    (events : List OutboxEvent) (key message : String) (s : Plant)
    → Sends events s (statement (update_event key (mark_failed message)) s).1
mark_failed-Sends events key message s =
    elim (statement-cases (update_event key (mark_failed message)) s) [
      | inl (e, faults, is) ↦ rw is (Sends-none events s _ refl refl (λ h. h) (λ id h. h))
      | inr (faults, is) ↦ rw is (
          Sends-none events s _ refl refl (λ h. h)
            (λ id h. mark_failed-covers key id message s.db.outbox_events h))
    ]

module _ (events : List OutboxEvent) (event : OutboxEvent) (s : Plant) where
  abbrev send : Action Plant (Unit {0})
  send =
      queue (publish "orders" "billing" (message_for event))
      >> statement (update_event event.id mark_published)

  abbrev on_error : Error → Action Plant (Unit {0})
  on_error e = statement (update_event event.id (mark_failed (message_of e)))

  caught : (e : Error) → (send s).0 ≡ err e → publish_event event s ≡ on_error e (send s).1
  unfolding publish_event
  caught e h = rw (h, publish_event, catch) refl

  passed : (send s).0 ≡ ok tt → publish_event event s ≡ (ok tt, (send s).1)
  unfolding publish_event
  passed h = rw (h, publish_event, catch) refl

  abbrev queued_at : List Bool → List Bool → Bool → Plant
  queued_at faults losses lost = record s { broker = taken event s.broker faults losses lost }

  -- Where the call says so, nothing was lost and nothing will be.
  abbrev Loses : List Bool → Bool → Type 0
  Loses losses lost = s.broker.losses ≡ [] → (lost ≡ false) × (losses ≡ [])

  arrivals-All : (lost : Bool) → IsIn events event → All (IsIn events) (arrivals lost event)
  arrivals-All true here = tt
  arrivals-All false here = (here, tt)

  arrivals-sent :
      (losses : List Bool) (lost : Bool)
      → Loses losses lost
      → s.broker.losses ≡ []
      → (arrivals lost event ≡ event ∷ []) × (losses ≡ [])
  arrivals-sent losses lost how none =
      let (kept, still) = how none in (ap (λ b. arrivals b event) kept, still)

  queued-Sends :
      (faults losses : List Bool) (lost : Bool)
      → Loses losses lost
      → IsIn events event
      → Sends events s (queued_at faults losses lost)
  queued-Sends faults losses lost how here = record {
    sent = event ∷ [];
    chosen = (here, tt);
    arrived = arrivals lost event;
    picked = arrivals-All lost here;
    queued = refl;
    none_lost = arrivals-sent losses lost how;
    covered = λ id h. inl h;
    bound = λ h. h;
  }

  marked-Sends :
      (faults losses db_faults : List Bool) (lost : Bool)
      → Loses losses lost
      → IsIn events event
      → Sends events s (record (queued_at faults losses lost) {
        db_faults = db_faults;
        db = record s.db {
          outbox_events = update_many (λ e. e.id == event.id) mark_published s.db.outbox_events;
        };
      })
  marked-Sends faults losses db_faults lost how here = record {
    sent = event ∷ [];
    chosen = (here, tt);
    arrived = arrivals lost event;
    picked = arrivals-All lost here;
    queued = refl;
    none_lost = arrivals-sent losses lost how;
    covered = λ id h. elim (mark_published-covers event.id id s.db.outbox_events h) [
      | inl before ↦ inl before
      | inr this ↦ inr (rw this refl)
    ];
    bound = λ h. h;
  }

  after_error :
      (e : Error) (t : Plant)
      → send s ≡ (err e, t)
      → Sends events s t
      → Sends events s (publish_event event s).1
  after_error e t is a =
      rw (caught e (ap (λ (x : Result (Unit {0}) × Plant). x.0) is), is)
        (Sends-trans events s t (on_error e t).1 a
          (mark_failed-Sends events event.id (message_of e) t))

  after_success :
      (t : Plant)
      → send s ≡ (ok tt, t)
      → Sends events s t
      → Sends events s (publish_event event s).1
  after_success t is a = rw (passed (ap (λ (x : Result (Unit {0}) × Plant). x.0) is), is) a

  publish_event-Sends :
      IsIn events event → s.broker.bound ≡ true → Sends events s (publish_event event s).1
  publish_event-Sends here declared =
      let mark = statement (update_event event.id mark_published) in
      let call = queue (publish "orders" "billing" (message_for event)) in
      elim (publish-cases event s.broker declared) [
        | inl (e, faults, is) ↦
            let t : Plant = record s { broker = record s.broker { faults = faults } } in
            let failed : call s ≡ (err e, t) = rw is refl in
            after_error e t
              (bind-err call (λ u. mark) s (ap (λ (x : Result (Unit {0}) × Plant). x.0) failed)
                ∙ ap (λ (x : Result (Unit {0}) × Plant). (err e, x.1)) failed)
              (Sends-none events s t refl refl (λ h. h) (λ id h. h))
        | inr (faults, losses, lost, is, how) ↦
            let t = queued_at faults losses lost in
            let gone : call s ≡ (ok tt, t) = rw is refl in
            let next : send s ≡ mark t =
              bind-ok call (λ u. mark) s (ap (λ (x : Result (Unit {0}) × Plant). x.0) gone)
              ∙ ap (λ (x : Result (Unit {0}) × Plant). mark x.1) gone in
            elim (statement-cases (update_event event.id mark_published) t) [
              | inl (e, db_faults, fails) ↦ after_error e _ (next ∙ fails) (
                  Sends-trans events s t _ (queued-Sends faults losses lost how here)
                    (Sends-none events t _ refl refl (λ h. h) (λ id h. h)))
              | inr (db_faults, runs) ↦
                  after_success _ (next ∙ runs) (marked-Sends faults losses db_faults lost how here)
            ]
      ]

publish_events-Sends :
    (whole events : List OutboxEvent) (s : Plant)
    → All (IsIn whole) events
    → s.broker.bound ≡ true
    → Sends whole s (publish_events events s).1
unfolding publish_events
publish_events-Sends whole [] s h declared = Sends-none whole s s refl refl (λ h. h) (λ id h. h)
publish_events-Sends whole (event ∷ events) s (here, h) declared =
    let first = publish_event-Sends whole event s here declared in
    elim (Result-cases (publish_event event s).0) [
      | inl (e, fails) ↦
          rw (bind-err (publish_event event) (λ u. publish_events events) s fails) first
      | inr (u, runs) ↦ rw (bind-ok (publish_event event) (λ u. publish_events events) s runs) (
          Sends-trans whole s (publish_event event s).1 _ first
            (publish_events-Sends whole events (publish_event event s).1 h (first.bound declared)))
    ]

ensure_topology-cases :
    (b : Broker)
    → ((e : Error) × (faults : List Bool) × (ensure_topology b
          ≡ (err e, record b { faults = faults })))
      ⊎ ((faults : List Bool) × (ensure_topology b
            ≡ (ok tt, record b { faults = faults; bound = true })))
unfolding ensure_topology get_channel
ensure_topology-cases b = elim (Bool-cases (next b.faults)) [
  | inl fails ↦ inl (other "rabbitmq", rest b.faults, rw (fails, ◌>>=◌) refl)
  | inr runs ↦ inr (rest b.faults, rw (runs, ◌>>=◌) refl)
]

abbrev publish_found : Action Plant (Unit {0})
publish_found = statement (gets pending_events) >>= publish_events

publish_found-Sends :
    (s : Plant) → s.broker.bound ≡ true → Sends (pending_events s.db) s (publish_found s).1
publish_found-Sends s declared =
    let found = statement (gets pending_events) in
    elim (statement-cases (gets pending_events) s) [
      | inl (e, faults, is) ↦
          rw
            (
              bind-err found publish_events s
                  (ap (λ (x : Result (List OutboxEvent) × Plant). x.0) is),
              is,
            )
            (Sends-none (pending_events s.db) s _ refl refl (λ h. h) (λ id h. h))
      | inr (faults, is) ↦
          let t : Plant = record s { db_faults = faults } in
          rw
            (
              bind-ok found publish_events s
                  (ap (λ (x : Result (List OutboxEvent) × Plant). x.0) is),
              is,
            )
            (Sends-trans (pending_events s.db) s t _
              (Sends-none (pending_events s.db) s t refl refl (λ h. h) (λ id h. h))
              (publish_events-Sends (pending_events s.db) (pending_events s.db) t
                (All-IsIn (pending_events s.db)) declared))
    ]

publish_pending_lem :
    (s : Plant) → publish_pending s ≡ (queue ensure_topology >>= λ u. publish_found) s
unfolding publish_pending
publish_pending_lem s = refl

-- Whatever the connection, the database and the delivery of messages fail, a flush of the outbox hands some of
-- the fifty oldest pending events to a channel, and every event that it leaves marked as published was so
-- before, or is one of these. It appends to the billing queue messages of such events, and where no message is
-- lost, exactly those of the events handed over, in their order.
pub publish_pending-Sends : (s : Plant) → Sends (pending_events s.db) s (publish_pending s).1
publish_pending-Sends s =
    let declare = queue ensure_topology in
    elim (ensure_topology-cases s.broker) [
      | inl (e, faults, is) ↦
          let t : Plant = record s { broker = record s.broker { faults = faults } } in
          let fails : declare s ≡ (err e, t) = rw is refl in
          rw
            (publish_pending_lem s
              ∙ bind-err declare (λ u. publish_found) s
                  (ap (λ (x : Result (Unit {0}) × Plant). x.0) fails)
              ∙ ap (λ (x : Result (Unit {0}) × Plant). (err e, x.1)) fails)
            (Sends-none (pending_events s.db) s t refl refl (λ h. h) (λ id h. h))
      | inr (faults, is) ↦
          let t : Plant = record s { broker = record s.broker { faults = faults; bound = true } } in
          let runs : declare s ≡ (ok tt, t) = rw is refl in
          rw
            (publish_pending_lem s
              ∙ bind-ok declare (λ u. publish_found) s
                  (ap (λ (x : Result (Unit {0}) × Plant). x.0) runs)
              ∙ ap (λ (x : Result (Unit {0}) × Plant). publish_found x.1) runs)
            (Sends-trans (pending_events s.db) s t _
              (Sends-none (pending_events s.db) s t refl refl (λ h. refl) (λ id h. h))
              (publish_found-Sends t refl))
    ]
