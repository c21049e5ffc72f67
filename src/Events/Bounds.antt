-- ===== src/Events/Bounds.antt =====
-- What every operation of the bus keeps.
use save_knot.Prelude.{
  ℕ, ◌≤◌, ltb, Bool, false, not, ◌||◌, Option, none, some, List, [], ◌∷◌, map, keep, length, ◌=?◌,
  ◌≡◌, arith, All, All-append, All-keep, Bool-cases, inl, inr, length-append, if◌then◌else◌,
}
use save_knot.Events.{
  Event, EventRow, Activity, cutoff, tail, take_event, step, run, Operation, publishes, subscribes,
  unsubscribes, takes, prunes, Subscriber, Bus, transient_types, is_transient, save_event,
  prune_events, send, persist, publish, subscribe, unsubscribe, prune_store, prune_bus, stamped_at,
  new_persistent,
}

abbrev pub IsBounded : Subscriber → Type 0
IsBounded s = length s.queue ≤ s.size

abbrev pub IsDurable : EventRow → Type 0
IsDurable r = is_transient transient_types r.payload ≡ false

abbrev pub StoresDurable : Option Activity → Type 0
StoresDurable none = Unit {0}
StoresDurable (some a) = All IsDurable a.rows

-- No channel is over its size, and no transient event is stored.
pub record IsSound (bus : Bus) : Type 0 where
  pub channels : All IsBounded bus.subscribers
  pub durable : StoresDurable bus.store

All-map {ℓ κ} :
    {A : Type ℓ} (P : A → Type κ) (f : A → A) (xs : List A)
    → ((a : A) → P a → P (f a))
    → All P xs
    → All P (map f xs)
All-map P f [] k h = tt
All-map P f (x ∷ xs) k h = (k x h.0, All-map P f xs k h.1)

send-IsBounded : (event : Event) (s : Subscriber) → IsBounded s → IsBounded (send event s)
send-IsBounded event s h = ground (arith, h, length-append s.queue (event ∷ []))

taken-IsBounded :
    (name : ℕ) (s : Subscriber)
    → IsBounded s
    → IsBounded (if s.name =? name then record s { queue = tail s.queue } else s)
taken-IsBounded name s h = ground (arith, h, length-tail s.queue)
  where
    length-tail : (q : List Event) → length (tail q) ≤ length q
    length-tail [] = omega arith
    length-tail (e ∷ q) = omega arith

prune_store-StoresDurable :
    (now : ℕ) (store : Option Activity)
    → StoresDurable store
    → StoresDurable (prune_store now store)
unfolding prune_events
prune_store-StoresDurable now none h = tt
prune_store-StoresDurable now (some a) h = All-keep IsDurable _ a.rows h

persist-StoresDurable :
    (refused : Bool) (event : Event) (store : Option Activity)
    → StoresDurable store
    → StoresDurable (persist refused event store)
unfolding persist save_event
persist-StoresDurable refused event none h = tt
persist-StoresDurable refused event (some a) h =
    elim (Bool-cases (is_transient transient_types event || refused)) [
      | inl e ↦ rw e h
      | inr e ↦ rw e (All-append IsDurable a.rows _ h (ground (arith, e), tt))
    ]

step-IsSound : (op : Operation) (bus : Bus) → IsSound bus → IsSound (step op bus)
unfolding step publish subscribe unsubscribe take_event prune_bus
step-IsSound (publishes now refused event) bus h = record {
  channels =
      All-map IsBounded (send (stamped_at now event)) bus.subscribers
        (send-IsBounded (stamped_at now event)) h.channels;
  durable = persist-StoresDurable refused (stamped_at now event) bus.store h.durable;
}
step-IsSound (subscribes name size) bus h = record {
  channels = All-append IsBounded bus.subscribers _ h.channels (omega arith, tt);
  durable = h.durable;
}
step-IsSound (unsubscribes name) bus h = record {
  channels = All-keep IsBounded _ bus.subscribers h.channels;
  durable = h.durable;
}
step-IsSound (takes name) bus h = record {
  channels = All-map IsBounded _ bus.subscribers (taken-IsBounded name) h.channels;
  durable = h.durable;
}
step-IsSound (prunes now) bus h = record {
  channels = h.channels;
  durable = prune_store-StoresDurable now bus.store h.durable;
}

kept-IsDurable :
    (now : ℕ) (rows : List EventRow)
    → All IsDurable (
        keep
          (λ r. not (ltb r.timestamp (cutoff now) || is_transient transient_types r.payload))
          rows)
unfolding keep
kept-IsDurable now [] = tt
kept-IsDurable now (r ∷ rows) =
    elim (Bool-cases (ltb r.timestamp (cutoff now) || is_transient transient_types r.payload)) [
      | inl e ↦ simp e (kept-IsDurable now rows)
      | inr e ↦ simp e (ground (arith, e), kept-IsDurable now rows)
    ]

new_persistent-IsSound : (now : ℕ) (a : Activity) → IsSound (new_persistent now a)
unfolding new_persistent prune_events
new_persistent-IsSound now a = record { channels = tt; durable = kept-IsDurable now a.rows }

run_all-IsSound : (ops : List Operation) (bus : Bus) → IsSound bus → IsSound (run ops bus)
unfolding run
run_all-IsSound [] bus h = h
run_all-IsSound (op ∷ ops) bus h = run_all-IsSound ops (step op bus) (step-IsSound op bus h)

-- After NewPersistent and any operations, whatever events the store refuses, no channel holds more
-- events than its size, and the store holds no event of a transient type.
pub run-IsSound :
    (now : ℕ) (a : Activity) (ops : List Operation) → IsSound (run ops (new_persistent now a))
run-IsSound now a ops = run_all-IsSound ops (new_persistent now a) (new_persistent-IsSound now a)
