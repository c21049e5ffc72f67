-- ===== src/Events.antt =====
-- internal/events/bus.go and internal/database/activity.go: the event bus and its durable store. A
-- subscriber's channel is the list of the events in it; the store is the table activity_events.
pub mod Bounds
pub mod Pages
mod Tests
use save_knot.Prelude.{
  ℕ, suc, ◌-◌, ◌*◌, ltb, leb, ◌=?◌, Bool, true, false, not, ◌&&◌, ◌||◌, Option, none, some, List,
  [], ◌∷◌, ◌++◌, map, String, ◌==◌, any, keep, length, take, drop, if◌then◌else◌,
}
use save_knot.Database.Schema.{unix_milli}

-- core.Event without its Data; a zero timestamp is 0.
pub record Event : Type 0 where
  pub type_name : String
  pub game_id : String
  pub message : String
  pub timestamp : ℕ

pub record EventRow : Type 0 where
  pub id : ℕ
  pub timestamp : ℕ
  pub payload : Event

-- The table, with the largest id that AUTOINCREMENT ever gave.
pub record Activity : Type 0 where
  pub rows : List EventRow
  pub last_id : ℕ

pub record Subscriber : Type 0 where
  pub name : ℕ
  pub size : ℕ
  pub queue : List Event

pub record Bus : Type 0 where
  pub subscribers : List Subscriber
  pub store : Option Activity

abbrev pub transient_types : List String
transient_types =
    "catalog.updated" ∷ "restore.started" ∷ "snapshot.skipped" ∷ "snapshot.started"
    ∷ "storage.reconcile.started" ∷ "sync.progress" ∷ "sync.started" ∷ []

unfoldable pub is_transient : List String → Event → Bool
is_transient types event = any (λ t. t == event.type_name) types

-- 30 * 24 * time.Hour
abbrev pub activity_retention : ℕ
activity_retention = 30 * 24 * 3600000000000

-- now.Add(-ActivityRetention).UnixMilli(), where the zero time is more than 30 days ago
abbrev pub cutoff : ℕ → ℕ
cutoff now = unix_milli (now - activity_retention)

unfoldable pub save_event : Event → Activity → Activity
unfolding unix_milli
save_event event a = record {
  rows =
      a.rows
      ++ record { id = suc a.last_id; timestamp = unix_milli event.timestamp; payload = event }
        ∷ [];
  last_id = suc a.last_id;
}

-- Without types the source deletes by the time only.
unfoldable pub prune_events : ℕ → List String → Activity → Activity
unfolding unix_milli is_transient
prune_events now types a = record a {
  rows = keep (λ r. not (ltb r.timestamp (cutoff now) || is_transient types r.payload)) a.rows;
}

abbrev pub is_later : EventRow → EventRow → Bool
is_later r s = ltb s.timestamp r.timestamp || (s.timestamp =? r.timestamp && ltb s.id r.id)

unfoldable pub insert_row : EventRow → List EventRow → List EventRow
insert_row r [] = r ∷ []
insert_row r (s ∷ rest) =
    let further = insert_row r rest in if is_later s r then s ∷ further else r ∷ s ∷ rest

-- ORDER BY timestamp DESC, id DESC
unfoldable pub sorted : List EventRow → List EventRow
unfolding insert_row
sorted [] = []
sorted (r ∷ rest) = insert_row r (sorted rest)

abbrev pub is_visible : ℕ → ℕ → EventRow → Bool
is_visible now until r = leb (cutoff now) r.timestamp && leb r.timestamp (unix_milli until)

-- The events of a page, and the number of all events up to the time
unfoldable pub load_event_page : ℕ → ℕ → ℕ → ℕ → Activity → List Event × ℕ
unfolding sorted unix_milli
load_event_page now until offset limit a =
    let visible = keep (is_visible now until) a.rows in
    (map (λ r. r.payload) (take limit (drop offset (sorted visible))), length visible)

-- The non-blocking send
abbrev pub send : Event → Subscriber → Subscriber
send event s = if ltb (length s.queue) s.size then record s { queue = s.queue ++ event ∷ [] } else s

-- `refused` says whether the store refuses the event, which is logged only.
unfoldable pub persist : Bool → Event → Option Activity → Option Activity
unfolding is_transient save_event
persist refused event none = none
persist refused event (some a) =
    if is_transient transient_types event || refused then some a else some (save_event event a)

abbrev pub stamped_at : ℕ → Event → Event
stamped_at now event = if event.timestamp =? 0 then record event { timestamp = now } else event

unfoldable pub publish : ℕ → Bool → Event → Bus → Bus
unfolding persist
publish now refused event bus =
    let stamped = stamped_at now event in
    record {
      subscribers = map (send stamped) bus.subscribers;
      store = persist refused stamped bus.store;
    }

-- Subscribe, of a channel that is new
unfoldable pub subscribe : ℕ → ℕ → Bus → Bus
subscribe name size bus = record bus {
  subscribers = bus.subscribers ++ record { name = name; size = size; queue = [] } ∷ [];
}

-- The function that Subscribe returns
unfoldable pub unsubscribe : ℕ → Bus → Bus
unsubscribe name bus = record bus { subscribers = keep (λ s. not (s.name =? name)) bus.subscribers }

abbrev pub prune_store : ℕ → Option Activity → Option Activity
prune_store now none = none
prune_store now (some a) = some (prune_events now transient_types a)

abbrev pub tail : List Event → List Event
tail [] = []
tail (_ ∷ rest) = rest

-- The subscriber receives the oldest event of its channel.
unfoldable pub take_event : ℕ → Bus → Bus
take_event name bus = record bus {
  subscribers =
      map (λ s. if s.name =? name then record s { queue = tail s.queue } else s) bus.subscribers;
}

unfoldable pub prune_bus : ℕ → Bus → Bus
unfolding prune_events
prune_bus now bus = record bus { store = prune_store now bus.store }

unfoldable pub new_persistent : ℕ → Activity → Bus
unfolding prune_events
new_persistent now a = record {
  subscribers = [];
  store = some (prune_events now transient_types a);
}

-- What happens to a bus.
pub data Operation : Type 0 where
  publishes : ℕ → Bool → Event → Operation
  subscribes : ℕ → ℕ → Operation
  unsubscribes : ℕ → Operation
  takes : ℕ → Operation
  prunes : ℕ → Operation

unfoldable pub step : Operation → Bus → Bus
unfolding publish subscribe unsubscribe take_event prune_bus
step (publishes now refused event) bus = publish now refused event bus
step (subscribes name size) bus = subscribe name size bus
step (unsubscribes name) bus = unsubscribe name bus
step (takes name) bus = take_event name bus
step (prunes now) bus = prune_bus now bus

unfoldable pub run : List Operation → Bus → Bus
unfolding step
run [] bus = bus
run (op ∷ ops) bus = run ops (step op bus)
