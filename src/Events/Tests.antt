-- ===== src/Events/Tests.antt =====
-- Concrete events.
use save_knot.Prelude.{true, false, List, [], ◌∷◌, String, ◌≡◌, refl, any}
use save_knot.Events.{
  Event, Activity, Operation, publishes, subscribes, takes, run, new_persistent, is_transient,
  transient_types, prune_events, load_event_page,
}
use save_knot.Events.Bounds.{IsSound, run-IsSound}
use save_knot.Events.Pages.{load_event_page-prune_events}

abbrev an_event : String → Event
an_event name = record {
  type_name = name;
  game_id = "g";
  message = "";
  timestamp = 9000000000000000;
}

abbrev an_activity : Activity
an_activity = record {
  rows =
      record { id = 1; timestamp = 1000; payload = an_event "snapshot.created" }
      ∷ record { id = 2; timestamp = 9000000000; payload = an_event "restore.completed" }
      ∷ [];
  last_id = 2;
}

abbrev operations : List Operation
operations =
    subscribes 1 1
    ∷ publishes 9000000000000000 false (an_event "sync.started")
    ∷ publishes 9000000000000000 true (an_event "sync.completed")
    ∷ takes 1
    ∷ []

run-IsSound_example : IsSound (run operations (new_persistent 9000000000000000 an_activity))
run-IsSound_example = run-IsSound 9000000000000000 an_activity operations

load_event_page-prune_events_example :
    load_event_page 9000000000000000 9000000000000000 0 10
      (prune_events 9000000000000000 transient_types an_activity)
    ≡ load_event_page 9000000000000000 9000000000000000 0 10 an_activity
unfolding is_transient any
load_event_page-prune_events_example =
    load_event_page-prune_events 9000000000000000 9000000000000000 0 10 an_activity
      (refl, (refl, tt))
