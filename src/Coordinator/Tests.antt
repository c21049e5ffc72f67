-- ===== src/Coordinator/Tests.antt =====
-- A queue with one call under way, and the retention of one of four snapshots.
use save_knot.Prelude.{List, true, false, [], ◌∷◌, String, ◌≡◌, refl, any, All, pos, none}
use save_knot.Coordinator.{
  waiting, SyncQueue, new_queue, IsReachable, apply_local_retention, starts, continues, adds,
  Settles,
}
use save_knot.Io.{World}
use save_knot.Core.{Snapshot}
use save_knot.Database.Schema.{empty_database, SnapshotRow}
use save_knot.Database.Views.{view}
use save_knot.Coordinator.Excess.{IsExcess}
use save_knot.Coordinator.Retaining.{Retention, apply_local_retention-Retention}
use save_knot.Coordinator.Pruning.{apply_retention}
use save_knot.Coordinator.Pruning.Retired.{Pruned, apply_retention-Pruned}
use save_knot.Coordinator.Draining.{is_attempted, reachable-Settles}

-- One game is in the map, and the wake-up for it is still to come.
abbrev a_queue : SyncQueue
a_queue = record { games = "g" ∷ []; wake = false; callers = 1; worker = waiting; attempted = [] }

a_queue-IsReachable : IsReachable a_queue
unfolding any
a_queue-IsReachable = continues new_queue a_queue starts (adds new_queue "g")

reachable-Settles_example :
    (r : SyncQueue) × Settles a_queue r
    × (r.games ≡ [])
    × All (λ g. is_attempted g r ≡ true) ("g" ∷ [])
reachable-Settles_example = reachable-Settles a_queue a_queue-IsReachable refl

abbrev a_snapshot : String → String → Snapshot
a_snapshot id state = record {
  version = pos 1;
  id = id;
  game_id = "g";
  game_name = "Name";
  device_id = "d";
  created_at = 5000000;
  files = [];
  registry = none;
  metadata = record { display_name = "Name"; notes = ""; image = "" };
  original_size = pos 0;
  stored_size = pos 0;
  remote_state = state;
}

abbrev row : String → String → SnapshotRow
row id state = record {
  id = id;
  game_id = "g";
  device_id = "d";
  created_at = 5;
  file_count = 0;
  original_size = pos 0;
  stored_size = pos 0;
  remote_state = state;
  manifest = a_snapshot id state;
}

abbrev a_world : World
a_world = record {
  db = record empty_database {
    snapshots = row "s1" "local" ∷ row "s2" "synced" ∷ row "s3" "local" ∷ row "s4" "local" ∷ [];
  };
  disk = λ p. none;
  objects = [];
  faults = [];
  ids = [];
}

-- Of four snapshots one is to be kept; one is being uploaded.
apply_local_retention-Retention_example :
    (excess : List Snapshot) × IsExcess (pos 1) "g" a_world.db excess
    × Retention
        ("s4" ∷ [])
        excess
        (view a_world.db)
        (apply_local_retention (pos 1) ("s4" ∷ []) "g" a_world)
apply_local_retention-Retention_example =
    apply_local_retention-Retention (pos 1) ("s4" ∷ []) "g" a_world

apply_retention-Pruned_example :
    (excess : List Snapshot) × IsExcess (pos 1) "g" a_world.db excess
    × Pruned true excess (view a_world.db) (apply_retention true (pos 1) "g" a_world)
apply_retention-Pruned_example = apply_retention-Pruned true (pos 1) "g" a_world
