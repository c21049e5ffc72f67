-- ===== src/Remote/Reconcile/Tests.antt =====
-- A listing with one manifest.
use save_knot.Prelude.{pos, any, false, true, none, some, [], ◌∷◌, ◌≡◌, refl}
use save_knot.Core.{Snapshot}
use save_knot.Io.{ok, World, for_each}
use save_knot.Database.Games.{ensure_game_row}
use save_knot.Database.Snapshots.{
  upsert_row, insert_row, clear_references, insert_references, new_hashes, raise_backup_times,
}
use save_knot.Database.Schema.{empty_database}
use save_knot.Remote.Download.{Reader}
use save_knot.Remote.Reconcile.{Object, reconcile}
use save_knot.Remote.Reconcile.Registered.{HasRounds, empty_result, reconcile-HasRounds}

abbrev a_snapshot : Snapshot
a_snapshot = record {
  version = pos 1;
  id = "s";
  game_id = "g";
  game_name = "Name";
  device_id = "d";
  created_at = 0;
  files = [];
  registry = none;
  metadata = record { display_name = "Name"; notes = ""; image = "" };
  original_size = pos 1;
  stored_size = pos 1;
  remote_state = "synced";
}

abbrev an_object : Object
an_object = record {
  key = record { rooted = false; parts = "games" ∷ "g" ∷ "snapshots" ∷ "s.json" ∷ [] };
  size = 9;
}

abbrev a_reader : Reader
a_reader key = ok (record { declared = 1; body = record { bytes = 7 ∷ []; ends = true } })

abbrev bare_world : World
bare_world = record { db = empty_database; disk = λ p. none; objects = []; faults = []; ids = [] }

reconcile-HasRounds_example :
    HasRounds a_reader
      (λ bytes. some a_snapshot)
      5
      (an_object ∷ [])
      (empty_result a_reader (λ bytes. some a_snapshot) 5 (an_object ∷ []))
      bare_world
      (reconcile a_reader (λ bytes. some a_snapshot) 5 (ok (an_object ∷ [])) bare_world)
reconcile-HasRounds_example =
    reconcile-HasRounds a_reader (λ bytes. some a_snapshot) 5 (an_object ∷ []) bare_world

-- The manifest is imported.
imported_one :
    (reconcile a_reader (λ bytes. some a_snapshot) 5 (ok (an_object ∷ [])) bare_world).0
    ≡ ok (record { objects = 1; snapshots = 1; skipped = 0; games = "g" ∷ [] })
unfolding reconcile any ensure_game_row upsert_row insert_row clear_references insert_references
    for_each new_hashes raise_backup_times
imported_one = refl
