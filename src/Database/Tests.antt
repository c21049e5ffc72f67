-- ===== src/Database/Tests.antt =====
-- Concrete tables, and operations on them.
use save_knot.Prelude.{
  ◌==◌, ◌≤◌, length, take, drop, map, keep, pos, Bool, true, false, none, some, List, [], ◌∷◌, ◌++◌,
  String, ◌≡◌, refl, ◌⊎◌, inl, inr, any, keep, find, All,
}
use save_knot.Core.{Game, GamePath, GameUpdate, BackupPolicy, Snapshot, SnapshotFile}
use save_knot.Database.Schema.{unix_milli, Database, empty_database, BlobRow}
use save_knot.Io.{
  Error, ok, err, World, FileNode, ◌>>=◌, external, statement, query, transaction, committed,
  for_each,
}
use save_knot.Database.Snapshots.{
  snapshots_beyond, of_game, newest_first, insert_by_time, has_reference, new_hashes, row_of,
  insert_row, insert_reference, set_backup_times, insert_references, save_snapshot, find_snapshot,
  import_snapshot, mark_snapshot_remote, snapshot, set_remote,
}
use save_knot.Database.Snapshots.Retention.{snapshots_beyond_lem}
use save_knot.Database.Snapshots.Saving.{save_snapshot_quiet, find-save_snapshot}
use save_knot.Database.Snapshots.Importing.{
  accepts_import, IsImported, import_snapshot_outcome, import_snapshot_quiet, Marked,
  mark_snapshot_remote_lem,
}
use save_knot.Database.Snapshots.Consistency.{AreReferenced}
use save_knot.Database.Blobs.{
  find_blob, delete_snapshot, delete_row, remove_orphans, remove_orphan_blob, remove_claimed,
  remove_file, delete_blob,
}
use save_knot.Database.Blobs.Deletion.{delete_snapshot-find_blob, delete_snapshot_disk}
use save_knot.Database.Views.{
  Operation, saves, marks, deletes, view, perform_all, Runs, perform_all-refines,
}
use save_knot.Database.Backfill.{backfill_snapshot_blobs, snapshot_blob_references}
use save_knot.Database.Backfill.Completeness.{backfill_snapshot_blobs_lem}
use save_knot.Database.Games.{
  find_game, refresh, edited, upsert_game, upsert_game_row, update_game, game, write_edit,
  update_game_policy, write_policy, put_policy, game_policy, is_valid_policy,
}
use save_knot.Database.Games.Editing.{update_game-upsert_game}
use save_knot.Database.Games.Policies.{update_game_policy-game_policy}
use save_knot.Database.Locations.{replace_catalog_paths}
use save_knot.Database.Locations.Catalog.{IsDesired, replace_catalog_paths_lem}

abbrev a_game : Game
a_game = record {
  id = "g";
  catalog_id = "c";
  catalog_name = "name";
  display_name = "Name";
  store = "steam";
  store_id = "1";
  install_path = "/games/g";
  image = "";
  notes = "";
  enabled = true;
  sync_enabled = true;
  hidden = false;
  last_seen = none;
  last_change = none;
  last_backup = none;
}

abbrev a_file : String → SnapshotFile
a_file hash = record {
  source_key = "k";
  path = record { rooted = false; parts = hash ∷ [] };
  root_file = false;
  hash = hash;
  size = pos 1;
  mode = 420;
  modified = 0;
}

abbrev a_snapshot : String → List SnapshotFile → Snapshot
a_snapshot id files = record {
  version = pos 1;
  id = id;
  game_id = "g";
  game_name = "Name";
  device_id = "d";
  created_at = 5000000;
  files = files;
  registry = none;
  metadata = record { display_name = "Name"; notes = ""; image = "" };
  original_size = pos 1;
  stored_size = pos 1;
  remote_state = "local";
}

abbrev first : Snapshot
first = a_snapshot "s1" (a_file "h1" ∷ a_file "h2" ∷ [])

abbrev second : Snapshot
second = a_snapshot "s2" (a_file "h2" ∷ [])

abbrev blob : String → BlobRow
blob hash = record {
  hash = hash;
  local_path = hash;
  original_size = pos 1;
  stored_size = pos 1;
  uploaded_to = "";
}

abbrev a_path : String → String → GamePath
a_path id name = record {
  id = id;
  game_id = "g";
  source = "catalog";
  template = name;
  resolved = record { rooted = true; parts = name ∷ [] };
  enabled = true;
}

-- One game, with the first of the snapshots.
abbrev tables : Database
tables = record empty_database {
  games = a_game ∷ [];
  game_paths = a_path "p1" "saves" ∷ [];
  blobs = blob "h1" ∷ blob "h2" ∷ [];
  snapshots =
      record {
        id = "s1";
        game_id = "g";
        device_id = "d";
        created_at = 5;
        file_count = 2;
        original_size = pos 1;
        stored_size = pos 1;
        remote_state = "local";
        manifest = first;
      }
      ∷ [];
  snapshot_blobs =
      record { snapshot_id = "s1"; hash = "h1" } ∷ record { snapshot_id = "s1"; hash = "h2" } ∷ [];
}

-- As before, with another snapshot that shares a blob with the first.
abbrev two_snapshots : Database
two_snapshots = record tables {
  snapshot_blobs = tables.snapshot_blobs ++ record { snapshot_id = "s2"; hash = "h2" } ∷ [];
}

abbrev node : FileNode
node = record { content = 1 ∷ []; mode = 420; modified = 0 }

abbrev world : Database → List Bool → World
world db faults = record { db = db; disk = λ p. some node; objects = []; faults = faults; ids = [] }

-- The game alone
abbrev bare : Database
bare = record tables { snapshots = []; snapshot_blobs = [] }

bare-AreReferenced : AreReferenced bare
unfolding any find
bare-AreReferenced = record { exact = λ j h. refl }

save_snapshot_quiet_example : (save_snapshot second (world tables [])).0 ≡ ok tt
unfolding any
save_snapshot_quiet_example = save_snapshot_quiet second (world tables []) refl

find-save_snapshot_example :
    find_snapshot "s2" (save_snapshot second (world tables [])).1.db ≡ some second
find-save_snapshot_example =
    find-save_snapshot second (world tables []) "s2" save_snapshot_quiet_example

-- A snapshot is saved, marked and deleted.
abbrev life : List Operation
life = saves first ∷ marks "s1" "synced" ∷ deletes "s1" ∷ []

perform_all-refines_example :
    Runs
      (view bare)
      life
      (perform_all life (world bare [])).0
      (view (perform_all life (world bare [])).1.db)
    × AreReferenced (perform_all life (world bare [])).1.db
perform_all-refines_example = perform_all-refines life (world bare []) bare-AreReferenced

import_snapshot_outcome_example :
    (((import_snapshot second (world tables (false ∷ true ∷ []))).0 ≡ ok tt)
      × (accepts_import second tables ≡ true)
      × IsImported second tables (import_snapshot second (world tables (false ∷ true ∷ []))).1.db)
    ⊎ ((e : Error) × ((import_snapshot second (world tables (false ∷ true ∷ []))).0 ≡ err e)
        × ((import_snapshot second (world tables (false ∷ true ∷ []))).1.db ≡ tables))
import_snapshot_outcome_example = import_snapshot_outcome second (world tables (false ∷ true ∷ []))

import_snapshot_quiet_example : (import_snapshot second (world tables [])).0 ≡ ok tt
unfolding any
import_snapshot_quiet_example = import_snapshot_quiet second (world tables []) refl

mark_snapshot_remote_lem_example :
    Marked "s1" "synced" "s1" tables (mark_snapshot_remote "s1" "synced" (world tables [])).1.db
unfolding mark_snapshot_remote snapshot set_remote query statement external ◌>>=◌ find any
mark_snapshot_remote_lem_example =
    mark_snapshot_remote_lem "s1" "synced" (world tables []) "s1" refl

delete_snapshot-find_blob_example :
    find_blob "h2" (delete_snapshot "s1" (world two_snapshots (false ∷ []))).1.db ≡ some (blob "h2")
unfolding delete_snapshot transaction committed statement query external delete_row remove_orphans
    remove_orphan_blob remove_claimed remove_file delete_blob ◌>>=◌ any keep find
delete_snapshot-find_blob_example =
    delete_snapshot-find_blob "s1" "h2" (world two_snapshots (false ∷ [])) refl

delete_snapshot_disk_example :
    (delete_snapshot "s1" (world two_snapshots [])).1.disk "h2" ≡ some node
unfolding delete_snapshot transaction committed statement query external delete_row remove_orphans
    remove_orphan_blob remove_claimed remove_file delete_blob ◌>>=◌ any keep find
delete_snapshot_disk_example =
    delete_snapshot_disk "s1" "h2" (world two_snapshots []) (inr refl, (inl refl, tt))

abbrev an_update : GameUpdate
an_update = record {
  display_name = some "Mine";
  image = none;
  notes = none;
  enabled = some false;
  sync_enabled = none;
}

abbrev rediscovered : Game
rediscovered = record a_game { install_path = "/other" }

update_game-upsert_game_example :
    find_game "g" (upsert_game rediscovered (update_game "g" an_update (world tables [])).1).1.db
    ≡ some (refresh rediscovered (edited an_update a_game))
unfolding upsert_game upsert_game_row update_game game write_edit query statement external ◌>>=◌
    find any
update_game-upsert_game_example =
    update_game-upsert_game an_update rediscovered a_game (world tables []) refl refl refl

abbrev a_policy : BackupPolicy
a_policy = record { quiet_seconds = pos 5; min_gap_seconds = pos 0; max_dirty_seconds = pos 60 }

update_game_policy-game_policy_example : (is_valid_policy a_policy ≡ true) × (a_policy ≡ a_policy)
unfolding update_game_policy write_policy put_policy game_policy query statement external ◌>>=◌ find
    any
update_game_policy-game_policy_example =
    update_game_policy-game_policy "g" "g" a_policy a_policy (world tables []) refl refl

replace_catalog_paths_lem_example :
    (((replace_catalog_paths "g" (a_path "p2" "new" ∷ []) (world tables [])).0 ≡ ok tt)
      × All
          (IsDesired "g" (a_path "p2" "new" ∷ []))
          (replace_catalog_paths "g" (a_path "p2" "new" ∷ []) (world tables [])).1.db.game_paths)
    ⊎ ((e : Error) × ((replace_catalog_paths "g" (a_path "p2" "new" ∷ []) (world tables [])).0
          ≡ err e)
        × ((replace_catalog_paths "g" (a_path "p2" "new" ∷ []) (world tables [])).1.db ≡ tables))
replace_catalog_paths_lem_example =
    replace_catalog_paths_lem "g" (a_path "p2" "new" ∷ []) (world tables [])

-- The tables before the migration: the snapshot without its references
abbrev unmigrated : Database
unmigrated = record tables { snapshot_blobs = [] }

backfill_snapshot_blobs_lem_example :
    has_reference "s1" "h2" (backfill_snapshot_blobs (world unmigrated [])).1.db ≡ true
unfolding backfill_snapshot_blobs snapshot_blob_references transaction committed statement query
    external for_each insert_reference ◌>>=◌ any
backfill_snapshot_blobs_lem_example =
    backfill_snapshot_blobs_lem "s1" "h2" (world unmigrated []) refl

-- The two snapshots, the second one a millisecond newer
abbrev saved_twice : World
saved_twice = (save_snapshot (record second { created_at = 6000000 }) (world tables [])).1

snapshots_beyond_lem_example :
    (first ∷ [] ≡ map (λ r. r.manifest) (drop 1 (of_game "g" saved_twice.db)))
    × (length (of_game "g" saved_twice.db)
        ≡ length (keep (λ r. r.game_id == "g") saved_twice.db.snapshots))
    × All
        (λ r. All (λ s. s.created_at ≤ r.created_at) (drop 1 (of_game "g" saved_twice.db)))
        (take 1 (of_game "g" saved_twice.db))
unfolding save_snapshot transaction committed statement query external insert_row insert_references
    for_each insert_reference set_backup_times new_hashes row_of ◌>>=◌ any keep snapshots_beyond
    newest_first insert_by_time unix_milli
snapshots_beyond_lem_example = snapshots_beyond_lem "g" 1 saved_twice (first ∷ []) refl
