-- ===== src/Database/Snapshots.antt =====
-- Snapshots in internal/database/store.go: SaveSnapshot, ImportSnapshot, MarkSnapshotRemote, the
-- queries, and the references from snapshots to blobs. A function that ends in `_tx` is what an
-- operation does to the tables.
pub mod Saving
pub mod Importing
pub mod Consistency
pub mod Retention
use save_knot.Prelude.{
  ℕ, ltb, leb, Bool, true, false, not, ◌&&◌, ◌||◌, Option, none, some, List, [], ◌∷◌, ◌++◌, map,
  String, ◌==◌, any, keep, find, length, drop, if◌then◌else◌,
}
use save_knot.Core.{Game, Snapshot, SnapshotFile, SnapshotRegistry}
use save_knot.Database.Schema.{Database, SnapshotRow, BlobReference, unix_milli}
use save_knot.Io.{
  Result, ok, err, no_rows, constraint, Exec, pure, fail, ◌>>=◌, ◌>>◌, statement, query,
  transaction, for_each,
}
use save_knot.Io.Refines.{Tx, return_tx, bind_tx, for_each_tx}

abbrev pub has_game : String → Database → Bool
has_game id db = any (λ g. g.id == id) db.games

abbrev pub has_row : String → Database → Bool
has_row id db = any (λ r. r.id == id) db.snapshots

abbrev pub has_reference : String → String → Database → Bool
has_reference id hash db = any (λ r. r.snapshot_id == id && r.hash == hash) db.snapshot_blobs

abbrev pub registry_hashes : Option SnapshotRegistry → List String
registry_hashes none = []
registry_hashes (some r) = r.hash ∷ []

-- The hashes that `insertSnapshotBlobRefs` visits, in its order.
abbrev pub hashes : Snapshot → List String
hashes s = map (λ f. f.hash) s.files ++ registry_hashes s.registry

-- Those that it inserts: not empty, and not seen before.
unfoldable pub new_hashes : List String → List String → List String
new_hashes seen [] = []
new_hashes seen (hash ∷ rest) =
    let fresh = new_hashes (hash ∷ seen) rest in
    let skip = new_hashes seen rest in
    if hash == "" || any (λ s. s == hash) seen then skip else hash ∷ fresh

unfoldable pub row_of : Snapshot → SnapshotRow
row_of s = record {
  id = s.id;
  game_id = s.game_id;
  device_id = s.device_id;
  created_at = unix_milli s.created_at;
  file_count = length s.files;
  original_size = s.original_size;
  stored_size = s.stored_size;
  remote_state = s.remote_state;
  manifest = s;
}

-- INSERT INTO snapshots: the id is the primary key, and the game must exist.
unfoldable pub insert_row : Snapshot → Tx (Unit {0})
insert_row s db =
    if has_row s.id db || not (has_game s.game_id db)
    then err constraint
    else ok (tt, record db { snapshots = db.snapshots ++ row_of s ∷ [] })

-- INSERT OR IGNORE INTO snapshot_blobs: the snapshot must exist.
unfoldable pub insert_reference : String → String → Tx (Unit {0})
insert_reference id hash db =
    if has_reference id hash db
    then ok (tt, db)
    else if has_row id db
    then ok (
      tt,
      record db {
        snapshot_blobs = db.snapshot_blobs ++ record { snapshot_id = id; hash = hash } ∷ [];
      },
    )
    else err constraint

-- UPDATE games SET last_backup = ?, last_change = ? WHERE id = ?
unfoldable pub set_backup_times : String → ℕ → Tx (Unit {0})
set_backup_times id time db = ok (
  tt,
  record db {
    games =
        map
          (λ g.
            if g.id == id then record g { last_backup = some time; last_change = some time } else g)
          db.games;
  },
)

-- CASE WHEN column IS NULL OR column < ? THEN ? ELSE column END
abbrev pub later_time : ℕ → Option ℕ → Option ℕ
later_time time none = some time
later_time time (some old) = if ltb old time then some time else some old

unfoldable pub raise_backup_times : String → ℕ → Tx (Unit {0})
raise_backup_times id time db = ok (
  tt,
  record db {
    games =
        map
          (λ g.
            if g.id == id
            then record g {
              last_backup = later_time time g.last_backup;
              last_change = later_time time g.last_change;
            }
            else g)
          db.games;
  },
)

unfoldable pub insert_references : Snapshot → Exec (Unit {0})
insert_references s =
    for_each (new_hashes [] (hashes s)) (λ hash. statement (insert_reference s.id hash))

unfoldable pub save_snapshot : Snapshot → Exec (Unit {0})
unfolding transaction statement ◌>>=◌
save_snapshot s = transaction (
    statement (insert_row s)
    >> (insert_references s >> statement (set_backup_times s.game_id (unix_milli s.created_at))))

abbrev pub insert_references_tx : Snapshot → Tx (Unit {0})
insert_references_tx s = for_each_tx (new_hashes [] (hashes s)) (λ hash. insert_reference s.id hash)

abbrev pub save_snapshot_tx : Snapshot → Tx (Unit {0})
save_snapshot_tx s =
    bind_tx (insert_row s) λ _.
      bind_tx (insert_references_tx s) λ _. set_backup_times s.game_id (unix_milli s.created_at)

-- SET remote_state = ?, manifest = ? on the row of one ID
abbrev pub rewrite_row : String → String → Snapshot → SnapshotRow → SnapshotRow
rewrite_row id state manifest r =
    if r.id == id then record r { remote_state = state; manifest = manifest } else r

-- INSERT … ON CONFLICT(id) DO UPDATE SET remote_state = 'synced', manifest = excluded.manifest
unfoldable pub upsert_row : Snapshot → Tx (Unit {0})
upsert_row s db =
    if has_row s.id db
    then ok (tt, record db { snapshots = map (rewrite_row s.id "synced" s) db.snapshots })
    else insert_row s db

-- DELETE FROM snapshot_blobs WHERE snapshot_id = ?
unfoldable pub clear_references : String → Tx (Unit {0})
clear_references id db =
    ok (tt, record db { snapshot_blobs = keep (λ r. not (r.snapshot_id == id)) db.snapshot_blobs })

abbrev pub synced : Snapshot → Snapshot
synced s = record s { remote_state = "synced" }

unfoldable pub import_snapshot : Snapshot → Exec (Unit {0})
unfolding transaction statement ◌>>=◌
import_snapshot s = transaction (
    statement (upsert_row (synced s))
    >> (statement (clear_references s.id)
        >> (insert_references (synced s)
            >> statement (raise_backup_times s.game_id (unix_milli s.created_at)))))

abbrev pub import_snapshot_tx : Snapshot → Tx (Unit {0})
import_snapshot_tx s = bind_tx (upsert_row (synced s)) λ _. bind_tx (clear_references s.id) λ _.
    bind_tx (insert_references_tx (synced s))
      λ _. raise_backup_times s.game_id (unix_milli s.created_at)

abbrev pub manifest_of : Option SnapshotRow → Option Snapshot
manifest_of none = none
manifest_of (some r) = some r.manifest

abbrev pub find_snapshot : String → Database → Option Snapshot
find_snapshot id db = manifest_of (find (λ r. r.id == id) db.snapshots)

-- No row is `sql.ErrNoRows`.
abbrev pub or_no_rows {ℓ} : {A : Type ℓ} → Option A → Exec A
or_no_rows none = fail no_rows
or_no_rows (some a) = pure a

unfoldable pub snapshot : String → Exec Snapshot
unfolding query ◌>>=◌
snapshot id = do found ← query (find_snapshot id); or_no_rows found

unfoldable pub has_snapshot : String → Exec Bool
unfolding query
has_snapshot id = query (has_row id)

-- UPDATE snapshots SET remote_state = ?, manifest = ? WHERE id = ?
unfoldable pub set_remote : String → String → Snapshot → Tx (Unit {0})
set_remote id state manifest db =
    ok (tt, record db { snapshots = map (rewrite_row id state manifest) db.snapshots })

unfoldable pub mark_snapshot_remote : String → String → Exec (Unit {0})
unfolding snapshot statement ◌>>=◌
mark_snapshot_remote id state = do
  s ← snapshot id
  statement (set_remote id state (record s { remote_state = state }))

-- ORDER BY created_at DESC: rows of one time stay in the order of the table.
unfoldable pub insert_by_time : SnapshotRow → List SnapshotRow → List SnapshotRow
insert_by_time r [] = r ∷ []
insert_by_time r (s ∷ rest) =
    let further = insert_by_time r rest in
    if ltb r.created_at s.created_at then s ∷ further else r ∷ s ∷ rest

unfoldable pub newest_first : List SnapshotRow → List SnapshotRow
newest_first [] = []
newest_first (r ∷ rest) = insert_by_time r (newest_first rest)

abbrev pub of_game : String → Database → List SnapshotRow
of_game game_id db = newest_first (keep (λ r. r.game_id == game_id) db.snapshots)

unfoldable pub list_snapshots : String → Exec (List Snapshot)
unfolding query
list_snapshots game_id = query (λ db. map (λ r. r.manifest) (of_game game_id db))

-- LIMIT -1 OFFSET keep
unfoldable pub snapshots_beyond : String → ℕ → Exec (List Snapshot)
unfolding query
snapshots_beyond game_id kept = query (λ db. map (λ r. r.manifest) (drop kept (of_game game_id db)))

abbrev pub first_row : List SnapshotRow → Option Snapshot
first_row [] = none
first_row (r ∷ _) = some r.manifest

-- LIMIT 1
unfoldable pub latest_snapshot : String → Exec Snapshot
unfolding query ◌>>=◌
latest_snapshot game_id = do found ← query (λ db. first_row (of_game game_id db)); or_no_rows found
