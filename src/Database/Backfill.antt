-- ===== src/Database/Backfill.antt =====
-- The migration of blob references and the snapshots to upload, in internal/database/store.go.
pub mod Completeness
use save_knot.Prelude.{
  ℕ, ltb, Bool, true, false, not, ◌&&◌, ◌||◌, List, [], ◌∷◌, ◌++◌, map, String, ◌==◌, any, keep,
  if◌then◌else◌,
}
use save_knot.Core.{Game, Snapshot}
use save_knot.Database.Schema.{Database, SnapshotRow, BlobReference}
use save_knot.Database.Snapshots.{hashes, insert_reference, newest_first}
use save_knot.Io.{Exec, ◌>>=◌, statement, query, transaction, for_each}

-- The references of one row, for each hash of its manifest that is not empty.
abbrev pub references_of : String → List String → List BlobReference
references_of id [] = []
references_of id (hash ∷ rest) =
    if hash == ""
    then references_of id rest
    else record { snapshot_id = id; hash = hash } ∷ references_of id rest

unfoldable pub snapshot_blob_references : List SnapshotRow → List BlobReference
snapshot_blob_references [] = []
snapshot_blob_references (r ∷ rest) =
    references_of r.id (hashes r.manifest) ++ snapshot_blob_references rest

unfoldable pub backfill_snapshot_blobs : Exec (Unit {0})
unfolding query transaction statement for_each snapshot_blob_references insert_reference ◌>>=◌
backfill_snapshot_blobs = query (λ db. snapshot_blob_references db.snapshots) >>= λ refs.
    transaction (for_each refs (λ r. statement (insert_reference r.snapshot_id r.hash)))

-- Some game of the table with the snapshot's game ID passes the test.
abbrev pub in_game : (Game → Bool) → Database → SnapshotRow → Bool
in_game test db r = any (λ g. g.id == r.game_id && test g) db.games

unfoldable pub insert_oldest : SnapshotRow → List SnapshotRow → List SnapshotRow
insert_oldest r [] = r ∷ []
insert_oldest r (s ∷ rest) =
    let further = insert_oldest r rest in
    if ltb s.created_at r.created_at then s ∷ further else r ∷ s ∷ rest

-- ORDER BY created_at
unfoldable pub oldest_first : List SnapshotRow → List SnapshotRow
unfolding insert_oldest
oldest_first [] = []
oldest_first (r ∷ rest) = insert_oldest r (oldest_first rest)

-- scanPendingSnapshots of the rows that are not synced and pass the test
abbrev pub pending_rows : (Database → SnapshotRow → Bool) → Exec (List Snapshot)
unfolding query oldest_first
pending_rows test = query (λ db.
    map (λ r. r.manifest)
      (oldest_first (keep (λ r. not (r.remote_state == "synced") && test db r) db.snapshots)))

unfoldable pub pending_snapshots : Exec (List Snapshot)
unfolding query oldest_first
pending_snapshots = pending_rows (in_game (λ g. g.sync_enabled && not g.hidden))

unfoldable pub pending_snapshots_for_game : String → Exec (List Snapshot)
unfolding query oldest_first
pending_snapshots_for_game id = pending_rows (λ db r. r.game_id == id && in_game (λ g. true) db r)

unfoldable pub pending_snapshots_for_watched_games : Exec (List Snapshot)
unfolding query oldest_first
pending_snapshots_for_watched_games =
    pending_rows (in_game (λ g. g.enabled && (g.sync_enabled && not g.hidden)))
