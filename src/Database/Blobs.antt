-- ===== src/Database/Blobs.antt =====
-- Blobs in internal/database/store.go: the index of the stored contents, and DeleteSnapshot, which
-- removes the contents that no snapshot needs any more.
pub mod Deletion
pub mod Objects
use save_knot.Prelude.{
  ℕ, ℤ, Bool, true, false, not, ◌&&◌, ◌||◌, Option, none, some, List, [], ◌∷◌, ◌++◌, map, String,
  ◌==◌, any, keep, find, if◌then◌else◌,
}
use save_knot.Database.Schema.{Database, BlobRow, BlobReference}
use save_knot.Database.Snapshots.{has_row, or_no_rows}
use save_knot.Io.{
  Error, Result, ok, err, no_rows, World, Disk, FileNode, Exec, pure, fail, ◌>>=◌, ◌>>◌, external,
  statement, query, committed, transaction,
}
use save_knot.Io.Files.{without_file, join_results}
use save_knot.Io.Refines.{Tx}

abbrev pub find_blob : String → Database → Option BlobRow
find_blob hash db = find (λ b. b.hash == hash) db.blobs

-- INSERT INTO blobs … ON CONFLICT(hash) DO UPDATE: `uploaded_to` of a known blob stays.
unfoldable pub upsert_blob : String → String → ℤ → ℤ → List BlobRow → List BlobRow
upsert_blob hash path original stored [] =
    record {
      hash = hash;
      local_path = path;
      original_size = original;
      stored_size = stored;
      uploaded_to = "";
    }
    ∷ []
upsert_blob hash path original stored (b ∷ rest) =
    let further = upsert_blob hash path original stored rest in
    if b.hash == hash
    then record b { local_path = path; original_size = original; stored_size = stored } ∷ rest
    else b ∷ further

unfoldable pub save_blob : String → String → ℤ → ℤ → Exec (Unit {0})
unfolding statement
save_blob hash path original stored =
    statement (λ db. ok (tt, record db { blobs = upsert_blob hash path original stored db.blobs }))

abbrev pub path_of : Option BlobRow → Option String
path_of none = none
path_of (some b) = some b.local_path

unfoldable pub blob_path : String → Exec String
unfolding query ◌>>=◌
blob_path hash = do found ← query (λ db. path_of (find_blob hash db)); or_no_rows found

unfoldable pub blob_uploaded : String → String → Exec Bool
unfolding query ◌>>=◌
blob_uploaded hash target = do
  found ← query (find_blob hash)
  b ← or_no_rows found
  pure (b.uploaded_to == target)

unfoldable pub mark_blob_uploaded : String → String → Exec (Unit {0})
unfolding statement
mark_blob_uploaded hash target = statement (λ db. ok (
  tt,
  record db {
    blobs = map (λ b. if b.hash == hash then record b { uploaded_to = target } else b) db.blobs;
  },
))

unfoldable pub invalidate_blob_uploads : String → Exec (Unit {0})
unfolding statement
invalidate_blob_uploads target = statement (λ db. ok (
  tt,
  record db {
    blobs =
        map (λ b. if b.uploaded_to == target then record b { uploaded_to = "" } else b) db.blobs;
  },
))

abbrev pub is_referenced : String → Database → Bool
is_referenced hash db = any (λ r. r.hash == hash) db.snapshot_blobs

-- DELETE FROM snapshots WHERE id = ?, with the cascade to snapshot_blobs; no row is an error.
unfoldable pub delete_row : String → Tx (Unit {0})
delete_row id db =
    if has_row id db
    then ok (
      tt,
      record db {
        snapshots = keep (λ r. not (r.id == id)) db.snapshots;
        snapshot_blobs = keep (λ r. not (r.snapshot_id == id)) db.snapshot_blobs;
      },
    )
    else err no_rows

-- SELECT … FROM blobs b WHERE NOT EXISTS (SELECT 1 FROM snapshot_blobs r WHERE r.hash = b.hash)
abbrev pub orphans : Database → List BlobRow
orphans db = keep (λ b. not (is_referenced b.hash db)) db.blobs

-- os.Remove, where a missing file is no error
unfoldable pub remove_file : String → Exec (Unit {0})
unfolding external
remove_file path =
    if path == ""
    then pure tt
    else external (λ w. (ok tt, record w { disk = without_file w.disk path }))

-- DELETE FROM blobs WHERE hash = ? AND NOT EXISTS (…)
unfoldable pub delete_blob : String → Tx (Unit {0})
delete_blob hash db = ok (
  tt,
  record db { blobs = keep (λ b. not (b.hash == hash && not (is_referenced hash db))) db.blobs },
)

-- The number of rows that the claiming UPDATE touches is positive.
abbrev pub is_claimable : String → Database → Bool
is_claimable hash db = any (λ b. b.hash == hash) db.blobs && not (is_referenced hash db)

unfoldable pub remove_claimed : String → String → Bool → Exec (Unit {0})
unfolding committed remove_file statement ◌>>=◌
remove_claimed hash path false = pure tt
remove_claimed hash path true = committed (remove_file path >> statement (delete_blob hash))

-- The claim holds SQLite's write lock, so no other writer comes in between. The early return of an
-- unclaimed blob rolls back a transaction that wrote nothing.
unfoldable pub remove_orphan_blob : String → String → Exec (Unit {0})
unfolding external query ◌>>=◌
remove_orphan_blob hash path =
    external (pure tt) >> (query (is_claimable hash) >>= remove_claimed hash path)

-- The loop goes on after an error.
unfoldable pub remove_orphans : List BlobRow → Exec (Unit {0})
remove_orphans [] w = (ok tt, w)
remove_orphans (b ∷ rest) w =
    let (r, w₁) = remove_orphan_blob b.hash b.local_path w in
    let (s, w₂) = remove_orphans rest w₁ in (join_results r s, w₂)

unfoldable pub delete_snapshot : String → Exec (Unit {0})
unfolding transaction statement query remove_orphans ◌>>=◌
delete_snapshot id = transaction (statement (delete_row id) >> query orphans) >>= remove_orphans
