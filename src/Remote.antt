-- ===== src/Remote.antt =====
-- internal/remote/sync.go: Upload. A key of an object is a path, cleaned as by path.Join.
pub mod Uploading
pub mod Ensuring
pub mod Publishing
pub mod Download
pub mod Reconcile
mod Tests
use save_knot.Prelude.{
  ℕ, Bool, true, false, ◌||◌, ◌=?◌, Option, none, some, List, [], ◌∷◌, map, String, ◌==◌, any, find,
  length, if◌then◌else◌, runes, concat,
}
use save_knot.Core.{Snapshot, PortableGameMetadata}
use save_knot.Paths.{FilePath, clean, path_eq}
use save_knot.Io.{
  Result, ok, err, message, World, RemoteObject, Exec, pure, fail, ◌>>=◌, ◌>>◌, external, for_each,
  open_file, some_call,
}
use save_knot.Database.Snapshots.{hashes, synced, mark_snapshot_remote}
use save_knot.Database.Blobs.{blob_path, blob_uploaded, mark_blob_uploaded}

-- path.Join of the parts of a relative path
unfoldable pub object_key : List String → FilePath
unfolding clean
object_key parts = clean (record { rooted = false; parts = parts })

abbrev pub body_of : Option RemoteObject → Option (List ℕ)
body_of none = none
body_of (some o) = some o.body

abbrev pub object_at : FilePath → List RemoteObject → Option (List ℕ)
object_at key objects = body_of (find (λ o. path_eq o.key key) objects)

abbrev pub has_object : FilePath → List RemoteObject → Bool
has_object key objects = any (λ o. path_eq o.key key) objects

unfoldable pub store_object : FilePath → List ℕ → List RemoteObject → List RemoteObject
store_object key body [] = record { key = key; body = body } ∷ []
store_object key body (o ∷ rest) =
    let later = store_object key body rest in
    if path_eq o.key key then record { key = key; body = body } ∷ rest else o ∷ later

-- R2.Put replaces the object at its key whole.
unfoldable pub put_object : FilePath → List ℕ → Exec (Unit {0})
unfolding external
put_object key body =
    external (λ w. (ok tt, record w { objects = store_object key body w.objects }))

-- hash[:2] of a hexadecimal text
unfoldable pub first_two : String → String
first_two String.[] = ""
first_two (String.◌∷◌ c String.[]) = String.◌∷◌ c ""
first_two (String.◌∷◌ c (String.◌∷◌ d _)) = String.◌∷◌ c (String.◌∷◌ d "")

-- len(hash) == sha256.Size*2, on an ASCII text
abbrev pub is_hash_length : String → Bool
is_hash_length hash = length (runes hash) =? 64

unfoldable pub blob_key : String → FilePath
unfolding object_key first_two concat
blob_key hash = object_key ("blobs" ∷ "sha256" ∷ first_two hash ∷ concat hash ".zst" ∷ [])

unfoldable pub metadata_key : Snapshot → FilePath
unfolding object_key
metadata_key s = object_key ("games" ∷ s.game_id ∷ "metadata.json" ∷ [])

unfoldable pub manifest_key : Snapshot → FilePath
unfolding object_key concat
manifest_key s = object_key ("games" ∷ s.game_id ∷ "snapshots" ∷ concat s.id ".json" ∷ [])

-- The blob's file, opened and inspected
unfoldable pub read_blob : String → Exec (List ℕ)
unfolding blob_path open_file some_call ◌>>=◌
read_blob hash = do path ← blob_path hash; node ← open_file path; some_call; pure node.content

-- What ensureBlob does for a blob that the index does not hold for uploaded
unfoldable pub send_blob : String → String → Exec (Unit {0})
unfolding read_blob put_object some_call mark_blob_uploaded ◌>>=◌
send_blob target hash = do
  body ← read_blob hash
  put_object (blob_key hash) body
  some_call
  mark_blob_uploaded hash target

-- ensureBlob
unfoldable pub ensure_blob : String → String → Exec (Unit {0})
unfolding blob_uploaded send_blob ◌>>=◌
ensure_blob target hash =
    if is_hash_length hash
    then blob_uploaded hash target
      >>= (λ already. if already then pure tt else send_blob target hash)
    else fail (message "invalid local blob hash")

-- The hashes that Upload ensures: each once, the registry's last.
unfoldable pub distinct : List String → List String → List String
distinct seen [] = []
distinct seen (hash ∷ rest) =
    let fresh = distinct (hash ∷ seen) rest in
    let skip = distinct seen rest in if any (λ s. s == hash) seen then skip else hash ∷ fresh

-- json.Marshal of the metadata and of the manifest are parameters.
module _ (encode_metadata : PortableGameMetadata → List ℕ) (encode : Snapshot → List ℕ) where
  unfoldable pub put_manifest : Snapshot → Exec (Unit {0})
  unfolding put_object mark_snapshot_remote ◌>>=◌
  put_manifest s =
      put_object (metadata_key s) (encode_metadata s.metadata)
      >> (put_object (manifest_key s) (encode (synced s)) >> mark_snapshot_remote s.id "synced")

  -- Upload
  unfoldable pub upload : String → Snapshot → Exec (Unit {0})
  unfolding distinct ensure_blob put_manifest for_each ◌>>=◌
  upload target s = for_each (distinct [] (hashes s)) (ensure_blob target) >> put_manifest s
