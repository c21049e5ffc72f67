-- ===== src/Remote/Reconcile.antt =====
-- internal/remote/reconcile.go: the manifests of the remote storage are registered in the database. What
-- List and Get answer, and json.Unmarshal, are parameters: an object may hold anything.
pub mod Imported
pub mod Registered
mod Tests
use save_knot.Prelude.{
  ℕ, ◌+◌, ℤ, pos, negsuc, ltb, leb, Bool, true, false, not, ◌&&◌, ◌||◌, ◌=?◌, Option, none, some,
  List, [], ◌∷◌, String, ◌==◌, any, every, length, take, if◌then◌else◌, Dict, put, runes, Text,
  text_eq,
}
use save_knot.Core.{Game, Snapshot, SnapshotFile, SnapshotRegistry}
use save_knot.Paths.{FilePath, clean, escapes}
use save_knot.Io.{
  Error, Result, ok, err, message, World, Exec, pure, fail, ◌>>=◌, ◌>>◌, external, some_call,
}
use save_knot.Io.Files.{lift, ensure}
use save_knot.Database.Snapshots.{has_snapshot, import_snapshot, synced}
use save_knot.Database.Games.{ensure_remote_game}
use save_knot.Remote.Download.{Stream, Answer, Reader, limited}
use save_knot.Snapshot.{is_empty}

pub record Object : Type 0 where
  pub key : FilePath
  pub size : ℕ

pub record ReconcileResult : Type 0 where
  pub objects : ℕ
  pub snapshots : ℕ
  pub skipped : ℕ
  pub games : List String

abbrev pub max_remote_manifest_size : ℕ
max_remote_manifest_size = 8388608

-- The text with a suffix taken off, if it has it
unfoldable pub without_suffix : String → String → Option String
without_suffix suffix String.[] = if "" == suffix then some "" else none
without_suffix suffix (String.◌∷◌ c s) =
    let rest = without_suffix suffix s in
    if String.◌∷◌ c s == suffix
    then some ""
    else elim rest [ none ↦ none | some t ↦ some (String.◌∷◌ c t) ]

abbrev pub is_id_rune : ℕ → Bool
is_id_rune c =
    leb 65 c && leb c 90 || leb 97 c && leb c 122 || leb 48 c && leb c 57 || c =? 95 || c =? 45

-- objectIDPattern
unfoldable pub is_object_id : Text → Bool
unfolding every
is_object_id id = leb 1 (length id) && leb (length id) 128 && every is_id_rune id

abbrev pub is_hex_rune : ℕ → Bool
is_hex_rune c = leb 97 c && leb c 102 || leb 65 c && leb c 70 || leb 48 c && leb c 57

-- sha256Pattern
unfoldable pub is_sha256 : Text → Bool
unfolding every
is_sha256 hash = length hash =? 64 && every is_hex_rune hash

abbrev pub is_json : String → Bool
is_json part = elim (without_suffix ".json" part) [ none ↦ false | some _ ↦ true ]

abbrev pub last_part : List String → String
last_part [] = ""
last_part (part ∷ []) = part
last_part (_ ∷ part ∷ rest) = last_part (part ∷ rest)

-- The parts after the first hold "snapshots" before the last.
abbrev pub has_inner_snapshots : List String → Bool
has_inner_snapshots [] = false
has_inner_snapshots (_ ∷ []) = false
has_inner_snapshots (part ∷ next ∷ rest) = part == "snapshots" || has_inner_snapshots (next ∷ rest)

abbrev pub behind_first : List String → List String
behind_first [] = []
behind_first (_ ∷ rest) = rest

-- strings.Contains(key, "/snapshots/") && path.Ext(key) == ".json"
unfoldable pub is_snapshot_object : FilePath → Bool
unfolding without_suffix
is_snapshot_object key =
    has_inner_snapshots (behind_first key.parts) && is_json (last_part key.parts)

abbrev pub identity_of : String → String → Option String → Option (String × String)
identity_of game_id file none = none
identity_of game_id file (some id) =
    if is_object_id (runes game_id) && is_object_id (runes id) then some (game_id, id) else none

-- snapshotObjectIdentity.
unfoldable pub snapshot_object_identity : List String → Option (String × String)
unfolding without_suffix is_object_id
snapshot_object_identity (games ∷ game_id ∷ snapshots ∷ file ∷ []) =
    if games == "games" && snapshots == "snapshots"
    then identity_of game_id file (without_suffix ".json" file)
    else none
snapshot_object_identity _ = none

abbrev pub is_one : ℤ → Bool
is_one (pos n) = n =? 1
is_one (negsuc _) = false

abbrev pub is_unsafe_path : FilePath → Bool
is_unsafe_path p = p.rooted || (is_empty (clean p).parts || escapes (clean p).parts)

abbrev pub is_safe_file : SnapshotFile → Bool
is_safe_file f = (f.root_file || not (is_unsafe_path f.path)) && is_sha256 (runes f.hash)

abbrev pub is_safe_registry : Option SnapshotRegistry → Bool
is_safe_registry none = true
is_safe_registry (some r) = is_sha256 (runes r.hash)

unfoldable pub is_valid_manifest : Snapshot → Bool
unfolding clean escapes every is_sha256
is_valid_manifest s =
    is_one s.version
    && not (s.id == "" || s.game_id == "" || s.game_name == "")
    && every is_safe_file s.files
    && is_safe_registry s.registry

-- firstMetadataName
abbrev pub first_metadata_name : Snapshot → String
first_metadata_name s =
    if s.metadata.display_name == "" then s.game_name else s.metadata.display_name

abbrev pub add_name : String → List String → List String
add_name name names = if any (λ n. n == name) names then names else name ∷ names

module _ (get : Reader) (decode : List ℕ → Option Snapshot) (now : ℕ) where
  abbrev pub decoded_manifest : Option Snapshot → Exec Snapshot
  decoded_manifest none = fail (message "decode remote snapshot")
  decoded_manifest (some s) =
      if is_valid_manifest s
      then pure (synced s)
      else fail (message "remote snapshot has invalid identity or version or an unsafe entry")

  abbrev pub read_body : Stream → Exec Snapshot
  read_body s =
      ensure s.ends "read remote snapshot"
      >> (ensure (leb (length s.bytes) max_remote_manifest_size)
            "remote snapshot manifest exceeds its limit"
          >> decoded_manifest (decode s.bytes))

  -- readRemoteSnapshot
  unfoldable pub read_remote_snapshot : Object → Exec Snapshot
  unfolding external limited is_valid_manifest ◌>>=◌
  read_remote_snapshot o =
      ensure (leb o.size max_remote_manifest_size) "remote snapshot manifest exceeds its limit"
      >> (external (lift (get o.key))
          >>= (λ answer. read_body (limited (max_remote_manifest_size + 1) answer.body)))

  abbrev pub remote_game : Snapshot → Game
  remote_game s = record {
    id = s.game_id;
    catalog_id = s.game_id;
    catalog_name = s.game_name;
    display_name = first_metadata_name s;
    store = "remote";
    store_id = "";
    install_path = "";
    image = s.metadata.image;
    notes = s.metadata.notes;
    enabled = false;
    sync_enabled = false;
    hidden = false;
    last_seen = some now;
    last_change = none;
    last_backup = none;
  }

  abbrev pub register : ReconcileResult → Snapshot → Exec ReconcileResult
  register r s =
      ensure_remote_game (remote_game s)
      >> (import_snapshot s
          >> pure (record r { snapshots = r.snapshots + 1; games = add_name s.game_id r.games }))

  abbrev pub import_object : Object → ReconcileResult → String → String → Exec ReconcileResult
  import_object o r game_id id = read_remote_snapshot o >>= (λ s.
      if s.game_id == game_id && s.id == id
      then register r s
      else fail (message "remote snapshot identity does not match its object key"))

  abbrev pub reconcile_identified :
      Object → ReconcileResult → Option (String × String) → Exec ReconcileResult
  reconcile_identified o r none = fail (message "remote snapshot object has an invalid key")
  reconcile_identified o r (some (game_id, id)) = has_snapshot id >>= (λ exists.
      if exists
      then pure (record r { skipped = r.skipped + 1; games = add_name game_id r.games })
      else import_object o r game_id id)

  -- One round of the loop
  unfoldable pub reconcile_one : Object → ReconcileResult → Exec ReconcileResult
  unfolding is_snapshot_object snapshot_object_identity has_snapshot read_remote_snapshot
      ensure_remote_game import_snapshot ◌>>=◌
  reconcile_one o r =
      if is_snapshot_object o.key
      then reconcile_identified o r (snapshot_object_identity o.key.parts)
      else pure r

  unfoldable pub reconcile_objects : List Object → ReconcileResult → Exec ReconcileResult
  unfolding reconcile_one ◌>>=◌
  reconcile_objects [] r = pure r
  reconcile_objects (o ∷ rest) r = reconcile_one o r >>= (λ more. reconcile_objects rest more)

  -- Reconcile, of the objects that List returns; Games is the number of the names.
  unfoldable pub reconcile : Result (List Object) → Exec ReconcileResult
  unfolding external reconcile_objects ◌>>=◌
  reconcile listed = external (lift listed) >>= (λ objects.
      reconcile_objects objects
        (record { objects = length objects; snapshots = 0; skipped = 0; games = [] }))
