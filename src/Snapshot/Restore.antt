-- ===== src/Snapshot/Restore.antt =====
-- internal/snapshot/service.go: from a snapshot to staged files, and from staged files to the restored
-- ones, with the registry. The path of a file is its text here. The Windows registry is not part of
-- the world: registrybackup.Restore is a call that may fail.
pub mod Staged
pub mod Undone
mod Tests
use save_knot.Prelude.{
  ℕ, ◌+◌, ℤ, pos, negsuc, Bool, true, false, ◌&&◌, ◌=?◌, Option, none, some, List, [], ◌∷◌, ◌++◌,
  map, String, ◌==◌, any, find, length, reverse, if◌then◌else◌, runes, concat,
}
use save_knot.Core.{Game, GamePath, Snapshot, SnapshotFile, SnapshotRegistry}
use save_knot.Paths.{FilePath}
use save_knot.Io.{
  Error, Result, ok, err, message, World, FileNode, Exec, pure, fail, ◌>>=◌, ◌>>◌, external,
  open_file, some_call,
}
use save_knot.Io.Files.{with_file, create_file, remove_path, both, ensure}
use save_knot.Database.Blobs.{blob_path}
use save_knot.Registry.{Unicode, equal_fold}
use save_knot.Remote.Download.{Stream, Codec, limited, or_remove}
use save_knot.Snapshot.{restore_destination}
use save_knot.Snapshot.Scope.{validate_restore_scope}
use save_knot.Snapshot.Activation.{
  StagedRestoreFile, RestoreBackup, Activation, done, failed, Activating, rollback, activate,
}

-- The path of a file as the text that the calls take
abbrev pub join_texts : List String → String
join_texts [] = ""
join_texts (part ∷ rest) = concat "/" (concat part (join_texts rest))

abbrev pub path_text : FilePath → String
path_text p = join_texts p.parts

-- os.Chmod and os.Chtimes of a file that was just written
unfoldable pub write_restored : String → List ℕ → Exec (Unit {0})
unfolding external
write_restored path bytes = external λ w. (
  ok tt,
  record w {
    disk = with_file w.disk path (record { content = bytes; mode = 0o600; modified = 0 });
  },
)

abbrev pub change_node : String → (FileNode → FileNode) → World → World
change_node path f w = elim (w.disk path) [
  | none ↦ w
  | some node ↦ record w { disk = with_file w.disk path (f node) }
]

-- os.Chmod with the bits of a mode as os.Stat gave it on the same system
unfoldable pub change_mode : String → ℕ → Exec (Unit {0})
unfolding external
change_mode path mode =
    external (λ w. (ok tt, change_node path (λ node. record node { mode = mode }) w))

unfoldable pub change_times : String → ℕ → Exec (Unit {0})
unfolding external
change_times path time =
    external (λ w. (ok tt, change_node path (λ node. record node { modified = time }) w))

abbrev pub blank_game : String → Game
blank_game id = record {
  id = id;
  catalog_id = "";
  catalog_name = "";
  display_name = "";
  store = "";
  store_id = "";
  install_path = "";
  image = "";
  notes = "";
  enabled = false;
  sync_enabled = false;
  hidden = false;
  last_seen = none;
  last_change = none;
  last_backup = none;
}

abbrev pub has_size : ℤ → List ℕ → Bool
has_size (pos n) bytes = length bytes =? n
has_size (negsuc _) bytes = false

module _ (u : Unicode) (codec : Codec) where
  -- The decoded bytes of a stored content, at most one more than expected
  unfoldable pub decode_limited : ℤ → List ℕ → Stream
  unfolding limited
  decode_limited (pos n) content = limited (n + 1) (codec.decoded content)
  decode_limited (negsuc _) content = record { bytes = []; ends = true }

  abbrev pub check_bytes : String → ℤ → Stream → Exec (Unit {0})
  check_bytes hash size s =
      ensure s.ends "write restored file"
      >> (ensure (has_size size s.bytes) "restored blob size did not match the snapshot"
          >> ensure (equal_fold u (runes (codec.digest s.bytes)) (runes hash))
              "restored blob failed hash verification")

  -- readCompressedBlob
  unfoldable pub read_compressed_blob : String → String → ℤ → Exec (List ℕ)
  unfolding open_file some_call decode_limited equal_fold ◌>>=◌
  read_compressed_blob path hash size = do
    node ← open_file path
    some_call
    some_call
    check_bytes hash size (decode_limited size node.content)
    pure (decode_limited size node.content).bytes

  -- The staged file is written, checked, and given its mode and time.
  unfoldable pub fill_staged : String → SnapshotFile → List ℕ → Exec (Unit {0})
  unfolding write_restored change_mode change_times decode_limited equal_fold ◌>>=◌
  fill_staged temporary file content = do
    write_restored temporary (decode_limited file.size content).bytes
    some_call
    check_bytes file.hash file.size (decode_limited file.size content)
    change_mode temporary file.mode
    change_times temporary file.modified

  -- stageRestoreFile, with the name that CreateTemp finds
  unfoldable pub stage_restore_file :
      (String → String) → String → SnapshotFile → Exec StagedRestoreFile
  unfolding blob_path open_file create_file fill_staged some_call ◌>>=◌
  stage_restore_file temporary destination file = do
    path ← blob_path file.hash
    node ← open_file path
    some_call
    some_call
    create_file (temporary destination)
    or_remove (temporary destination) (fill_staged (temporary destination) file node.content)
    pure (record { destination = destination; temporary = temporary destination })

  abbrev pub load_registry : Option SnapshotRegistry → Exec (List ℕ)
  load_registry none = pure []
  load_registry (some r) = blob_path r.hash >>= (λ path. read_compressed_blob path r.hash r.size)

  abbrev pub restore_registry : Snapshot → Option SnapshotRegistry → Exec (Unit {0})
  restore_registry s none = pure tt
  restore_registry s (some r) =
      validate_restore_scope u (blank_game s.game_id) s
      >>= (λ roots. load_registry (some r) >>= (λ content. some_call))

  -- restorePreviousRegistry
  unfoldable pub restore_previous_registry : Snapshot → Exec (Unit {0})
  unfolding validate_restore_scope blob_path read_compressed_blob some_call ◌>>=◌
  restore_previous_registry s = restore_registry s s.registry

  abbrev pub give_up : Snapshot → Error → List RestoreBackup → Activating
  give_up previous e backups w =
      let (r, w') = both (restore_previous_registry previous) (rollback backups) w in
      (failed e r, w')

  abbrev pub after_registry : Snapshot → List RestoreBackup → Result (Unit {0}) → Activating
  after_registry previous backups (ok _) w = (done backups, w)
  after_registry previous backups (err e) w = give_up previous e backups w

  abbrev pub after_activation : Bool → Snapshot → Activation → Activating
  after_activation has_registry previous (failed e r) w = (failed e r, w)
  after_activation false previous (done backups) w = (done backups, w)
  after_activation true previous (done backups) w =
      let (r, w') = some_call w in after_registry previous backups r w'

  -- activateAndRestore
  unfoldable pub activate_and_restore : Bool → Snapshot → List StagedRestoreFile → Activating
  unfolding activate some_call both rollback restore_previous_registry
  activate_and_restore has_registry previous staged w =
      let (a, w') = activate staged [] w in after_activation has_registry previous a w'

-- cleanupStagedRestoreFiles
unfoldable pub cleanup_staged : List StagedRestoreFile → Exec (Unit {0})
unfolding both remove_path
cleanup_staged [] = pure tt
cleanup_staged (item ∷ rest) = both (remove_path item.temporary) (cleanup_staged rest)

-- removeRestoreBackups
unfoldable pub remove_restore_backups : List RestoreBackup → Exec (Unit {0})
unfolding both remove_path
remove_restore_backups [] = pure tt
remove_restore_backups (b ∷ rest) =
    both (if b.backup == "" then pure tt else remove_path b.backup) (remove_restore_backups rest)
