-- ===== src/Snapshot/Activation.antt =====
-- activateRestoredFiles, rollbackRestoredFiles and removeRestoreBackups in
-- internal/snapshot/service.go: the staged files take their places, and the files that they replace
-- are kept under other names until the restore is done. The list of backups is kept newest first.
pub mod Undo
pub mod Moving
pub mod Rollback
use save_knot.Prelude.{Bool, true, false, List, [], ◌∷◌, String, ◌==◌, if◌then◌else◌, concat}
use save_knot.Io.{Error, Result, ok, err, World, Exec, pure, fail, ◌>>=◌, ◌>>◌, new_id, some_call}
use save_knot.Io.Files.{is_file, rename_file, remove_path, rename_if_there, both}

pub record StagedRestoreFile : Type 0 where
  pub destination : String
  pub temporary : String

-- An empty name stands for no backup.
pub record RestoreBackup : Type 0 where
  pub activated : Bool
  pub destination : String
  pub backup : String

-- One round of the loop of rollbackRestoredFiles
unfoldable pub rollback_one : RestoreBackup → Exec (Unit {0})
unfolding both remove_path rename_if_there
rollback_one b =
    both (if b.activated then remove_path b.destination else pure tt)
      (if b.backup == "" then pure tt else rename_if_there b.backup b.destination)

-- rollbackRestoredFiles
unfoldable pub rollback : List RestoreBackup → Exec (Unit {0})
unfolding both rollback_one
rollback [] = pure tt
rollback (b ∷ rest) = both (rollback_one b) (rollback rest)

-- The backups; or the error, and what the rollback returned
pub data Activation : Type 0 where
  done : List RestoreBackup → Activation
  failed : Error → Result (Unit {0}) → Activation

abbrev pub Activating : Type 0
Activating = World → Activation × World

abbrev pub failed_with : Error → List RestoreBackup → Activating
failed_with e backups w = let (r, w') = rollback backups w in (failed e r, w')

abbrev pub backup_name : String → String → String
backup_name destination id = concat destination (concat ".saveknot-old-" id)

abbrev pub Continuation : Type 0
Continuation = List RestoreBackup → Activating

abbrev pub placed :
    RestoreBackup → List RestoreBackup → Continuation → Result (Unit {0}) → Activating
placed b backups next (ok _) = next (record b { activated = true } ∷ backups)
placed b backups next (err e) = failed_with e (b ∷ backups)

-- The backup of the item is appended, and the staged file takes its place.
unfoldable pub place_file :
    StagedRestoreFile → RestoreBackup → List RestoreBackup → Continuation → Activating
unfolding rename_file rollback
place_file item b backups next w =
    let (r, w') = rename_file item.temporary item.destination w in placed b backups next r w'

abbrev pub kept :
    StagedRestoreFile → String → List RestoreBackup → Continuation → Result (Unit {0}) → Activating
kept item name backups next (ok _) =
    place_file item (record { activated = false; destination = item.destination; backup = name })
      backups next
kept item name backups next (err e) = failed_with e backups

unfoldable pub keep_file :
    StagedRestoreFile → String → List RestoreBackup → Continuation → Activating
unfolding rename_file place_file rollback
keep_file item name backups next w =
    let (r, w') = rename_file item.destination name w in kept item name backups next r w'

abbrev pub inspected :
    StagedRestoreFile → String → List RestoreBackup → Continuation → Result Bool → Activating
inspected item name backups next (err e) = failed_with e backups
inspected item name backups next (ok true) = keep_file item name backups next
inspected item name backups next (ok false) =
    place_file item (record { activated = false; destination = item.destination; backup = "" })
      backups next

abbrev pub identified :
    StagedRestoreFile → List RestoreBackup → Continuation → Result String → Activating
identified item backups next (err e) w = failed_with e backups w
identified item backups next (ok id) w =
    let (r, w') = is_file item.destination w in
    inspected item (backup_name item.destination id) backups next r w'

-- activateRestoredFiles, from the backups made so far
unfoldable pub activate : List StagedRestoreFile → List RestoreBackup → Activating
unfolding new_id is_file rename_file rollback concat keep_file place_file
activate [] backups w = (done backups, w)
activate (item ∷ rest) backups w =
    let (r, w') = new_id w in identified item backups (λ bs. activate rest bs) r w'
