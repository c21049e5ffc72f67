-- ===== src/Snapshot/Restore/Undone.antt =====
-- A failed restore gives the files back, also where it is the registry that cannot be restored.
use save_knot.Prelude.{
  ℕ, ℤ, Bool, true, false, Option, none, some, List, [], ◌∷◌, String, ◌≡◌, ap, ◌∙◌, inl, inr,
}
use save_knot.Core.{Game, Snapshot, SnapshotRegistry}
use save_knot.Io.{Error, Result, ok, err, World, Disk, Exec, some_call}
use save_knot.Io.Laws.{Result-cases}
use save_knot.Io.Reads.{Reads, reads_rules, Reads-some_call}
use save_knot.Io.Files.{both}
use save_knot.Database.Locations.Listing.{game_registry}
use save_knot.Registry.{Unicode}
use save_knot.Remote.Download.{Codec, Stream}
use save_knot.Remote.Download.Verified.{blob_path-Reads}
use save_knot.Snapshot.Scope.{scope, scope_of_keys, validate_restore_scope}
use save_knot.Snapshot.Activation.{
  StagedRestoreFile, RestoreBackup, Activation, done, failed, rollback, activate,
}
use save_knot.Snapshot.Activation.Undo.{both-ok, rollback_lem, Same, undo}
use save_knot.Snapshot.Activation.Moving.{AreFree, EndsUndoable}
use save_knot.Snapshot.Activation.Rollback.{activate-EndsUndoable}
use save_knot.Snapshot.Restore.{
  check_bytes, read_compressed_blob, load_registry, restore_registry, restore_previous_registry,
  give_up, after_activation, activate_and_restore,
}

game_registry-Reads : (id : String) → Reads (game_registry id)
unfolding game_registry
game_registry-Reads id = search reads_rules

module _ (u : Unicode) (codec : Codec) where
  scope-Reads : (a b : Result (List (List ℕ))) → Reads (scope u a b)
  scope-Reads (err e) b = search reads_rules
  scope-Reads (ok c) (err e) = search reads_rules
  scope-Reads (ok c) (ok t) = search reads_rules

  scope_of_keys-Reads : (id : String) (keys : List String) → Reads (scope_of_keys u id keys)
  scope_of_keys-Reads id [] = search reads_rules
  scope_of_keys-Reads id (k ∷ keys) = search (reads_rules, game_registry-Reads, scope-Reads)

  validate_restore_scope-Reads : (g : Game) (s : Snapshot) → Reads (validate_restore_scope u g s)
  unfolding validate_restore_scope
  validate_restore_scope-Reads g s = search (reads_rules, scope_of_keys-Reads)

  check_bytes-Reads :
      (hash : String) (size : ℤ) (s : Stream) → Reads (check_bytes u codec hash size s)
  check_bytes-Reads hash size s = search reads_rules

  read_compressed_blob-Reads :
      (path hash : String) (size : ℤ) → Reads (read_compressed_blob u codec path hash size)
  unfolding read_compressed_blob
  read_compressed_blob-Reads path hash size = search (reads_rules, check_bytes-Reads) depth 8

  load_registry-Reads : (r : Option SnapshotRegistry) → Reads (load_registry u codec r)
  load_registry-Reads none = search reads_rules
  load_registry-Reads (some r) =
      search (reads_rules, blob_path-Reads u codec, read_compressed_blob-Reads)

  restore_registry-Reads :
      (s : Snapshot) (r : Option SnapshotRegistry) → Reads (restore_registry u codec s r)
  restore_registry-Reads s none = search reads_rules
  restore_registry-Reads s (some r) =
      search (reads_rules, validate_restore_scope-Reads, load_registry-Reads)

  restore_previous_registry-Reads : (s : Snapshot) → Reads (restore_previous_registry u codec s)
  unfolding restore_previous_registry
  restore_previous_registry-Reads s = restore_registry-Reads s s.registry

  give_up-EndsUndoable :
      (staged : List String) (files : Disk) (previous : Snapshot) (e : Error)
      (backups : List RestoreBackup) (w : World)
      → Same staged (undo backups w.disk) files
      → EndsUndoable staged files
          (give_up u codec previous e backups w).0
          (give_up u codec previous e backups w).1.disk
  give_up-EndsUndoable staged files previous e backups w s =
      let m : Exec (Unit {0}) = restore_previous_registry u codec previous in
      elim (Result-cases (both m (rollback backups) w).0) [
        | inl (_, h) ↦
            let (first, second, last) = both-ok m (rollback backups) w h in
            rw h (λ p o.
              ap (λ v. v.disk p) last
              ∙ ap (λ d. d p) (rollback_lem backups (m w).1 second)
              ∙ ap (λ d. undo backups d p) ((restore_previous_registry-Reads previous).disk w)
              ∙ s p o)
        | inr (x, h) ↦ rw h tt
      ]

  after_activation-EndsUndoable :
      (staged : List String) (files : Disk) (has_registry : Bool) (previous : Snapshot)
      (a : Activation) (w : World)
      → EndsUndoable staged files a w.disk
      → EndsUndoable staged files
          (after_activation u codec has_registry previous a w).0
          (after_activation u codec has_registry previous a w).1.disk
  after_activation-EndsUndoable staged files has_registry previous (failed e r) w h = h
  after_activation-EndsUndoable staged files false previous (done backups) w h = h
  after_activation-EndsUndoable staged files true previous (done backups) w h =
      let same : (some_call w).1.disk ≡ w.disk = Reads-some_call.disk w in
      let s : Same staged (undo backups (some_call w).1.disk) files =
        λ p o. ap (λ d. undo backups d p) same ∙ h p o in
      elim (Result-cases (some_call w).0) [
        | inl (_, e) ↦ rw e s
        | inr (x, e) ↦ rw e (give_up-EndsUndoable staged files previous x backups (some_call w).1 s)
      ]

  -- Whatever calls fail, if the backup names that the IDs give are free and new, the temporaries are
  -- staged, and no destination and no backup name is staged: if activateAndRestore fails, in the
  -- activation or in the registry, and its clean-up reports no error,
  -- then every file that is not staged is as it was before. If it succeeds, undoing the
  -- backups that it returns gives every file back that is not staged.
  pub activate_and_restore-EndsUndoable :
      (staged : List String) (has_registry : Bool) (previous : Snapshot)
      (items : List StagedRestoreFile) (w : World)
      → AreFree staged w.disk [] items w.ids
      → EndsUndoable staged w.disk
          (activate_and_restore u codec has_registry previous items w).0
          (activate_and_restore u codec has_registry previous items w).1.disk
  unfolding activate_and_restore
  activate_and_restore-EndsUndoable staged has_registry previous items w free =
      after_activation-EndsUndoable staged w.disk has_registry previous (activate items [] w).0
        (activate items [] w).1 (activate-EndsUndoable staged items w free)
