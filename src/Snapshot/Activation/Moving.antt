-- ===== src/Snapshot/Activation/Moving.antt =====
-- What the loop of activateRestoredFiles keeps, and what its two renames do to it.
use save_knot.Prelude.{
  true, false, none, some, List, [], ◌∷◌, String, ◌==◌, any, ◌≡◌, ap, ◌∙◌, arith, eq_iff, eq_refl,
  All, Bool-cases, Option-cases, ◌⊎◌, inl, inr,
}
use save_knot.Io.{Error, ok, err, World, FileNode, Disk}
use save_knot.Io.Laws.{Result-cases}
use save_knot.Io.Files.{with_file, without_file, is_file, rename_file}
use save_knot.Snapshot.Activation.{
  StagedRestoreFile, RestoreBackup, rollback, Activation, done, failed, failed_with, backup_name,
}
use save_knot.Snapshot.Activation.Undo.{
  undo_one, undo, rollback_lem, IsOutside, has, IsTracked, Same,
}

-- The names of one item: its backup name is new and free, its temporary is staged, and its
-- destination is not.
pub record IsFree (staged used : List String) (files : Disk) (item : StagedRestoreFile)
    (name : String) : Type 0 where
  pub absent : files name ≡ none
  pub unused : has used name ≡ false
  pub other : (name == item.destination) ≡ false
  pub named : (name == "") ≡ false
  pub outside : IsOutside staged name
  pub destination : IsOutside staged item.destination
  pub temporary : has staged item.temporary ≡ true

-- The same of each item with the ID that it gets, and with the names of the earlier items as used.
abbrev pub AreFree :
    List String → Disk → List String → List StagedRestoreFile → List String → Type 0
AreFree staged files used [] ids = Unit
AreFree staged files used (item ∷ rest) [] = Unit
AreFree staged files used (item ∷ rest) (id ∷ ids) =
    IsFree staged used files item (backup_name item.destination id)
    × AreFree staged files (item.destination ∷ backup_name item.destination id ∷ used) rest ids

-- A finished activation can be undone, and a failed one whose rollback reports no error is undone.
abbrev pub EndsUndoable : List String → Disk → Activation → Disk → Type 0
EndsUndoable staged files (done backups) disk = Same staged (undo backups disk) files
EndsUndoable staged files (failed e (ok _)) disk = Same staged disk files
EndsUndoable staged files (failed e (err _)) disk = Unit

abbrev pub Ends : List String → Disk → Activation × World → Type 0
Ends staged files o = EndsUndoable staged files o.0 o.1.disk

-- The invariant of the loop
pub record IsUndoable (staged used : List String) (files : Disk) (bs : List RestoreBackup)
    (disk : Disk) : Type 0 where
  pub tracked : All (IsTracked staged used) bs
  pub restores : Same staged (undo bs disk) files

pub failed_with-Ends :
    (staged used : List String) (files : Disk) (e : Error) (bs : List RestoreBackup) (w : World)
    → IsUndoable staged used files bs w.disk
    → Ends staged files (failed_with e bs w)
failed_with-Ends staged used files e bs w i = elim (Result-cases (rollback bs w).0) [
  | inl (_, h) ↦ rw h (λ p o. ap (λ d. d p) (rollback_lem bs w h) ∙ i.restores p o)
  | inr (x, h) ↦ rw h tt
]

pub IsTracked-more :
    (staged used : List String) (x y : String) (b : RestoreBackup)
    → IsTracked staged used b
    → IsTracked staged (x ∷ y ∷ used) b
unfolding any
IsTracked-more staged used x y b t = record {
  destination = t.destination;
  used_destination = ground (arith, t.used_destination);
  backup = elim t.backup [
    | inl none_kept ↦ inl none_kept
    | inr (o, h) ↦ inr (o, ground (arith, h))
  ];
}

-- The staged file takes a free place.
pub taken_place :
    (staged : List String) (item : StagedRestoreFile) (name : String) (disk : Disk)
    (node : FileNode)
    → disk item.destination ≡ none
    → has staged item.temporary ≡ true
    → IsOutside staged item.destination
    → ((name == "") ≡ true) ⊎ IsOutside staged name
    → Same staged
        (undo_one
          (record { activated = true; destination = item.destination; backup = name })
          (with_file (without_file disk item.temporary) item.destination node))
        (undo_one
          (record { activated = false; destination = item.destination; backup = name })
          disk)
unfolding undo_one
taken_place staged item name disk node free t d n p o =
    let p_else : (item.temporary == p) ≡ false = inside_ne p o in
    elim n [
      | inl none_kept ↦ ground (arith, none_kept, free, p_else, eq_iff item.destination p)
      | inr outside ↦
          let n_else : (item.temporary == name) ≡ false = inside_ne name outside in
          ground (
            arith,
            free,
            p_else,
            n_else,
            eq_iff item.destination p,
            eq_iff item.destination name,
            eq_iff name p,
          )
    ]
  where
    inside_ne : (q : String) → IsOutside staged q → (item.temporary == q) ≡ false
    inside_ne q outside = elim (Bool-cases (item.temporary == q)) [
      | inl same ↦
          let e : has staged q ≡ true = (rw ((eq_iff item.temporary q).0 same) at t) in
          absurd (ground (arith, e, outside))
      | inr other ↦ other
    ]

-- The file at the destination is moved to the backup's name.
pub taken_away :
    (destination name : String) (disk : Disk) (node : FileNode) (p : String)
    → disk destination ≡ some node
    → disk name ≡ none
    → (name == destination) ≡ false
    → (name == "") ≡ false
    → undo_one
        (record { activated = false; destination = destination; backup = name })
        (with_file (without_file disk destination) name node)
        p
      ≡ disk p
unfolding undo_one
taken_away destination name disk node p e free other named = ground (
  arith,
  e,
  free,
  other,
  named,
  eq_refl name,
  eq_iff destination p,
  eq_iff name p,
  eq_iff destination name,
)

pub rename_file-cases :
    (old new : String) (w : World)
    → ((node : FileNode) × ((rename_file old new w).0 ≡ ok tt)
        × (w.disk old ≡ some node)
        × ((rename_file old new w).1.disk ≡ with_file (without_file w.disk old) new node)
        × ((rename_file old new w).1.ids ≡ w.ids))
      ⊎ ((e : Error) × ((rename_file old new w).0 ≡ err e)
          × ((rename_file old new w).1.disk ≡ w.disk))
unfolding rename_file
rename_file-cases old new w = elim (Result-cases (rename_file old new w).0) [
  | inl (_, h) ↦ elim (Option-cases (w.disk old)) [
    | inl missing ↦ absurd (ground (arith, missing, h))
    | inr (node, e) ↦ inl (node, h, e, ground (arith, e, h), ground (arith, e, h))
  ]
  | inr (x, h) ↦ inr (x, h, ground (arith, h))
]

pub is_file-cases :
    (path : String) (w : World)
    → ((is_file path w).1.disk ≡ w.disk)
      × ((is_file path w).1.ids ≡ w.ids)
      × ((is_file path w).0 ≡ ok false → w.disk path ≡ none)
unfolding is_file
is_file-cases path w = (ground arith, ground arith, λ h. ground (arith, h))
