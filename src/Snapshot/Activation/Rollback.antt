-- ===== src/Snapshot/Activation/Rollback.antt =====
-- A failed activation gives the files back.
use save_knot.Prelude.{
  Bool, true, false, none, List, [], ◌∷◌, String, ◌==◌, any, ◌≡◌, refl, sym, ap, ◌∙◌, arith,
  eq_refl, All, All-mono, ◌⊎◌, inl, inr, subst,
}
use save_knot.Io.{Error, Result, ok, err, refused, World, Disk, new_id}
use save_knot.Io.Files.{with_file, without_file, is_file, rename_file}
use save_knot.Snapshot.Activation.{
  StagedRestoreFile, RestoreBackup, backup_name, Continuation, place_file, keep_file, inspected,
  activate,
}
use save_knot.Snapshot.Activation.Undo.{
  undo_one, undo, IsOutside, has, IsTracked, undo-Same, undo_unused,
}
use save_knot.Snapshot.Activation.Moving.{
  IsFree, AreFree, EndsUndoable, Ends, IsUndoable, failed_with-Ends, IsTracked-more, taken_place,
  taken_away, rename_file-cases, is_file-cases,
}

module _ (staged : List String) (files : Disk) where
  abbrev entry : Bool → StagedRestoreFile → String → RestoreBackup
  entry activated item name = record {
    activated = activated;
    destination = item.destination;
    backup = name;
  }

  place_file-Ends :
      (used : List String) (item : StagedRestoreFile) (name : String) (bs : List RestoreBackup)
      (next : Continuation) (w : World)
      → w.disk item.destination ≡ none
      → has staged item.temporary ≡ true
      → IsTracked staged used (entry false item name)
      → IsUndoable staged used files (entry false item name ∷ bs) w.disk
      → ((v : World)
          → v.ids ≡ w.ids
          → IsUndoable staged used files (entry true item name ∷ bs) v.disk
          → Ends staged files (next (entry true item name ∷ bs) v))
      → Ends staged files (place_file item (entry false item name) bs next w)
  unfolding place_file
  place_file-Ends used item name bs next w free t tracked i go =
      elim (rename_file-cases item.temporary item.destination w) [
        | inl (node, h, _, d, ids) ↦ rw h (
            go (rename_file item.temporary item.destination w).1 ids (record {
              tracked = (
                record {
                  destination = tracked.destination;
                  used_destination = tracked.used_destination;
                  backup = tracked.backup;
                },
                i.tracked.1,
              );
              restores = λ p o.
                  ap (λ x. undo (entry true item name ∷ bs) x p) d
                  ∙ unfold undo in
                    undo-Same staged used bs
                      (undo_one (entry true item name)
                        (with_file (without_file w.disk item.temporary) item.destination node))
                      (undo_one (entry false item name) w.disk) i.tracked.1
                      (taken_place staged item name w.disk node free t tracked.destination
                        (outside_name tracked.backup))
                      p o
                    ∙ i.restores p o;
            }))
        | inr (x, h, d) ↦ rw h (
            failed_with-Ends staged used files x (entry false item name ∷ bs)
              (rename_file item.temporary item.destination w).1
              (record {
                tracked = i.tracked;
                restores =
                    λ p o. ap (λ x. undo (entry false item name ∷ bs) x p) d ∙ i.restores p o;
              }))
      ]
    where
      outside_name :
          ((name == "") ≡ true) ⊎ (IsOutside staged name × (has used name ≡ true))
          → ((name == "") ≡ true) ⊎ IsOutside staged name
      outside_name (inl e) = inl e
      outside_name (inr (o, _)) = inr o

  -- The names of the item are used from here on.
  more_used : List String → StagedRestoreFile → String → List String
  more_used used item name = item.destination ∷ name ∷ used

  IsTracked-entry :
      (used : List String) (item : StagedRestoreFile) (name : String)
      → IsFree staged used files item name
      → IsTracked staged (more_used used item name) (entry false item name)
  unfolding more_used any
  IsTracked-entry used item name f = record {
    destination = f.destination;
    used_destination = ground (arith, eq_refl item.destination);
    backup = inr (f.outside, ground (arith, eq_refl name));
  }

  untouched_entry :
      (used : List String) (item : StagedRestoreFile) (name : String)
      → IsFree staged used files item name
      → IsTracked staged (more_used used item name) (entry false item "")
  unfolding more_used any
  untouched_entry used item name f = record {
    destination = f.destination;
    used_destination = ground (arith, eq_refl item.destination);
    backup = inl (eq_refl "");
  }

  All-IsTracked :
      (used : List String) (item : StagedRestoreFile) (name : String) (bs : List RestoreBackup)
      → All (IsTracked staged used) bs
      → All (IsTracked staged (more_used used item name)) bs
  unfolding more_used
  All-IsTracked used item name bs t =
      All-mono (IsTracked staged used) (IsTracked staged (item.destination ∷ name ∷ used)) bs
        (λ b. IsTracked-more staged used item.destination name b) t

  keep_file-Ends :
      (used : List String) (item : StagedRestoreFile) (name : String) (bs : List RestoreBackup)
      (next : Continuation) (w : World)
      → IsFree staged used files item name
      → IsUndoable staged used files bs w.disk
      → ((v : World)
          → v.ids ≡ w.ids
          → IsUndoable staged (more_used used item name) files (entry true item name ∷ bs) v.disk
          → Ends staged files (next (entry true item name ∷ bs) v))
      → Ends staged files (keep_file item name bs next w)
  unfolding keep_file
  keep_file-Ends used item name bs next w f i go =
      elim (rename_file-cases item.destination name w) [
        | inl (node, h, e, d, ids) ↦
            let w₁ : World = (rename_file item.destination name w).1 in
            let absent : w.disk name ≡ none =
              sym (undo_unused staged used bs w.disk name i.tracked f.unused)
              ∙ i.restores name f.outside
              ∙ f.absent in
            rw h (
              place_file-Ends (more_used used item name) item name bs next w₁
                (ap (λ x. x item.destination) d ∙ ground (arith, f.other, eq_refl item.destination))
                f.temporary (IsTracked-entry used item name f)
                (record {
                  tracked =
                      (IsTracked-entry used item name f, All-IsTracked used item name bs i.tracked);
                  restores = λ p o.
                      ap (λ x. undo (entry false item name ∷ bs) x p) d
                      ∙ unfold undo in
                        undo-Same staged used bs
                          (undo_one (entry false item name)
                            (with_file (without_file w.disk item.destination) name node))
                          w.disk i.tracked
                          (λ q _.
                            taken_away item.destination name w.disk node q e absent f.other f.named)
                          p o
                        ∙ i.restores p o;
                })
                (λ v same. go v (same ∙ ids)))
        | inr (x, h, d) ↦ rw h (
            failed_with-Ends staged used files x bs (rename_file item.destination name w).1
              (record {
                tracked = i.tracked;
                restores = λ p o. ap (λ y. undo bs y p) d ∙ i.restores p o;
              }))
      ]

  -- The rest of the round, from what os.Stat returned.
  inspected-Ends :
      (used : List String) (item : StagedRestoreFile) (name : String) (bs : List RestoreBackup)
      (next : Continuation) (r : Result Bool) (w : World)
      → (r ≡ ok false → w.disk item.destination ≡ none)
      → IsFree staged used files item name
      → IsUndoable staged used files bs w.disk
      → ((b : RestoreBackup) (v : World)
          → v.ids ≡ w.ids
          → IsUndoable staged (more_used used item name) files (b ∷ bs) v.disk
          → Ends staged files (next (b ∷ bs) v))
      → Ends staged files (inspected item name bs next r w)
  inspected-Ends used item name bs next (err e) w free f i go =
      failed_with-Ends staged used files e bs w i
  inspected-Ends used item name bs next (ok true) w free f i go =
      keep_file-Ends used item name bs next w f i (go (entry true item name))
  inspected-Ends used item name bs next (ok false) w free f i go =
      place_file-Ends (more_used used item name) item "" bs next w (free refl) f.temporary
        (untouched_entry used item name f)
        (record {
          tracked = (untouched_entry used item name f, All-IsTracked used item name bs i.tracked);
          restores = λ p o. unfold undo undo_one in i.restores p o;
        })
        (go (entry true item ""))

  new_id-cases :
      (w : World)
      → ((e : Error) × (new_id w ≡ (err e, w)))
        ⊎ ((id : String) × (ids : List String) × (w.ids ≡ id ∷ ids)
            × (new_id w ≡ (ok id, record w { ids = ids })))
  unfolding new_id
  new_id-cases w = ids_cases w.ids refl
    where
      ids_cases :
          (ids : List String)
          → w.ids ≡ ids
          → ((e : Error) × (new_id w ≡ (err e, w)))
            ⊎ ((id : String) × (ids : List String) × (w.ids ≡ id ∷ ids)
                × (new_id w ≡ (ok id, record w { ids = ids })))
      ids_cases [] e = inl (refused, ground (arith, e))
      ids_cases (id ∷ ids) e = inr (id, ids, e, ground (arith, e))

  activate-Ends :
      (items : List StagedRestoreFile) (used : List String) (bs : List RestoreBackup) (w : World)
      → IsUndoable staged used files bs w.disk
      → AreFree staged files used items w.ids
      → Ends staged files (activate items bs w)
  unfolding activate
  activate-Ends [] used bs w i free = i.restores
  activate-Ends (item ∷ rest) used bs w i free = elim (new_id-cases w) [
    | inl (e, h) ↦ rw h (failed_with-Ends staged used files e bs w i)
    | inr (id, ids, some_ids, h) ↦
        let name : String = backup_name item.destination id in
        let v : World = record w { ids = ids } in
        let (free_name, free_rest) =
          subst (AreFree staged files used (item ∷ rest)) some_ids free in
        let (disk, same_ids, missing) = is_file-cases item.destination v in
        rw h (
          inspected-Ends used item name bs (λ more. activate rest more)
            (is_file item.destination v).0 (is_file item.destination v).1
            (λ e. ap (λ d. d item.destination) disk ∙ missing e) free_name
            (record {
              tracked = i.tracked;
              restores = λ p o. ap (λ d. undo bs d p) disk ∙ i.restores p o;
            })
            (λ b v₁ e j. activate-Ends rest (more_used used item name) (b ∷ bs) v₁ j (
              unfold more_used in
              subst (AreFree staged files (item.destination ∷ name ∷ used) rest)
                (sym (e ∙ same_ids)) free_rest)))
  ]

-- Whatever calls fail: if the backup names that the IDs give are free and new, the temporaries are
-- staged and no destination and no backup name is staged, then after activateRestoredFiles fails and
-- its rollback reports no error, every file that is not staged is as it was before. If it
-- succeeds, undoing the backups that it returns gives every file back that is not staged.
pub activate-EndsUndoable :
    (staged : List String) (items : List StagedRestoreFile) (w : World)
    → AreFree staged w.disk [] items w.ids
    → EndsUndoable staged w.disk (activate items [] w).0 (activate items [] w).1.disk
activate-EndsUndoable staged items w free =
    activate-Ends staged w.disk items [] [] w
      (record { tracked = tt; restores = λ p o. unfold undo in refl }) free
