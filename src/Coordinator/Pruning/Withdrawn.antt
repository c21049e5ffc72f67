-- ===== src/Coordinator/Pruning/Withdrawn.antt =====
-- The remote storage and the deletions of applyRetention.
use save_knot.Prelude.{
  Bool, true, false, not, ◌&&◌, none, List, [], ◌∷◌, String, ◌==◌, ◌≡◌, refl, ap, ◌∙◌, any, keep,
  Some, arith, ◌⊎◌, inl, inr, Bool-cases, if◌then◌else◌,
}
use save_knot.Paths.{FilePath, path_eq}
use save_knot.Core.{Snapshot}
use save_knot.Io.{ok, World, RemoteObject, Exec, pure, ◌>>◌, external, for_each}
use save_knot.Io.Laws.{bind_outcome}
use save_knot.Database.Snapshots.{find_snapshot}
use save_knot.Database.Blobs.{delete_snapshot}
use save_knot.Database.Blobs.Objects.{delete_snapshot-KeepsObjects}
use save_knot.Database.Views.{View, view, delete_snapshot-IsStep}
use save_knot.Remote.{has_object, manifest_key}
use save_knot.Coordinator.Retaining.{deleted}
use save_knot.Remote.Publishing.{manifest_object}
use save_knot.Coordinator.Pruning.{delete_object, is_synced, withdraw, retire}

has-removed :
    (key : FilePath) (objects : List RemoteObject)
    → has_object key (keep (λ o. not (path_eq o.key key)) objects) ≡ false
unfolding has_object any keep
has-removed key [] = refl
has-removed key (o ∷ rest) = ground (arith, has-removed key rest)

has-keep :
    (key other : FilePath) (objects : List RemoteObject)
    → has_object key objects ≡ false
    → has_object key (keep (λ o. not (path_eq o.key other)) objects) ≡ false
unfolding has_object any keep
has-keep key other [] h = refl
has-keep key other (o ∷ rest) h = ground (arith, h, has-keep key other rest)

-- An operation that brings no object back
record Shrinks (m : Exec (Unit {0})) : Type 0 where
  pub absent :
      (key : FilePath) (w : World)
      → has_object key w.objects ≡ false
      → has_object key (m w).1.objects ≡ false

delete_object-Shrinks : (key : FilePath) → Shrinks (delete_object key)
unfolding delete_object external
delete_object-Shrinks key = record {
  absent = λ other w h. ground (arith, h, has-keep other key w.objects h);
}

Shrinks-bind : (m n : Exec (Unit {0})) → Shrinks m → Shrinks n → Shrinks (m >> n)
Shrinks-bind m n k l = record {
  absent = λ key w h.
      bind_outcome (λ o. has_object key o.1.objects ≡ false) m (λ _. n) w
        (λ _ _. l.absent key (m w).1 (k.absent key w h)) (λ _ _. k.absent key w h);
}

delete_snapshot-Shrinks : (id : String) → Shrinks (delete_snapshot id)
delete_snapshot-Shrinks id = record {
  absent = λ key w h. ap (has_object key) ((delete_snapshot-KeepsObjects id).objects w) ∙ h;
}

Shrinks-if :
    (b : Bool) (m n : Exec (Unit {0})) → Shrinks m → Shrinks n → Shrinks (if b then m else n)
Shrinks-if true m n k l = k
Shrinks-if false m n k l = l

Shrinks-pure : Shrinks (pure tt)
Shrinks-pure = record { absent = λ key w h. h }

retire-Shrinks : (remote : Bool) (s : Snapshot) → Shrinks (retire remote s)
unfolding retire
retire-Shrinks remote s =
    Shrinks-if (is_synced s && not remote) (pure tt) (withdraw s >> delete_snapshot s.id)
      Shrinks-pure
      (Shrinks-bind (withdraw s) (delete_snapshot s.id)
        (Shrinks-if (is_synced s) (delete_object (manifest_key s)) (pure tt)
          (delete_object-Shrinks (manifest_key s)) Shrinks-pure)
        (delete_snapshot-Shrinks s.id))

for_each-Shrinks :
    (remote : Bool) (excess : List Snapshot) → Shrinks (for_each excess (retire remote))
unfolding for_each
for_each-Shrinks remote [] = Shrinks-pure
for_each-Shrinks remote (s ∷ rest) =
    Shrinks-bind (retire remote s) (for_each rest (retire remote)) (retire-Shrinks remote s)
      (for_each-Shrinks remote rest)

-- A snapshot that is not synced, or whose manifest is not in the remote storage
abbrev pub IsWithdrawn : World → Snapshot → Type 0
IsWithdrawn w s =
    ((s.remote_state == "synced") ≡ false) ⊎ (has_object (manifest_object s) w.objects ≡ false)

-- A snapshot is as before, or it is gone and the remote storage does not bring it back.
abbrev pub IsRetired : List Snapshot → View → World → String → Type 0
IsRetired excess before w id =
    (view w.db id ≡ before id)
    ⊎ ((view w.db id ≡ none) × Some (λ s. ((s.id == id) ≡ true) × IsWithdrawn w s) excess)

delete_object_lem :
    (key : FilePath) (w : World)
    → (delete_object key w).0 ≡ ok tt
    → has_object key (delete_object key w).1.objects ≡ false
unfolding delete_object external
delete_object_lem key w h = ground (arith, h, has-removed key w.objects)

withdraw-IsWithdrawn :
    (s : Snapshot) (w : World) → (withdraw s w).0 ≡ ok tt → IsWithdrawn (withdraw s w).1 s
unfolding manifest_key
withdraw-IsWithdrawn s w h = elim (Bool-cases (is_synced s)) [
  | inl e ↦ inr (rw e (delete_object_lem (manifest_key s) w (rw e at h)))
  | inr e ↦ inl e
]

delete_object-db : (key : FilePath) (w : World) → (delete_object key w).1.db ≡ w.db
unfolding delete_object external
delete_object-db key w = ground arith

withdraw-db : (s : Snapshot) (w : World) → (withdraw s w).1.db ≡ w.db
withdraw-db s w = elim (Bool-cases (is_synced s)) [
  | inl e ↦ rw e (delete_object-db (manifest_key s) w)
  | inr e ↦ rw e refl
]

IsWithdrawn-keeps :
    (s : Snapshot) (v w : World)
    → (has_object (manifest_key s) v.objects ≡ false
        → has_object (manifest_key s) w.objects ≡ false)
    → IsWithdrawn v s
    → IsWithdrawn w s
unfolding manifest_key
IsWithdrawn-keeps s v w k (inl e) = inl e
IsWithdrawn-keeps s v w k (inr e) = inr (k e)

-- One round: only the snapshot's own ID may lose its snapshot.
abbrev Round : Snapshot → View → World → String → Type 0
Round s before w id =
    (view w.db id ≡ before id) ⊎ ((view w.db id ≡ none) × ((s.id == id) ≡ true) × IsWithdrawn w s)

after_withdrawal :
    (s : Snapshot) (before : View) (v : World) (id : String)
    → view v.db id ≡ before id
    → IsWithdrawn v s
    → Round s before (delete_snapshot s.id v).1 id
after_withdrawal s before v id same a =
    elim (deleted s.id (view v.db) (view (delete_snapshot s.id v).1.db) (delete_snapshot s.id v).0
      (delete_snapshot-IsStep s.id v).updates id) [
        | inl e ↦ inl (e ∙ same)
        | inr (g, i) ↦ inr (
          g,
          i,
          IsWithdrawn-keeps s v (delete_snapshot s.id v).1
              ((delete_snapshot-Shrinks s.id).absent (manifest_key s) v) a,
        )
      ]

retire-Round :
    (remote : Bool) (s : Snapshot) (w : World) (id : String)
    → Round s (view w.db) (retire remote s w).1 id
unfolding retire
retire-Round remote s w id = elim (Bool-cases (is_synced s && not remote)) [
  | inl e ↦ rw e (inl refl)
  | inr e ↦ rw e (
      bind_outcome (λ o. Round s (view w.db) o.1 id) (withdraw s) (λ _. delete_snapshot s.id) w
        (λ a h.
          after_withdrawal s (view w.db) (withdraw s w).1 id
            (ap (find_snapshot id) (withdraw-db s w)) (withdraw-IsWithdrawn s w h))
        (λ x h. inl (ap (find_snapshot id) (withdraw-db s w))))
]

Round-IsRetired :
    (s : Snapshot) (rest : List Snapshot) (before : View) (v w : World) (id : String)
    → (has_object (manifest_key s) v.objects ≡ false
        → has_object (manifest_key s) w.objects ≡ false)
    → Round s before v id
    → IsRetired rest (view v.db) w id
    → IsRetired (s ∷ rest) before w id
Round-IsRetired s rest before v w id k r (inr (g, p)) = inr (g, inr p)
Round-IsRetired s rest before v w id k (inl d) (inl e) = inl (e ∙ d)
Round-IsRetired s rest before v w id k (inr (g, i, a)) (inl e) =
    inr (e ∙ g, inl (i, IsWithdrawn-keeps s v w k a))

pub for_each-IsRetired :
    (remote : Bool) (excess : List Snapshot) (w : World) (id : String)
    → IsRetired excess (view w.db) (for_each excess (retire remote) w).1 id
unfolding for_each
for_each-IsRetired remote [] w id = inl refl
for_each-IsRetired remote (s ∷ rest) w id =
    let v : World = (retire remote s w).1 in
    bind_outcome (λ o. IsRetired (s ∷ rest) (view w.db) o.1 id) (retire remote s)
      (λ _. for_each rest (retire remote)) w
      (λ _ _.
        Round-IsRetired s rest (view w.db) v (for_each rest (retire remote) v).1 id
          ((for_each-Shrinks remote rest).absent (manifest_key s) v) (retire-Round remote s w id)
          (for_each-IsRetired remote rest v id))
      (λ _ _.
        Round-IsRetired s rest (view w.db) v v id (λ h. h) (retire-Round remote s w id) (inl refl))
