-- ===== src/Database/Views.antt =====
-- The database as its clients see it: which snapshot is stored under an ID. Each operation of
-- internal/database/store.go on snapshots against its effect on this view.
use save_knot.Prelude.{
  Bool, true, false, not, ◌&&◌, Option, none, some, List, [], ◌∷◌, String, ◌==◌, any, keep, find,
  if◌then◌else◌, ◌≡◌, refl, sym, ap, ◌∙◌, arith, eq_iff, inl, inr,
}
use save_knot.Core.{Snapshot}
use save_knot.Io.{Error, Result, err, World, Exec}
use save_knot.Io.Laws.{Result-cases, bind_outcome}
use save_knot.Database.Schema.{Database, SnapshotRow}
use save_knot.Database.Snapshots.{
  find_snapshot, manifest_of, save_snapshot, import_snapshot, mark_snapshot_remote, synced,
}
use save_knot.Database.Snapshots.Saving.{save_snapshot_outcome, find-save_snapshot}
use save_knot.Database.Snapshots.Importing.{
  import_snapshot_outcome, remarked, mark_snapshot_remote_lem, mark_snapshot_remote-IsAtomic,
  any-cleared,
}
use save_knot.Database.Snapshots.Consistency.{
  AreReferenced, expected, save_snapshot-AreReferenced, import_snapshot-AreReferenced,
  mark_snapshot_remote-AreReferenced,
}
use save_knot.Database.Blobs.{delete_snapshot, remove_orphans}
use save_knot.Database.Blobs.Deletion.{
  Spares, remove_orphans-Spares, deleting, deleting-Refines, deleting-IsAtomic, deleting_lem,
  delete_snapshot_lem,
}

abbrev pub View : Type 0
View = String → Option Snapshot

abbrev pub view : Database → View
view db id = find_snapshot id db

pub data Operation : Type 0 where
  saves : Snapshot → Operation
  imports : Snapshot → Operation
  marks : String → String → Operation
  deletes : String → Operation

-- What an operation means
abbrev pub update : Operation → View → View
update (saves s) v id = if s.id == id then some s else v id
update (imports s) v id = if s.id == id then some (synced s) else v id
update (marks i state) v id = if i == id then remarked state (v id) else v id
update (deletes i) v id = if i == id then none else v id

-- What carries it out
abbrev pub perform : Operation → Exec (Unit {0})
perform (saves s) = save_snapshot s
perform (imports s) = import_snapshot s
perform (marks i state) = mark_snapshot_remote i state
perform (deletes i) = delete_snapshot i

abbrev pub SameView : View → View → Type 0
SameView v w = (id : String) → v id ≡ w id

-- The view after an operation: updated if it succeeds; updated or as before if it fails.
pub data Updates (op : Operation) (before : View) : Result (Unit {0}) → View → Type 0 where
  applied :
      (r : Result (Unit {0})) (after : View)
      → SameView after (update op before)
      → Updates op before r after
  skipped : (e : Error) (after : View) → SameView after before → Updates op before (err e) after

-- The outcome of an operation: its effect on the view, and the references.
pub record IsStep (op : Operation) (before : Database) (o : Result (Unit {0}) × World)
    : Type 0 where
  pub updates : Updates op (view before) o.0 (view o.1.db)
  pub references : AreReferenced before → AreReferenced o.1.db

failed-IsStep :
    (op : Operation) (before : Database) (e : Error) (o : Result (Unit {0}) × World)
    → o.0 ≡ err e
    → o.1.db ≡ before
    → IsStep op before o
failed-IsStep op before e o r d = record {
  updates = rw r (skipped e (view o.1.db) (λ id. ap (find_snapshot id) d));
  references = λ a. rw d a;
}

save_snapshot-IsStep : (s : Snapshot) (w : World) → IsStep (saves s) w.db (save_snapshot s w)
save_snapshot-IsStep s w = elim (save_snapshot_outcome s w) [
  | inl (r, _, _) ↦ record {
    updates =
        applied (save_snapshot s w).0 (view (save_snapshot s w).1.db)
          (λ id. find-save_snapshot s w id r);
    references = save_snapshot-AreReferenced s w;
  }
  | inr (e, r, d) ↦ failed-IsStep (saves s) w.db e (save_snapshot s w) r d
]

import_snapshot-IsStep : (s : Snapshot) (w : World) → IsStep (imports s) w.db (import_snapshot s w)
import_snapshot-IsStep s w = elim (import_snapshot_outcome s w) [
  | inl (_, _, d) ↦ record {
    updates = applied (import_snapshot s w).0 (view (import_snapshot s w).1.db) d.snapshots;
    references = import_snapshot-AreReferenced s w;
  }
  | inr (e, r, d) ↦ failed-IsStep (imports s) w.db e (import_snapshot s w) r d
]

mark_snapshot_remote-IsStep :
    (i state : String) (w : World) → IsStep (marks i state) w.db (mark_snapshot_remote i state w)
mark_snapshot_remote-IsStep i state w = elim (Result-cases (mark_snapshot_remote i state w).0) [
  | inl (_, r) ↦ record {
    updates =
        applied (mark_snapshot_remote i state w).0 (view (mark_snapshot_remote i state w).1.db)
          (λ id. (mark_snapshot_remote_lem i state w id r).1);
    references = mark_snapshot_remote-AreReferenced i state w r;
  }
  | inr (e, r) ↦
      failed-IsStep (marks i state) w.db e (mark_snapshot_remote i state w) r
        ((mark_snapshot_remote-IsAtomic i state).unchanged w e r)
]

find-deleted :
    (i j : String) (rows : List SnapshotRow)
    → manifest_of (find (λ r. r.id == j) (keep (λ r. not (r.id == i)) rows))
      ≡ (if i == j then none else manifest_of (find (λ r. r.id == j) rows))
unfolding find keep
find-deleted i j [] = ground arith
find-deleted i j (r ∷ rows) =
    ground (arith, find-deleted i j rows, eq_iff r.id i, eq_iff r.id j, eq_iff i j)

deleted-expected :
    (h : String) (hit : Bool) (o : Option Snapshot)
    → (not hit && expected o h) ≡ expected (if hit then none else o) h
deleted-expected h true o = refl
deleted-expected h false o = refl

-- The tables without a snapshot and its references
deleted-AreReferenced :
    (i : String) (db after : Database)
    → after.snapshots ≡ keep (λ r. not (r.id == i)) db.snapshots
    → after.snapshot_blobs ≡ keep (λ r. not (r.snapshot_id == i)) db.snapshot_blobs
    → AreReferenced db
    → AreReferenced after
deleted-AreReferenced i db after rows refs a = record {
  exact = λ j h.
      ap (any (λ r. r.snapshot_id == j && r.hash == h)) refs
      ∙ any-cleared i j h db.snapshot_blobs
      ∙ ap (λ b. not (i == j) && b) (a.exact j h)
      ∙ deleted-expected h (i == j) (find_snapshot j db)
      ∙ ap (λ o. expected o h)
          (sym (
            ap (λ rs. manifest_of (find (λ r. r.id == j) rs)) rows
            ∙ find-deleted i j db.snapshots));
}

pub delete_snapshot-IsStep :
    (i : String) (w : World) → IsStep (deletes i) w.db (delete_snapshot i w)
delete_snapshot-IsStep i w = rw delete_snapshot_lem (
    bind_outcome (IsStep (deletes i) w.db) (deleting i) remove_orphans w
      (λ bs r.
        let v : World = (deleting i w).1 in
        let (_, _, rows, refs) =
          deleting_lem i w.db v.db bs ((deleting-Refines i).success w bs r) in
        let s : Spares "" v (remove_orphans bs v).1 = remove_orphans-Spares "" bs v in
        record {
          updates = applied (remove_orphans bs v).0 (view (remove_orphans bs v).1.db) (λ id.
              ap (λ rs. manifest_of (find (λ x. x.id == id) rs)) (s.snapshots ∙ rows)
              ∙ find-deleted i id w.db.snapshots);
          references =
              deleted-AreReferenced i w.db (remove_orphans bs v).1.db (s.snapshots ∙ rows)
                (s.references ∙ refs);
        })
      (λ e r.
        failed-IsStep (deletes i) w.db e (err e, (deleting i w).1) refl
          ((deleting-IsAtomic i).unchanged w e r)))

perform-IsStep : (op : Operation) (w : World) → IsStep op w.db (perform op w)
perform-IsStep (saves s) w = save_snapshot-IsStep s w
perform-IsStep (imports s) w = import_snapshot-IsStep s w
perform-IsStep (marks i state) w = mark_snapshot_remote-IsStep i state w
perform-IsStep (deletes i) w = delete_snapshot-IsStep i w

-- Operations one after another, each result noted
unfoldable pub perform_all : List Operation → World → List (Result (Unit {0})) × World
perform_all [] w = ([], w)
perform_all (op ∷ ops) w =
    let (r, w₁) = perform op w in let (rs, w₂) = perform_all ops w₁ in (r ∷ rs, w₂)

-- The abstract behaviours: each operation updates the view whole, or fails and leaves it.
pub data Runs : View → List Operation → List (Result (Unit {0})) → View → Type 0 where
  stop : (v w : View) → SameView w v → Runs v [] [] w
  next :
      (u v w : View) (op : Operation) (ops : List Operation) (r : Result (Unit {0}))
      (rs : List (Result (Unit {0})))
      → Updates op u r v
      → Runs v ops rs w
      → Runs u (op ∷ ops) (r ∷ rs) w

perform_all-Runs :
    (ops : List Operation) (w : World)
    → Runs (view w.db) ops (perform_all ops w).0 (view (perform_all ops w).1.db)
unfolding perform_all
perform_all-Runs [] w = stop (view w.db) (view w.db) (λ id. refl)
perform_all-Runs (op ∷ ops) w =
    next (view w.db) (view (perform op w).1.db) (view (perform_all ops (perform op w).1).1.db) op
      ops (perform op w).0 (perform_all ops (perform op w).1).0 (perform-IsStep op w).updates
      (perform_all-Runs ops (perform op w).1)

perform_all-AreReferenced :
    (ops : List Operation) (w : World) → AreReferenced w.db → AreReferenced (perform_all ops w).1.db
unfolding perform_all
perform_all-AreReferenced [] w a = a
perform_all-AreReferenced (op ∷ ops) w a =
    perform_all-AreReferenced ops (perform op w).1 ((perform-IsStep op w).references a)

-- For every list of saves, imports, marks and deletions of snapshots, and whatever calls fail on the
-- way: what is found under the IDs goes the way of the abstract view, where an operation that
-- succeeds has updated the view and one that fails has updated it whole or left it. If the
-- references of every snapshot were the hashes of its manifest, they are so again.
pub perform_all-refines :
    (ops : List Operation) (w : World)
    → AreReferenced w.db
    → Runs (view w.db) ops (perform_all ops w).0 (view (perform_all ops w).1.db)
      × AreReferenced (perform_all ops w).1.db
perform_all-refines ops w a = (perform_all-Runs ops w, perform_all-AreReferenced ops w a)
