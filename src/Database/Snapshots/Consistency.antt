-- ===== src/Database/Snapshots/Consistency.antt =====
-- The invariant of the snapshot tables and the operations that keep it.
use save_knot.Prelude.{
  Bool, false, not, ◌&&◌, Option, none, some, String, ◌==◌, any, if◌then◌else◌, ◌≡◌, ◌∙◌, arith,
  eq_iff, inl, inr,
}
use save_knot.Core.{Snapshot}
use save_knot.Database.Schema.{Database}
use save_knot.Io.{ok, World}
use save_knot.Database.Snapshots.{
  has_reference, hashes, save_snapshot, import_snapshot, mark_snapshot_remote, find_snapshot,
}
use save_knot.Database.Snapshots.Saving.{
  save_snapshot_exact, save_snapshot_outcome, references-save_snapshot, find-save_snapshot,
  has_row-find,
}
use save_knot.Database.Snapshots.Importing.{
  import_snapshot_exact, import_snapshot_outcome, find-imported, references-imported, remarked,
  mark_snapshot_remote_lem,
}

-- The references of a snapshot are exactly the hashes of its manifest; without a snapshot there are
-- none.
abbrev pub expected : Option Snapshot → String → Bool
expected none h = false
expected (some s) h = not (h == "") && any (λ i. i == h) (hashes s)

pub record AreReferenced (db : Database) : Type 0 where
  pub exact : (j h : String) → has_reference j h db ≡ expected (find_snapshot j db) h

remarked-expected :
    (state h : String) (hit : Bool) (o : Option Snapshot)
    → expected o h ≡ expected (if hit then remarked state o else o) h
remarked-expected state h hit o = ground arith

save_snapshot_done-AreReferenced :
    (s : Snapshot) (w : World)
    → (save_snapshot s w).0 ≡ ok tt
    → AreReferenced w.db
    → AreReferenced (save_snapshot s w).1.db
save_snapshot_done-AreReferenced s w done v = record {
  exact = λ j h. ground (
    arith,
    references-save_snapshot s w j h done,
    find-save_snapshot s w j done,
    v.exact j h,
    v.exact s.id h,
    (save_snapshot_exact s w done).0,
    has_row-find s.id w.db.snapshots,
    eq_iff s.id j,
  );
}

import_snapshot_done-AreReferenced :
    (s : Snapshot) (w : World)
    → (import_snapshot s w).0 ≡ ok tt
    → AreReferenced w.db
    → AreReferenced (import_snapshot s w).1.db
import_snapshot_done-AreReferenced s w done v = rw (import_snapshot_exact s w done).1 (record {
  exact =
      λ j h. ground (arith, references-imported s w.db j h, find-imported s w.db j, v.exact j h);
})

-- A successful MarkSnapshotRemote keeps the references of every snapshot the hashes of its manifest.
pub mark_snapshot_remote-AreReferenced :
    (id state : String) (w : World)
    → (mark_snapshot_remote id state w).0 ≡ ok tt
    → AreReferenced w.db
    → AreReferenced (mark_snapshot_remote id state w).1.db
mark_snapshot_remote-AreReferenced id state w done v = record {
  exact = λ j h.
      let (_, found, refs) = mark_snapshot_remote_lem id state w j done in
      rw (found, refs) (v.exact j h ∙ remarked-expected state h (id == j) (find_snapshot j w.db));
}

-- SaveSnapshot keeps the references of every snapshot the hashes of its manifest, whether it succeeds or not.
pub save_snapshot-AreReferenced :
    (s : Snapshot) (w : World) → AreReferenced w.db → AreReferenced (save_snapshot s w).1.db
save_snapshot-AreReferenced s w v = elim (save_snapshot_outcome s w) [
  | inl (h, _, _) ↦ save_snapshot_done-AreReferenced s w h v
  | inr (_, _, h) ↦ rw h v
]

-- ImportSnapshot keeps the references of every snapshot the hashes of its manifest, whether it succeeds or not, also where it replaces the
-- manifest of a known snapshot.
pub import_snapshot-AreReferenced :
    (s : Snapshot) (w : World) → AreReferenced w.db → AreReferenced (import_snapshot s w).1.db
import_snapshot-AreReferenced s w v = elim (import_snapshot_outcome s w) [
  | inl (h, _, _) ↦ import_snapshot_done-AreReferenced s w h v
  | inr (_, _, h) ↦ rw h v
]
