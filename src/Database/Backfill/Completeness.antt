-- ===== src/Database/Backfill/Completeness.antt =====
-- What the migration of blob references leaves in the table.
use save_knot.Prelude.{
  Bool, not, ◌&&◌, ◌||◌, List, [], ◌∷◌, ◌++◌, String, ◌==◌, any, ◌≡◌, refl, ap, ◌∙◌, arith, eq_iff,
  any-append, Bool-cases, inl, inr,
}
use save_knot.Database.Schema.{Database, SnapshotRow, BlobReference}
use save_knot.Database.Snapshots.{has_reference, hashes, insert_reference}
use save_knot.Io.{Result, ok, err, World}
use save_knot.Io.Laws.{Result-cases}
use save_knot.Io.Refines.{Tx, bind_tx, for_each_tx, Refines, refines_rules}
use save_knot.Database.Backfill.{references_of, snapshot_blob_references, backfill_snapshot_blobs}

abbrev is_reference : String → String → BlobReference → Bool
is_reference j h r = r.snapshot_id == j && r.hash == h

insert_one_lem :
    (j h : String) (r : BlobReference) (db after : Database)
    → insert_reference r.snapshot_id r.hash db ≡ ok (tt, after)
    → has_reference j h after ≡ (has_reference j h db || is_reference j h r)
unfolding insert_reference any
insert_one_lem j h r db after k = elim (Bool-cases (has_reference r.snapshot_id r.hash db)) [
  | inl old ↦
      let same : db ≡ after = ground (arith, old, k) in
      rw (← same) (elim (Bool-cases (is_reference j h r)) [
        | inl e ↦ ground (arith, old, e, eq_iff r.snapshot_id j, eq_iff r.hash h)
        | inr e ↦ ground (arith, e)
      ])
  | inr new ↦
      let same : db.snapshot_blobs ++ r ∷ [] ≡ after.snapshot_blobs = ground (arith, new, k) in
      rw (← same) (any-append (is_reference j h) db.snapshot_blobs (r ∷ []) ∙ ground arith)
]

insert_all_lem :
    (j h : String) (refs : List BlobReference) (db after : Database)
    → for_each_tx refs (λ r. insert_reference r.snapshot_id r.hash) db ≡ ok (tt, after)
    → has_reference j h after ≡ (has_reference j h db || any (is_reference j h) refs)
unfolding for_each_tx any
insert_all_lem j h [] db after e = ground (arith, e)
insert_all_lem j h (r ∷ refs) db after e =
    elim (Result-cases (insert_reference r.snapshot_id r.hash db)) [
      | inl ((_, db₁), k) ↦
          insert_all_lem j h refs db₁ after (rw k at e)
          ∙ ap (λ b. b || any (is_reference j h) refs) (insert_one_lem j h r db db₁ k)
          ∙ ground arith
      | inr (x, k) ↦
          let bad : ◌≡◌ {A = Result (Unit {0} × Database)} (err x) (ok (tt, after)) = (rw k at e) in
          cc
    ]

references_of-any :
    (j h id : String) (hs : List String)
    → any (is_reference j h) (references_of id hs)
      ≡ (id == j && (not (h == "") && any (λ i. i == h) hs))
unfolding any
references_of-any j h id [] = ground arith
references_of-any j h id (i ∷ hs) =
    ground (arith, references_of-any j h id hs, eq_iff i h, eq_iff i "", eq_iff h "")

references_lem :
    (j h : String) (rows : List SnapshotRow)
    → any (is_reference j h) (snapshot_blob_references rows)
      ≡ any (λ r. r.id == j && (not (h == "") && any (λ i. i == h) (hashes r.manifest))) rows
unfolding snapshot_blob_references any
references_lem j h [] = refl
references_lem j h (r ∷ rows) =
    any-append (is_reference j h) (references_of r.id (hashes r.manifest))
      (snapshot_blob_references rows)
    ∙ ground (arith, references_of-any j h r.id (hashes r.manifest), references_lem j h rows)

abbrev backfill_tx : Tx (Unit {0})
backfill_tx =
    bind_tx (λ db. ok (snapshot_blob_references db.snapshots, db))
      (λ refs. for_each_tx refs (λ r. insert_reference r.snapshot_id r.hash))

backfill-Refines : Refines backfill_snapshot_blobs backfill_tx
unfolding backfill_snapshot_blobs
backfill-Refines = search refines_rules

-- After a migration that returns no error, a snapshot refers to a hash if it did before, or if a row
-- with its ID has a manifest that names the hash, and the hash is not empty.
pub backfill_snapshot_blobs_lem :
    (j h : String) (w : World)
    → (backfill_snapshot_blobs w).0 ≡ ok tt
    → has_reference j h (backfill_snapshot_blobs w).1.db ≡ (
        has_reference j h w.db
        || any
            (λ r. r.id == j && (not (h == "") && any (λ i. i == h) (hashes r.manifest)))
            w.db.snapshots)
backfill_snapshot_blobs_lem j h w e =
    insert_all_lem j h (snapshot_blob_references w.db.snapshots) w.db
      (backfill_snapshot_blobs w).1.db (backfill-Refines.success w tt e)
    ∙ ap (λ b. has_reference j h w.db || b) (references_lem j h w.db.snapshots)
