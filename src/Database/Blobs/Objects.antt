-- ===== src/Database/Blobs/Objects.antt =====
-- The deletion of a snapshot against the remote storage.
use save_knot.Prelude.{Bool, true, false, List, [], ◌∷◌, String, ◌≡◌, refl, ◌∙◌, arith, inl, inr}
use save_knot.Io.{
  Result, ok, err, World, Exec, pure, ◌>>=◌, ◌>>◌, external, apply_statement, statement, query,
  commit_or_roll_back, committed, transaction,
}
use save_knot.Io.Laws.{Result-cases}
use save_knot.Io.Reads.{Reads-query}
use save_knot.Database.Schema.{Database, BlobRow}
use save_knot.Database.Blobs.{
  delete_row, orphans, delete_blob, is_claimable, remove_file, remove_claimed, remove_orphan_blob,
  remove_orphans, delete_snapshot,
}

-- An operation that changes no object of the remote storage, whether it returns or fails
pub record KeepsObjects {ℓ} {A : Type ℓ} (m : Exec A) : Type ℓ where
  pub objects : (w : World) → (m w).1.objects ≡ w.objects

KeepsObjects-pure {ℓ} : {A : Type ℓ} (a : A) → KeepsObjects (pure a)
KeepsObjects-pure a = record { objects = λ w. refl }

external-objects {ℓ} :
    {A : Type ℓ} (m : Exec A) (w : World) (faults : List Bool)
    → KeepsObjects m
    → w.faults ≡ faults
    → (external m w).1.objects ≡ w.objects
unfolding external
external-objects m w [] k e = ground (arith, e, k.objects w)
external-objects m w (b ∷ later) k e = ground (arith, e, k.objects (record w { faults = later }))

KeepsObjects-external {ℓ} : {A : Type ℓ} (m : Exec A) → KeepsObjects m → KeepsObjects (external m)
KeepsObjects-external m k = record { objects = λ w. external-objects m w w.faults k refl }

apply_statement-objects {ℓ} :
    {A : Type ℓ} (r : Result (A × Database)) (w : World)
    → (apply_statement r w).1.objects ≡ w.objects
apply_statement-objects (ok (a, db)) w = refl
apply_statement-objects (err e) w = refl

KeepsObjects-statement {ℓ} :
    {A : Type ℓ} (f : Database → Result (A × Database)) → KeepsObjects (statement f)
unfolding statement
KeepsObjects-statement f =
    KeepsObjects-external (λ w. apply_statement (f w.db) w)
      (record { objects = λ w. apply_statement-objects (f w.db) w })

KeepsObjects-query {ℓ} : {A : Type ℓ} (f : Database → A) → KeepsObjects (query f)
KeepsObjects-query f = record { objects = (Reads-query f).objects }

KeepsObjects-bind {ℓ κ} :
    {A : Type ℓ} {B : Type κ} (m : Exec A) (f : A → Exec B)
    → KeepsObjects m
    → ((a : A) → KeepsObjects (f a))
    → KeepsObjects (m >>= f)
unfolding ◌>>=◌
KeepsObjects-bind m f k l = record {
  objects = λ w. elim (Result-cases (m w).0) [
    | inl (a, e) ↦ rw e ((l a).objects (m w).1 ∙ k.objects w)
    | inr (x, e) ↦ rw e (k.objects w)
  ];
}

settled-objects {ℓ} :
    {A : Type ℓ} (db : Database) (o : Result A × World)
    → (elim o.0 as (λ _. Result A × World) [
      | ok b ↦ (ok b, o.1)
      | err e ↦ (err e, record o.1 { db = db })
    ]).1.objects
      ≡ o.1.objects
settled-objects db (ok b, w) = refl
settled-objects db (err e, w) = refl

commit-objects {ℓ} :
    {A : Type ℓ} (db : Database) (r : Result A) (w : World)
    → (commit_or_roll_back db r w).1.objects ≡ w.objects
commit-objects db (ok a) w =
    settled-objects db (external (pure a) w)
    ∙ (KeepsObjects-external (pure a) (KeepsObjects-pure a)).objects w
commit-objects db (err e) w = refl

KeepsObjects-committed {ℓ} : {A : Type ℓ} (m : Exec A) → KeepsObjects m → KeepsObjects (committed m)
unfolding committed
KeepsObjects-committed m k = record {
  objects = λ w. commit-objects w.db (m w).0 (m w).1 ∙ k.objects w;
}

KeepsObjects-transaction {ℓ} :
    {A : Type ℓ} (m : Exec A) → KeepsObjects m → KeepsObjects (transaction m)
unfolding transaction
KeepsObjects-transaction m k =
    KeepsObjects-bind (external (pure tt)) (λ _. committed m)
      (KeepsObjects-external (pure tt) (KeepsObjects-pure tt)) (λ _. KeepsObjects-committed m k)

KeepsObjects-remove_file : (path : String) → KeepsObjects (remove_file path)
unfolding remove_file external
KeepsObjects-remove_file path = record { objects = λ w. ground arith }

remove_claimed-KeepsObjects :
    (hash path : String) (claimed : Bool) → KeepsObjects (remove_claimed hash path claimed)
unfolding remove_claimed
remove_claimed-KeepsObjects hash path false = KeepsObjects-pure tt
remove_claimed-KeepsObjects hash path true =
    KeepsObjects-committed (remove_file path >> statement (delete_blob hash)) (
      KeepsObjects-bind (remove_file path) (λ _. statement (delete_blob hash))
        (KeepsObjects-remove_file path) (λ _. KeepsObjects-statement (delete_blob hash)))

remove_orphan_blob-KeepsObjects : (hash path : String) → KeepsObjects (remove_orphan_blob hash path)
unfolding remove_orphan_blob
remove_orphan_blob-KeepsObjects hash path =
    KeepsObjects-bind (external (pure tt))
      (λ _. query (is_claimable hash) >>= remove_claimed hash path)
      (KeepsObjects-external (pure tt) (KeepsObjects-pure tt))
      (λ _.
        KeepsObjects-bind (query (is_claimable hash)) (remove_claimed hash path)
          (KeepsObjects-query (is_claimable hash)) (remove_claimed-KeepsObjects hash path))

remove_orphans-objects :
    (bs : List BlobRow) (w : World) → (remove_orphans bs w).1.objects ≡ w.objects
unfolding remove_orphans
remove_orphans-objects [] w = refl
remove_orphans-objects (b ∷ rest) w =
    remove_orphans-objects rest (remove_orphan_blob b.hash b.local_path w).1
    ∙ (remove_orphan_blob-KeepsObjects b.hash b.local_path).objects w

pub delete_snapshot-KeepsObjects : (id : String) → KeepsObjects (delete_snapshot id)
unfolding delete_snapshot
delete_snapshot-KeepsObjects id =
    KeepsObjects-bind (transaction (statement (delete_row id) >> query orphans)) remove_orphans
      (KeepsObjects-transaction (statement (delete_row id) >> query orphans) (
        KeepsObjects-bind (statement (delete_row id)) (λ _. query orphans)
          (KeepsObjects-statement (delete_row id)) (λ _. KeepsObjects-query orphans)))
      (λ bs. record { objects = remove_orphans-objects bs })
