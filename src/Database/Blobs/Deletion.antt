-- ===== src/Database/Blobs/Deletion.antt =====
-- What DeleteSnapshot removes, whatever calls fail on the way.
use save_knot.Prelude.{
  Bool, true, false, not, ◌&&◌, List, [], ◌∷◌, String, ◌==◌, any, keep, subst, find, ◌≡◌, refl, ap,
  ◌∙◌, sym, arith, eq_iff, Bool-cases, ◌⊎◌, inl, inr, All, All-mono,
}
use save_knot.Database.Schema.{Database, BlobRow}
use save_knot.Io.{ok, World, Exec, pure, ◌>>=◌, ◌>>◌, external, statement, query, transaction}
use save_knot.Io.Refines.{Tx, bind_tx, Refines, refines_rules}
use save_knot.Io.Laws.{IsAtomic, transaction-IsAtomic, bind_world}
use save_knot.Io.Moves.{IsChange, Moves, Moves-begin, Moves-query, Moves-bind}
use save_knot.Database.Blobs.{
  find_blob, is_referenced, delete_row, orphans, delete_blob, is_claimable, remove_claimed,
  remove_orphan_blob, remove_orphans, delete_snapshot,
}

-- The removal of orphans keeps the references and the snapshots, and the row of a blob with the hash
-- if it is referenced.
pub record Spares (hash : String) (before after : World) : Type 0 where
  pub references : after.db.snapshot_blobs ≡ before.db.snapshot_blobs
  pub snapshots : after.db.snapshots ≡ before.db.snapshots
  pub row : is_referenced hash before.db ≡ true → find_blob hash after.db ≡ find_blob hash before.db

Spares-IsChange : (hash : String) → IsChange (Spares hash)
Spares-IsChange hash = record {
  same = λ v w e f. record {
    references = ap (λ db. db.snapshot_blobs) e;
    snapshots = ap (λ db. db.snapshots) e;
    row = λ _. ap (find_blob hash) e;
  };
  trans = λ u v w r s. record {
    references = s.references ∙ r.references;
    snapshots = s.snapshots ∙ r.snapshots;
    row = λ h. s.row (ap (any (λ x. x.hash == hash)) r.references ∙ h) ∙ r.row h;
  };
}

-- The file at the path stays as it is.
pub record KeepsFile (path : String) (before after : World) : Type 0 where
  pub file : after.disk path ≡ before.disk path

KeepsFile-IsChange : (path : String) → IsChange (KeepsFile path)
KeepsFile-IsChange path = record {
  same = λ v w e f. record { file = ap (λ disk. disk path) f };
  trans = λ u v w r s. record { file = s.file ∙ r.file };
}

find-delete_blob :
    (h hash : String) (referenced : Bool) (blobs : List BlobRow)
    → (hash == h) ≡ false ⊎ (referenced ≡ true)
    → find (λ b. b.hash == h) (keep (λ b. not (b.hash == hash && not referenced)) blobs)
      ≡ find (λ b. b.hash == h) blobs
unfolding find keep
find-delete_blob h hash referenced [] e = refl
find-delete_blob h hash referenced (b ∷ blobs) e = ground (
  arith,
  find-delete_blob h hash referenced blobs e,
  eq_iff b.hash h,
  eq_iff b.hash hash,
  eq_iff hash h,
)

other_or_referenced :
    (h hash : String) (db : Database)
    → is_referenced h db ≡ true
    → ((hash == h) ≡ false) ⊎ (is_referenced hash db ≡ true)
other_or_referenced h hash db r = elim (Bool-cases (hash == h)) [
  | inl e ↦ inr (rw ((eq_iff hash h).0 e) r)
  | inr ne ↦ inl ne
]

remove_claimed-Spares :
    (h hash path : String) (claimed : Bool) → Moves (Spares h) (remove_claimed hash path claimed)
unfolding remove_claimed delete_blob
remove_claimed-Spares h hash path claimed = record {
  at = λ w. record {
    references = ground arith;
    snapshots = ground arith;
    row = λ r. ground (
      arith,
      find-delete_blob h hash (is_referenced hash w.db) w.db.blobs
          (other_or_referenced h hash w.db r),
    );
  };
}

remove_claimed-KeepsFile :
    (p hash path : String) (claimed : Bool)
    → (path == p) ≡ false
    → Moves (KeepsFile p) (remove_claimed hash path claimed)
unfolding remove_claimed delete_blob
remove_claimed-KeepsFile p hash path claimed ne = record {
  at = λ w. record { file = ground (arith, ne) };
}

module _ (C : World → World → Type 0) (c : IsChange C) where
  remove_orphan_blob-Moves :
      (hash path : String)
      → ((claimed : Bool) → Moves C (remove_claimed hash path claimed))
      → Moves C (remove_orphan_blob hash path)
  unfolding remove_orphan_blob
  remove_orphan_blob-Moves hash path m =
      Moves-bind c (external (pure tt))
        (λ _. query (is_claimable hash) >>= remove_claimed hash path) (Moves-begin c)
        λ _.
          Moves-bind c (query (is_claimable hash)) (remove_claimed hash path)
            (Moves-query c (is_claimable hash)) m

  remove_orphans-Moves :
      (bs : List BlobRow) (w : World)
      → All (λ b. (claimed : Bool) → Moves C (remove_claimed b.hash b.local_path claimed)) bs
      → C w (remove_orphans bs w).1
  unfolding remove_orphans
  remove_orphans-Moves [] w e = c.same w w refl refl
  remove_orphans-Moves (b ∷ bs) w e =
      c.trans w (remove_orphan_blob b.hash b.local_path w).1 _
        ((remove_orphan_blob-Moves b.hash b.local_path e.0).at w)
        (remove_orphans-Moves bs (remove_orphan_blob b.hash b.local_path w).1 e.1)

-- The blob is not stored at the path.
abbrev pub IsElsewhere : String → BlobRow → Type 0
IsElsewhere p b = (b.local_path == p) ≡ false

pub remove_orphans-Spares :
    (h : String) (bs : List BlobRow) (w : World) → Spares h w (remove_orphans bs w).1
remove_orphans-Spares h bs w = remove_orphans-Moves (Spares h) (Spares-IsChange h) bs w (all_of bs)
  where
    all_of :
        (xs : List BlobRow)
        → All
            (λ b. (claimed : Bool) → Moves (Spares h) (remove_claimed b.hash b.local_path claimed))
            xs
    all_of [] = tt
    all_of (b ∷ xs) = (remove_claimed-Spares h b.hash b.local_path, all_of xs)

remove_orphans-KeepsFile :
    (p : String) (bs : List BlobRow) (w : World)
    → All (IsElsewhere p) bs
    → KeepsFile p w (remove_orphans bs w).1
remove_orphans-KeepsFile p bs w e = remove_orphans-Moves (KeepsFile p) (KeepsFile-IsChange p) bs w (
    All-mono (IsElsewhere p)
      (λ b. (claimed : Bool) → Moves (KeepsFile p) (remove_claimed b.hash b.local_path claimed)) bs
      (λ b ne claimed. remove_claimed-KeepsFile p b.hash b.local_path claimed ne) e)

abbrev pub deleting : String → Exec (List BlobRow)
deleting id = transaction (statement (delete_row id) >> query orphans)

abbrev pub deleting_tx : String → Tx (List BlobRow)
deleting_tx id = bind_tx (delete_row id) (λ _ db. ok (orphans db, db))

pub deleting-Refines : (id : String) → Refines (deleting id) (deleting_tx id)
deleting-Refines id = search refines_rules

pub deleting-IsAtomic : (id : String) → IsAtomic (deleting id)
deleting-IsAtomic id = search transaction-IsAtomic

-- The deletion of the row finds the orphans and keeps all blobs.
pub deleting_lem :
    (id : String) (db db' : Database) (bs : List BlobRow)
    → deleting_tx id db ≡ ok (bs, db')
    → (bs ≡ orphans db')
      × (db'.blobs ≡ db.blobs)
      × (db'.snapshots ≡ keep (λ r. not (r.id == id)) db.snapshots)
      × (db'.snapshot_blobs ≡ keep (λ r. not (r.snapshot_id == id)) db.snapshot_blobs)
unfolding delete_row
deleting_lem id db db' bs h = ground arith

orphans-IsElsewhere :
    (p : String) (db after : Database) (blobs : List BlobRow)
    → after.snapshot_blobs ≡ db.snapshot_blobs
    → All (λ b. (is_referenced b.hash after ≡ true) ⊎ IsElsewhere p b) blobs
    → All (IsElsewhere p) (keep (λ b. not (is_referenced b.hash db)) blobs)
unfolding keep
orphans-IsElsewhere p db after [] e h = tt
orphans-IsElsewhere p db after (b ∷ blobs) e h =
    let same : is_referenced b.hash after ≡ is_referenced b.hash db =
      ap (any (λ r. r.hash == b.hash)) e in
    elim (Bool-cases (is_referenced b.hash db)) [
      | inl r ↦ rw r (orphans-IsElsewhere p db after blobs e h.1)
      | inr n ↦ rw n (ground (arith, h.0, same, n), orphans-IsElsewhere p db after blobs e h.1)
    ]

pub delete_snapshot_lem : (id : String) → delete_snapshot id ≡ (deleting id >>= remove_orphans)
unfolding delete_snapshot
delete_snapshot_lem id = refl

-- A blob that stays referenced keeps its row, and a path at which no unreferenced blob is stored
-- keeps its file.
abbrev pub IsSpared : String → String → World → World → Type 0
IsSpared h p before after =
    (is_referenced h after.db ≡ true → find_blob h after.db ≡ find_blob h before.db)
    × (All (λ b. (is_referenced b.hash after.db ≡ true) ⊎ IsElsewhere p b) before.db.blobs
        → after.disk p ≡ before.disk p)

removed-IsSpared :
    (h p : String) (w w₁ : World) (bs : List BlobRow)
    → bs ≡ orphans w₁.db
    → w₁.db.blobs ≡ w.db.blobs
    → w₁.disk ≡ w.disk
    → IsSpared h p w (remove_orphans bs w₁).1
removed-IsSpared h p w w₁ bs found blobs disk =
    let s : Spares h w₁ (remove_orphans bs w₁).1 = remove_orphans-Spares h bs w₁ in
    (
      λ r.
          s.row (sym (ap (any (λ x. x.hash == h)) s.references) ∙ r)
          ∙ ap (find (λ b. b.hash == h)) blobs,
      λ a.
          (remove_orphans-KeepsFile p bs w₁ (
            rw found (
              orphans-IsElsewhere p w₁.db (remove_orphans bs w₁).1.db w₁.db.blobs s.references (
                subst
                  (All λ b.
                    (is_referenced b.hash (remove_orphans bs w₁).1.db ≡ true) ⊎ IsElsewhere p b)
                  (sym blobs) a)))).file
          ∙ ap (λ d. d p) disk,
    )

deleted-IsSpared :
    (id : String) (w : World) (h p : String) (bs : List BlobRow)
    → (deleting id w).0 ≡ ok bs
    → IsSpared h p w (remove_orphans bs (deleting id w).1).1
deleted-IsSpared id w h p bs e =
    let (found, blobs, _, _) =
      deleting_lem id w.db (deleting id w).1.db bs ((deleting-Refines id).success w bs e) in
    removed-IsSpared h p w (deleting id w).1 bs found blobs ((deleting-Refines id).disk w)

delete_snapshot_spares :
    (id hash path : String) (w : World) → IsSpared hash path w (delete_snapshot id w).1
delete_snapshot_spares id h p w = rw delete_snapshot_lem (
    bind_world (IsSpared h p w) (deleting id) remove_orphans w
      (λ bs e. deleted-IsSpared id w h p bs e)
      (λ x e. (
        λ _. ap (find_blob h) ((deleting-IsAtomic id).unchanged w x e),
        λ _. ap (λ d. d p) ((deleting-Refines id).disk w),
      )))

-- Whatever calls fail on the way, DeleteSnapshot keeps the row of every blob that a snapshot refers to
-- afterwards.
pub delete_snapshot-find_blob :
    (id hash : String) (w : World)
    → is_referenced hash (delete_snapshot id w).1.db ≡ true
    → find_blob hash (delete_snapshot id w).1.db ≡ find_blob hash w.db
delete_snapshot-find_blob id hash w = (delete_snapshot_spares id hash "" w).0

-- Whatever calls fail on the way, DeleteSnapshot keeps the file at a path, if every blob that is stored
-- there has a reference afterwards.
pub delete_snapshot_disk :
    (id path : String) (w : World)
    → All
        (λ b. (is_referenced b.hash (delete_snapshot id w).1.db ≡ true) ⊎ IsElsewhere path b)
        w.db.blobs
    → (delete_snapshot id w).1.disk path ≡ w.disk path
delete_snapshot_disk id path w = (delete_snapshot_spares id "" path w).1
