-- ===== src/Database/Snapshots/Saving.antt =====
-- What SaveSnapshot and ImportSnapshot do to the tables.
use save_knot.Prelude.{
  ℕ, Bool, true, false, not, ◌&&◌, ◌||◌, none, some, List, [], ◌∷◌, ◌++◌, map, String, ◌==◌, any,
  find, if◌then◌else◌, ◌≡◌, refl, ◌∙◌, arith, eq_iff, eq_refl, any-append, Bool-cases, ◌⊎◌, inl,
  inr,
}
use save_knot.Core.{Game, Snapshot}
use save_knot.Database.Schema.{Database, SnapshotRow, BlobReference, unix_milli}
use save_knot.Io.{Error, ok, err, World, constraint, statement}
use save_knot.Io.Refines.{for_each_tx, Refines, refines_rules, Refines-statement, Refines-for_each}
use save_knot.Io.Laws.{Result-cases, IsAtomic, transaction-IsAtomic}
use save_knot.Database.Snapshots.{
  has_game, has_row, has_reference, hashes, new_hashes, row_of, insert_row, insert_reference,
  set_backup_times, insert_references, save_snapshot, insert_references_tx, save_snapshot_tx,
  find_snapshot,
}

pub insert_references-Refines :
    (s : Snapshot) → Refines (insert_references s) (insert_references_tx s)
unfolding insert_references
insert_references-Refines s =
    Refines-for_each (new_hashes [] (hashes s)) (λ hash. statement (insert_reference s.id hash))
      (λ hash. insert_reference s.id hash) (λ hash. Refines-statement (insert_reference s.id hash))

pub save_snapshot-Refines : (s : Snapshot) → Refines (save_snapshot s) (save_snapshot_tx s)
unfolding save_snapshot
save_snapshot-Refines s = search (refines_rules, insert_references-Refines)

pub has_row-find :
    (j : String) (rows : List SnapshotRow)
    → any (λ r. r.id == j) rows ≡ false
    → find (λ r. r.id == j) rows ≡ none
unfolding any find
has_row-find j [] h = refl
has_row-find j (r ∷ rows) h = ground (arith, has_row-find j rows)

-- Adding references one by one, each at most once.
unfoldable pub add_references : String → List String → List BlobReference → List BlobReference
add_references id [] refs = refs
add_references id (h ∷ hs) refs = add_references id hs (
    if any (λ r. r.snapshot_id == id && r.hash == h) refs
    then refs
    else refs ++ record { snapshot_id = id; hash = h } ∷ [])

pub insert_references_lem :
    (id : String) (hs : List String) (db : Database)
    → has_row id db ≡ true
    → for_each_tx hs (insert_reference id) db
      ≡ ok (tt, record db { snapshot_blobs = add_references id hs db.snapshot_blobs })
unfolding for_each_tx insert_reference add_references
insert_references_lem id [] db e = refl
insert_references_lem id (h ∷ hs) db e = elim (Bool-cases (has_reference id h db)) [
  | inl old ↦ rw old (insert_references_lem id hs db e)
  | inr new ↦ rw (new, e) (insert_references_lem id hs _ e)
]

search_pair :
    (id j i h : String) (refs : List BlobReference)
    → (id == j) ≡ true
    → (i == h) ≡ true
    → any (λ r. r.snapshot_id == id && r.hash == i) refs
      ≡ any (λ r. r.snapshot_id == j && r.hash == h) refs
search_pair id j i h refs p q = rw ((eq_iff id j).0 p, (eq_iff i h).0 q)

search_one :
    (i h : String) (hs : List String)
    → (i == h) ≡ true
    → any (λ s. s == i) hs ≡ any (λ s. s == h) hs
search_one i h hs p = rw ((eq_iff i h).0 p)

pub any-add_references :
    (j h id : String) (hs : List String) (refs : List BlobReference)
    → any (λ r. r.snapshot_id == j && r.hash == h) (add_references id hs refs)
      ≡ (any (λ r. r.snapshot_id == j && r.hash == h) refs || (id == j && any (λ i. i == h) hs))
unfolding add_references any
any-add_references j h id [] refs = ground arith
any-add_references j h id (i ∷ hs) refs =
    elim (Bool-cases (any (λ r. r.snapshot_id == id && r.hash == i) refs)) [
      | inl old ↦
          rw old (ground (arith, any-add_references j h id hs refs, search_pair id j i h refs))
      | inr new ↦
          let more : List BlobReference = refs ++ record { snapshot_id = id; hash = i } ∷ [] in
          rw new (
            ground (
              arith,
              any-add_references j h id hs more,
              any-append (λ r. r.snapshot_id == j && r.hash == h) refs
                  (record { snapshot_id = id; hash = i } ∷ []),
            ))
    ]

pub any-new_hashes :
    (h : String) (seen hs : List String)
    → any (λ i. i == h) (new_hashes seen hs)
      ≡ (not (h == "") && any (λ i. i == h) hs && not (any (λ i. i == h) seen))
unfolding new_hashes any
any-new_hashes h seen [] = ground arith
any-new_hashes h seen (i ∷ hs) = ground (
  arith,
  any-new_hashes h seen hs,
  any-new_hashes h (i ∷ seen) hs,
  search_one i h seen,
  eq_iff i h,
)

-- The games with the times of a backup of one of them.
abbrev pub stamped : String → ℕ → List Game → List Game
stamped id time =
    map λ g. if g.id == id then record g { last_backup = some time; last_change = some time } else g

-- The tables after a snapshot is saved.
abbrev pub saved : Snapshot → Database → Database
saved s db = record db {
  snapshots = db.snapshots ++ row_of s ∷ [];
  snapshot_blobs = add_references s.id (new_hashes [] (hashes s)) db.snapshot_blobs;
  games = stamped s.game_id (unix_milli s.created_at) db.games;
}

abbrev pub accepts : Snapshot → Database → Bool
accepts s db = not (has_row s.id db) && has_game s.game_id db

row_of-id : (s : Snapshot) → (row_of s).id ≡ s.id
unfolding row_of
row_of-id s = refl

pub row_of-manifest : (s : Snapshot) → (row_of s).manifest ≡ s
unfolding row_of
row_of-manifest s = refl

has_row-append :
    (s : Snapshot) (db : Database) → any (λ r. r.id == s.id) (db.snapshots ++ row_of s ∷ []) ≡ true
unfolding row_of any
has_row-append s db =
    any-append (λ r. r.id == s.id) db.snapshots (row_of s ∷ []) ∙ ground (arith, eq_refl s.id)

save_snapshot_tx_lem :
    (s : Snapshot) (db : Database)
    → save_snapshot_tx s db ≡ (if accepts s db then ok (tt, saved s db) else err constraint)
unfolding insert_row set_backup_times
save_snapshot_tx_lem s db = elim (Bool-cases (has_row s.id db || not (has_game s.game_id db))) [
  | inl bad ↦ ground (arith, bad)
  | inr good ↦ rw good (
      rw
        (insert_references_lem s.id (new_hashes [] (hashes s))
          (record db { snapshots = db.snapshots ++ row_of s ∷ [] }) (has_row-append s db))
        (ground arith))
]

save_snapshot-IsAtomic : (s : Snapshot) → IsAtomic (save_snapshot s)
unfolding save_snapshot
save_snapshot-IsAtomic s = search transaction-IsAtomic

pub save_snapshot_exact :
    (s : Snapshot) (w : World)
    → (save_snapshot s w).0 ≡ ok tt
    → (accepts s w.db ≡ true) × ((save_snapshot s w).1.db ≡ saved s w.db)
save_snapshot_exact s w h =
    ground (arith, (save_snapshot-Refines s).success w tt h, save_snapshot_tx_lem s w.db)

-- SaveSnapshot ends in one of two ways, whatever calls fail. Either it succeeds: the snapshot had a new ID and a known game, and the tables are left
-- with its row, its references and its times. Or it returns an error, and every table is as it was.
pub save_snapshot_outcome :
    (s : Snapshot) (w : World)
    → (((save_snapshot s w).0 ≡ ok tt)
        × (accepts s w.db ≡ true)
        × ((save_snapshot s w).1.db ≡ saved s w.db))
      ⊎ ((e : Error) × ((save_snapshot s w).0 ≡ err e) × ((save_snapshot s w).1.db ≡ w.db))
save_snapshot_outcome s w = elim (Result-cases (save_snapshot s w).0) [
  | inl (a, h) ↦ inl (h, (save_snapshot_exact s w h).0, (save_snapshot_exact s w h).1)
  | inr (e, h) ↦ inr (e, h, (save_snapshot-IsAtomic s).unchanged w e h)
]

-- Where no call fails, SaveSnapshot succeeds exactly for a new ID and a known game.
pub save_snapshot_quiet :
    (s : Snapshot) (w : World)
    → w.faults ≡ []
    → (save_snapshot s w).0 ≡ (if accepts s w.db then ok tt else err constraint)
save_snapshot_quiet s w q =
    ground (arith, ((save_snapshot-Refines s).quiet w q).0, save_snapshot_tx_lem s w.db)

pub find-row_of :
    (j : String) (s : Snapshot) (rows : List SnapshotRow)
    → any (λ r. r.id == s.id) rows ≡ false
    → find (λ r. r.id == j) (rows ++ row_of s ∷ [])
      ≡ (if s.id == j then some (row_of s) else find (λ r. r.id == j) rows)
unfolding find any
find-row_of j s [] h = ground (arith, row_of-id s)
find-row_of j s (r ∷ rows) h =
    ground (arith, find-row_of j s rows, eq_iff r.id j, eq_iff r.id s.id, eq_iff s.id j)

-- After a successful SaveSnapshot the snapshot is found under its ID as it was given, and what is
-- found under every other ID is as before.
pub find-save_snapshot :
    (s : Snapshot) (w : World) (j : String)
    → (save_snapshot s w).0 ≡ ok tt
    → find_snapshot j (save_snapshot s w).1.db
      ≡ (if s.id == j then some s else find_snapshot j w.db)
find-save_snapshot s w j h =
    let (new, e) = save_snapshot_exact s w h in
    rw e (ground (arith, find-row_of j s w.db.snapshots (ground (arith, new)), row_of-manifest s))

-- After a successful SaveSnapshot a snapshot refers to a blob if it did before, or if it is the saved
-- one and the hash is a hash of its files or registry data, and not empty.
pub references-save_snapshot :
    (s : Snapshot) (w : World) (j h : String)
    → (save_snapshot s w).0 ≡ ok tt
    → has_reference j h (save_snapshot s w).1.db
      ≡ (has_reference j h w.db || (s.id == j && (not (h == "") && any (λ i. i == h) (hashes s))))
unfolding any
references-save_snapshot s w j h done =
    let (_, e) = save_snapshot_exact s w done in
    rw e (
      any-add_references j h s.id (new_hashes [] (hashes s)) w.db.snapshot_blobs
      ∙ ground (arith, any-new_hashes h [] (hashes s)))
