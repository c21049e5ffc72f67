-- ===== src/Database/Snapshots/Importing.antt =====
-- What ImportSnapshot and MarkSnapshotRemote do to the tables.
use save_knot.Prelude.{
  ◌≤◌, ltb, ℕ, Bool, true, false, not, ◌&&◌, ◌||◌, Option, none, some, List, [], ◌∷◌, ◌++◌, map,
  String, ◌==◌, any, keep, find, if◌then◌else◌, ◌≡◌, ◌≢◌, refl, ◌∙◌, arith, eq_iff, eq_refl,
  any-append, Bool-cases, ◌⊎◌, inl, inr,
}
use save_knot.Core.{Game, Snapshot}
use save_knot.Database.Schema.{Database, SnapshotRow, BlobReference, unix_milli}
use save_knot.Io.{Error, Result, ok, err, World, no_rows, constraint, statement, query, ◌>>=◌}
use save_knot.Io.Refines.{Tx, bind_tx, Refines, refines_rules, Refines-fail, Refines-pure}
use save_knot.Io.Laws.{Result-cases, IsAtomic, transaction-IsAtomic}
use save_knot.Database.Snapshots.{
  has_game, has_row, has_reference, hashes, new_hashes, row_of, rewrite_row, insert_row, upsert_row,
  clear_references, raise_backup_times, import_snapshot, import_snapshot_tx, synced, find_snapshot,
  manifest_of, snapshot, or_no_rows, set_remote, mark_snapshot_remote, later_time,
}
use save_knot.Database.Snapshots.Saving.{
  has_row-find, add_references, insert_references_lem, insert_references-Refines,
  any-add_references, any-new_hashes, find-row_of, row_of-manifest,
}

any-rewrite_row :
    (j id state : String) (m : Snapshot) (rows : List SnapshotRow)
    → any (λ r. r.id == j) (map (rewrite_row id state m) rows) ≡ any (λ r. r.id == j) rows
unfolding any
any-rewrite_row j id state m [] = refl
any-rewrite_row j id state m (r ∷ rows) = ground (arith, any-rewrite_row j id state m rows)

-- A rewritten row is found with its new manifest, and every other row as before.
pub find-rewrite_row :
    (j id state : String) (m : Snapshot) (rows : List SnapshotRow)
    → manifest_of (find (λ r. r.id == j) (map (rewrite_row id state m) rows)) ≡ (
        if id == j && any (λ r. r.id == j) rows
        then some m
        else manifest_of (find (λ r. r.id == j) rows))
unfolding any find
find-rewrite_row j id state m [] = ground arith
find-rewrite_row j id state m (r ∷ rows) =
    ground (arith, find-rewrite_row j id state m rows, eq_iff r.id id, eq_iff r.id j, eq_iff id j)

pub import_snapshot-Refines : (s : Snapshot) → Refines (import_snapshot s) (import_snapshot_tx s)
unfolding import_snapshot
import_snapshot-Refines s = search (refines_rules, insert_references-Refines)

import_snapshot-IsAtomic : (s : Snapshot) → IsAtomic (import_snapshot s)
unfolding import_snapshot
import_snapshot-IsAtomic s = search transaction-IsAtomic

-- The rows after an import: a known ID gets the new manifest, and a new one a row.
abbrev pub imported_rows : Snapshot → Database → List SnapshotRow
imported_rows s db =
    if has_row s.id db
    then map (rewrite_row s.id "synced" (synced s)) db.snapshots
    else db.snapshots ++ row_of (synced s) ∷ []

-- The games with backup times that are at least that of an imported snapshot.
abbrev pub raised : String → ℕ → List Game → List Game
raised id time = map λ g.
    if g.id == id
    then record g {
      last_backup = later_time time g.last_backup;
      last_change = later_time time g.last_change;
    }
    else g

abbrev pub imported : Snapshot → Database → Database
imported s db = record db {
  snapshots = imported_rows s db;
  snapshot_blobs =
      add_references s.id (new_hashes [] (hashes s))
        (keep (λ r. not (r.snapshot_id == s.id)) db.snapshot_blobs);
  games = raised s.game_id (unix_milli s.created_at) db.games;
}

abbrev pub accepts_import : Snapshot → Database → Bool
accepts_import s db = has_row s.id db || has_game s.game_id db

any-imported_rows :
    (s : Snapshot) (db : Database) → any (λ r. r.id == s.id) (imported_rows s db) ≡ true
unfolding any row_of
any-imported_rows s db = elim (Bool-cases (has_row s.id db)) [
  | inl old ↦ rw old (any-rewrite_row s.id s.id "synced" (synced s) db.snapshots ∙ old)
  | inr new ↦ rw new (
      any-append (λ r. r.id == s.id) db.snapshots (row_of (synced s) ∷ [])
      ∙ ground (arith, eq_refl s.id))
]

upsert_row_lem :
    (s : Snapshot) (db : Database)
    → upsert_row (synced s) db ≡ (
        if accepts_import s db
        then ok (tt, record db { snapshots = imported_rows s db })
        else err constraint)
unfolding upsert_row insert_row
upsert_row_lem s db = ground arith

import_snapshot_tx_lem :
    (s : Snapshot) (db : Database)
    → import_snapshot_tx s db
      ≡ (if accepts_import s db then ok (tt, imported s db) else err constraint)
unfolding clear_references raise_backup_times
import_snapshot_tx_lem s db = elim (Bool-cases (accepts_import s db)) [
  | inl good ↦
      rw (upsert_row_lem s db, good)
        (rw (
          insert_references_lem s.id (new_hashes [] (hashes s))
            (record db {
              snapshots = imported_rows s db;
              snapshot_blobs = keep (λ r. not (r.snapshot_id == s.id)) db.snapshot_blobs;
            })
            (any-imported_rows s db)))
  | inr bad ↦ rw (upsert_row_lem s db, bad)
]

pub import_snapshot_exact :
    (s : Snapshot) (w : World)
    → (import_snapshot s w).0 ≡ ok tt
    → (accepts_import s w.db ≡ true) × ((import_snapshot s w).1.db ≡ imported s w.db)
import_snapshot_exact s w h =
    ground (arith, (import_snapshot-Refines s).success w tt h, import_snapshot_tx_lem s w.db)

-- A time after a change that counts from `time` on: the later one of the two, if there was one.
pub data IsLater (time : ℕ) : Option ℕ → Option ℕ → Type 0 where
  first : IsLater time none (some time)
  raised_to : (old : ℕ) → old ≤ time → IsLater time (some old) (some time)
  not_lowered : (old : ℕ) → time ≤ old → IsLater time (some old) (some old)

-- The game with the ID has the later times, and all else of it and every other game stays.
pub data IsRaised (id : String) (time : ℕ) : Game → Game → Type 0 where
  other : (g : Game) → (g.id == id) ≡ false → IsRaised id time g g
  touched :
      (g : Game) (backup change : Option ℕ)
      → (g.id == id) ≡ true
      → IsLater time g.last_backup backup
      → IsLater time g.last_change change
      → IsRaised id time g (record g { last_backup = backup; last_change = change })

abbrev pub AreRaised : String → ℕ → List Game → List Game → Type 0
AreRaised id time [] [] = Unit {0}
AreRaised id time (g ∷ gs) (h ∷ hs) = IsRaised id time g h × AreRaised id time gs hs
AreRaised id time [] (_ ∷ _) = ⊥
AreRaised id time (_ ∷ _) [] = ⊥

later_time-IsLater : (time : ℕ) (old : Option ℕ) → IsLater time old (later_time time old)
later_time-IsLater time none = first
later_time-IsLater time (some old) = elim (Bool-cases (ltb old time)) [
  | inl e ↦ rw e (raised_to old (ground (arith, e)))
  | inr e ↦ rw e (not_lowered old (ground (arith, e)))
]

raised-AreRaised :
    (id : String) (time : ℕ) (games : List Game) → AreRaised id time games (raised id time games)
raised-AreRaised id time [] = tt
raised-AreRaised id time (g ∷ games) = elim (Bool-cases (g.id == id)) [
  | inl e ↦ rw e (
    touched g (later_time time g.last_backup) (later_time time g.last_change) e
        (later_time-IsLater time g.last_backup) (later_time-IsLater time g.last_change),
    raised-AreRaised id time games,
  )
  | inr e ↦ rw e (other g e, raised-AreRaised id time games)
]

-- The tables after an import of a snapshot.
pub record IsImported (s : Snapshot) (before after : Database) : Type 0 where
  pub snapshots :
      (id : String)
      → find_snapshot id after ≡ (
          if s.id == id
          then some (record s { remote_state = "synced" })
          else find_snapshot id before)
  pub references :
      (id hash : String)
      → has_reference id hash after ≡ (
          if s.id == id
          then not (hash == "") && any (λ h. h == hash) (hashes s)
          else has_reference id hash before)
  pub games : AreRaised s.game_id (unix_milli s.created_at) before.games after.games
  pub others : after ≡ record before {
    snapshots = after.snapshots;
    snapshot_blobs = after.snapshot_blobs;
    games = after.games;
  }

-- Where no call fails, ImportSnapshot succeeds exactly for a known ID or a known game.
pub import_snapshot_quiet :
    (s : Snapshot) (w : World)
    → w.faults ≡ []
    → (import_snapshot s w).0 ≡ (if accepts_import s w.db then ok tt else err constraint)
import_snapshot_quiet s w q =
    ground (arith, ((import_snapshot-Refines s).quiet w q).0, import_snapshot_tx_lem s w.db)

pub find-imported :
    (s : Snapshot) (db : Database) (j : String)
    → find_snapshot j (imported s db) ≡ (if s.id == j then some (synced s) else find_snapshot j db)
find-imported s db j = elim (Bool-cases (has_row s.id db)) [
  | inl old ↦ rw old (
      find-rewrite_row j s.id "synced" (synced s) db.snapshots ∙ ground (arith, old, eq_iff s.id j))
  | inr new ↦
      rw new (ground (arith, find-row_of j (synced s) db.snapshots new, row_of-manifest (synced s)))
]

-- What is left of the references without those of one snapshot.
pub any-cleared :
    (id j h : String) (refs : List BlobReference)
    → any (λ r. r.snapshot_id == j && r.hash == h) (keep (λ r. not (r.snapshot_id == id)) refs)
      ≡ (not (id == j) && any (λ r. r.snapshot_id == j && r.hash == h) refs)
unfolding any keep
any-cleared id j h [] = ground arith
any-cleared id j h (r ∷ refs) =
    ground
      (arith, any-cleared id j h refs, eq_iff r.snapshot_id id, eq_iff r.snapshot_id j, eq_iff id j)

pub references-imported :
    (s : Snapshot) (db : Database) (j h : String)
    → has_reference j h (imported s db)
      ≡ (if s.id == j then not (h == "") && any (λ i. i == h) (hashes s) else has_reference j h db)
unfolding any
references-imported s db j h =
    any-add_references j h s.id (new_hashes [] (hashes s))
      (keep (λ r. not (r.snapshot_id == s.id)) db.snapshot_blobs)
    ∙ ground (
      arith,
      any-new_hashes h [] (hashes s),
      any-cleared s.id j h db.snapshot_blobs,
      eq_iff s.id j,
    )

imported-IsImported : (s : Snapshot) (db : Database) → IsImported s db (imported s db)
imported-IsImported s db = record {
  snapshots = find-imported s db;
  references = references-imported s db;
  games = raised-AreRaised s.game_id (unix_milli s.created_at) db.games;
  others = refl;
}

-- ImportSnapshot ends in one of two ways, whatever calls fail. Either it succeeds: the ID or the
-- game was known; the snapshot is found as synced under its ID, and what other IDs find stays; its
-- references are the hashes of its manifest that are not empty, and other references stay; the times of the last backup and the
-- last change of its game are the later ones of what they were and its time, and nothing else of any
-- game changes; and every other table stays. Or it returns an error, and every table is as it was.
pub import_snapshot_outcome :
    (s : Snapshot) (w : World)
    → (((import_snapshot s w).0 ≡ ok tt)
        × (accepts_import s w.db ≡ true)
        × IsImported s w.db (import_snapshot s w).1.db)
      ⊎ ((e : Error) × ((import_snapshot s w).0 ≡ err e) × ((import_snapshot s w).1.db ≡ w.db))
import_snapshot_outcome s w = elim (Result-cases (import_snapshot s w).0) [
  | inl (a, h) ↦
      let (known, done) = import_snapshot_exact s w h in
      inl (h, known, rw done (imported-IsImported s w.db))
  | inr (e, h) ↦ inr (e, h, (import_snapshot-IsAtomic s).unchanged w e h)
]

abbrev or_no_rows_tx {ℓ} : {A : Type ℓ} → Option A → Tx A
or_no_rows_tx none db = err no_rows
or_no_rows_tx (some a) db = ok (a, db)

or_no_rows-Refines {ℓ} : {A : Type ℓ} (o : Option A) → Refines (or_no_rows o) (or_no_rows_tx o)
or_no_rows-Refines none = Refines-fail no_rows
or_no_rows-Refines (some a) = Refines-pure a

abbrev snapshot_tx : String → Tx Snapshot
snapshot_tx id = bind_tx (λ db. ok (find_snapshot id db, db)) or_no_rows_tx

abbrev mark_snapshot_remote_tx : String → String → Tx (Unit {0})
mark_snapshot_remote_tx id state =
    bind_tx (snapshot_tx id) (λ s. set_remote id state (record s { remote_state = state }))

snapshot-Refines : (id : String) → Refines (snapshot id) (snapshot_tx id)
unfolding snapshot
snapshot-Refines id = search (refines_rules, or_no_rows-Refines)

mark_snapshot_remote-Refines :
    (id state : String) → Refines (mark_snapshot_remote id state) (mark_snapshot_remote_tx id state)
unfolding mark_snapshot_remote
mark_snapshot_remote-Refines id state = search (refines_rules, snapshot-Refines)

-- Only the last statement changes the tables, and it returns no error of its own after that.
pub mark_snapshot_remote-IsAtomic : (id state : String) → IsAtomic (mark_snapshot_remote id state)
unfolding mark_snapshot_remote snapshot statement query set_remote ◌>>=◌
mark_snapshot_remote-IsAtomic id state = record { unchanged = λ w e h. ground (arith, h) }

-- The snapshot with another remote state, if there is one.
abbrev pub remarked : String → Option Snapshot → Option Snapshot
remarked state none = none
remarked state (some s) = some (record s { remote_state = state })

abbrev pub Marked : String → String → String → Database → Database → Type 0
Marked id state j db db' =
    (find_snapshot id db ≢ none)
    × (find_snapshot j db'
        ≡ (if id == j then remarked state (find_snapshot j db) else find_snapshot j db))
    × (db'.snapshot_blobs ≡ db.snapshot_blobs)

same_find :
    (i j : String) (db : Database) → (i == j) ≡ true → find_snapshot i db ≡ find_snapshot j db
same_find i j db e = rw ((eq_iff i j).0 e)

mark_snapshot_remote_tx_lem :
    (id state j : String) (db db' : Database) (o : Option Snapshot)
    → find_snapshot id db ≡ o
    → mark_snapshot_remote_tx id state db ≡ ok (tt, db')
    → Marked id state j db db'
unfolding set_remote
mark_snapshot_remote_tx_lem id state j db db' none e h =
    let bad : ◌≡◌ {A = Result (Unit {0} × Database)} (err no_rows) (ok (tt, db')) = (rw e at h) in
    cc
mark_snapshot_remote_tx_lem id state j db db' (some s) e h =
    let new : Snapshot = record s { remote_state = state } in
    let rows : List SnapshotRow = map (rewrite_row id state new) db.snapshots in
    let done : ◌≡◌ {A = Result (Unit {0} × Database)} (ok (tt, record db { snapshots = rows }))
        (ok (tt, db')) =
      (rw e at h) in
    let same : db' ≡ record db { snapshots = rows } = ground (arith, done) in
    rw same (
      (λ missing. cc),
      find-rewrite_row j id state new db.snapshots
          ∙ ground (arith, has_row-find j db.snapshots, same_find id j db, eq_iff id j, e),
      refl,
    )

-- A successful MarkSnapshotRemote found the snapshot, and then finds it with the given remote state
-- and all else as it was; what is found under other IDs and all references stay.
pub mark_snapshot_remote_lem :
    (id state : String) (w : World) (j : String)
    → (mark_snapshot_remote id state w).0 ≡ ok tt
    → Marked id state j w.db (mark_snapshot_remote id state w).1.db
mark_snapshot_remote_lem id state w j h =
    mark_snapshot_remote_tx_lem id state j w.db _ (find_snapshot id w.db) refl
      ((mark_snapshot_remote-Refines id state).success w tt h)
