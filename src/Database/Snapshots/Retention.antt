-- ===== src/Database/Snapshots/Retention.antt =====
-- SnapshotsBeyond: which snapshots a retention of some number leaves out.
use save_knot.Prelude.{
  ℕ, zero, suc, ◌≤◌, ltb, List, [], ◌∷◌, map, String, ◌==◌, keep, length, take, drop, ◌≡◌, refl,
  arith, All, All-mono, Bool-cases, inl, inr,
}
use save_knot.Core.{Snapshot}
use save_knot.Database.Schema.{Database, SnapshotRow}
use save_knot.Io.{Result, ok, World}
use save_knot.Io.Refines.{Refines, refines_rules}
use save_knot.Database.Snapshots.{insert_by_time, newest_first, of_game, snapshots_beyond}

-- No row is newer than the first.
abbrev pub IsNotNewer : SnapshotRow → SnapshotRow → Type 0
IsNotNewer r s = s.created_at ≤ r.created_at

abbrev pub IsDescending : List SnapshotRow → Type 0
IsDescending [] = Unit {0}
IsDescending (r ∷ rest) = All (IsNotNewer r) rest × IsDescending rest

insert_by_time-All :
    (P : SnapshotRow → Type 0) (r : SnapshotRow) (rows : List SnapshotRow)
    → P r
    → All P rows
    → All P (insert_by_time r rows)
unfolding insert_by_time
insert_by_time-All P r [] p h = (p, tt)
insert_by_time-All P r (s ∷ rows) p h = elim (Bool-cases (ltb r.created_at s.created_at)) [
  | inl e ↦ simp e (h.0, insert_by_time-All P r rows p h.1)
  | inr e ↦ simp e (p, h)
]

insert_by_time-IsDescending :
    (r : SnapshotRow) (rows : List SnapshotRow)
    → IsDescending rows
    → IsDescending (insert_by_time r rows)
unfolding insert_by_time
insert_by_time-IsDescending r [] h = (tt, tt)
insert_by_time-IsDescending r (s ∷ rows) h = elim (Bool-cases (ltb r.created_at s.created_at)) [
  | inl e ↦ simp e (
    insert_by_time-All (IsNotNewer s) r rows (ground (arith, e)) h.0,
    insert_by_time-IsDescending r rows h.1,
  )
  | inr e ↦ simp e (
    (
      ground (arith, e),
      All-mono (IsNotNewer s) (IsNotNewer r) rows (λ t k. ground (arith, e, k)) h.0,
    ),
    h,
  )
]

pub newest_first-IsDescending : (rows : List SnapshotRow) → IsDescending (newest_first rows)
unfolding newest_first
newest_first-IsDescending [] = tt
newest_first-IsDescending (r ∷ rows) =
    insert_by_time-IsDescending r (newest_first rows) (newest_first-IsDescending rows)

length-insert_by_time :
    (r : SnapshotRow) (rows : List SnapshotRow) → length (insert_by_time r rows) ≡ suc (length rows)
unfolding insert_by_time
length-insert_by_time r [] = refl
length-insert_by_time r (s ∷ rows) = ground (arith, length-insert_by_time r rows)

length-newest_first : (rows : List SnapshotRow) → length (newest_first rows) ≡ length rows
unfolding newest_first
length-newest_first [] = refl
length-newest_first (r ∷ rows) =
    ground (arith, length-insert_by_time r (newest_first rows), length-newest_first rows)

drop-All :
    (P : SnapshotRow → Type 0) (n : ℕ) (rows : List SnapshotRow) → All P rows → All P (drop n rows)
drop-All P zero rows h = h
drop-All P (suc n) [] h = tt
drop-All P (suc n) (r ∷ rows) h = drop-All P n rows h.1

taken-AreNewer :
    (n : ℕ) (rows : List SnapshotRow)
    → IsDescending rows
    → All (λ r. All (IsNotNewer r) (drop n rows)) (take n rows)
taken-AreNewer zero rows h = tt
taken-AreNewer (suc n) [] h = tt
taken-AreNewer (suc n) (r ∷ rows) h =
    (drop-All (IsNotNewer r) n rows h.0, taken-AreNewer n rows h.1)

beyond-Refines :
    (id : String) (n : ℕ)
    → Refines
        (snapshots_beyond id n)
        (λ db. ok (map (λ r. r.manifest) (drop n (of_game id db)), db))
unfolding snapshots_beyond
beyond-Refines id n = search refines_rules

same_list :
    (a b : List Snapshot) (db after : Database)
    → ◌≡◌ {A = Result (List Snapshot × Database)} (ok (a, db)) (ok (b, after))
    → b ≡ a
same_list a b db after h = ground (arith, h)

-- When SnapshotsBeyond returns snapshots, they are those that follow the first `count` ones in a list
-- with as many rows as the game has; and none of them was created after one of these first.
pub snapshots_beyond_lem :
    (id : String) (count : ℕ) (w : World) (beyond : List Snapshot)
    → (snapshots_beyond id count w).0 ≡ ok beyond
    → (beyond ≡ map (λ r. r.manifest) (drop count (of_game id w.db)))
      × (length (of_game id w.db) ≡ length (keep (λ r. r.game_id == id) w.db.snapshots))
      × All
          (λ r. All (λ s. s.created_at ≤ r.created_at) (drop count (of_game id w.db)))
          (take count (of_game id w.db))
snapshots_beyond_lem id count w beyond h = (
  same_list (map (λ r. r.manifest) (drop count (of_game id w.db))) beyond w.db
      (snapshots_beyond id count w).1.db ((beyond-Refines id count).success w beyond h),
  length-newest_first (keep (λ r. r.game_id == id) w.db.snapshots),
  taken-AreNewer count (of_game id w.db)
      (newest_first-IsDescending (keep (λ r. r.game_id == id) w.db.snapshots)),
)
