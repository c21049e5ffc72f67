-- ===== src/Coordinator/Excess.antt =====
-- Which snapshots the retention is about, told apart from the code: the rows of the game from the
-- newest on, without as many as are to be kept.
use mathlib.Core.List.{Perm}
use mathlib.Core.List.Perm
use save_knot.Prelude.{
  ℕ, zero, suc, ◌=?◌, false, arith, ℤ, pos, negsuc, ltb, List, [], ◌∷◌, map, drop, keep, String,
  ◌==◌, ◌≡◌, refl, Bool-cases, inl, inr,
}
use save_knot.Core.{Snapshot}
use save_knot.Database.Schema.{Database, SnapshotRow}
use save_knot.Database.Snapshots.{insert_by_time, newest_first, of_game}
use save_knot.Database.Snapshots.Retention.{IsDescending, newest_first-IsDescending}
use save_knot.Coordinator.{retention_limit}

-- How many snapshots a configured number keeps
pub data IsLimit : ℤ → ℕ → Type 0 where
  unset : IsLimit (pos 0) 50
  given : (n : ℕ) → IsLimit (pos (suc n)) (suc n)
  negative : (n : ℕ) → IsLimit (negsuc n) 0

-- The snapshots of a game beyond the newest ones
pub record IsExcess (configured : ℤ) (game_id : String) (db : Database) (excess : List Snapshot)
    : Type 0 where
  pub limit : ℕ
  pub allowed : IsLimit configured limit
  pub ranked : List SnapshotRow
  pub same_rows : Perm ranked (keep (λ r. r.game_id == game_id) db.snapshots)
  pub newest : IsDescending ranked
  pub beyond : excess ≡ map (λ r. r.manifest) (drop limit ranked)

abbrev pub excess_of : ℤ → String → Database → List Snapshot
excess_of configured game_id db =
    map (λ r. r.manifest) (drop (retention_limit configured) (of_game game_id db))

retention_limit-IsLimit : (configured : ℤ) → IsLimit configured (retention_limit configured)
retention_limit-IsLimit (pos zero) = unset
retention_limit-IsLimit (pos (suc n)) =
    let set : (suc n =? 0) ≡ false = ground arith in rw set (given n)
retention_limit-IsLimit (negsuc n) = negative n

insert_by_time-perm :
    (r : SnapshotRow) (rows : List SnapshotRow) → Perm (insert_by_time r rows) (r ∷ rows)
unfolding insert_by_time
insert_by_time-perm r [] = Perm.rfl
insert_by_time-perm r (s ∷ rows) = elim (Bool-cases (ltb r.created_at s.created_at)) [
  | inl e ↦ simp e (Perm.trans (Perm.cons s (insert_by_time-perm r rows)) (Perm.swap r s rows))
  | inr e ↦ simp e Perm.rfl
]

newest_first-perm : (rows : List SnapshotRow) → Perm (newest_first rows) rows
unfolding newest_first
newest_first-perm [] = Perm.rfl
newest_first-perm (r ∷ rows) =
    Perm.trans (insert_by_time-perm r (newest_first rows)) (Perm.cons r (newest_first-perm rows))

pub excess_of-IsExcess :
    (configured : ℤ) (game_id : String) (db : Database)
    → IsExcess configured game_id db (excess_of configured game_id db)
excess_of-IsExcess configured game_id db = record {
  limit = retention_limit configured;
  allowed = retention_limit-IsLimit configured;
  ranked = of_game game_id db;
  same_rows = newest_first-perm (keep (λ r. r.game_id == game_id) db.snapshots);
  newest = newest_first-IsDescending (keep (λ r. r.game_id == game_id) db.snapshots);
  beyond = refl;
}
