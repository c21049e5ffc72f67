-- ===== src/Database/Games/Policies.antt =====
-- UpdateGamePolicy and GamePolicy.
use save_knot.Prelude.{
  true, List, [], ◌∷◌, String, ◌==◌, find, if◌then◌else◌, ◌≡◌, ◌∙◌, sym, arith, eq_iff,
}
use save_knot.Core.{BackupPolicy}
use save_knot.Database.Schema.{Database, PolicyRow}
use save_knot.Io.{Result, ok, err, message, World}
use save_knot.Io.Refines.{Tx, Refines, refines_rules}
use save_knot.Database.Games.{
  is_valid_policy, put_policy, write_policy, update_game_policy, game_policy, policy_or_default,
}

abbrev pub policy_in : String → List PolicyRow → BackupPolicy
policy_in id rows = policy_or_default (find (λ r. r.game_id == id) rows)

policy_in-put_policy :
    (id other : String) (policy : BackupPolicy) (rows : List PolicyRow)
    → policy_in other (put_policy id policy rows)
      ≡ (if id == other then policy else policy_in other rows)
unfolding put_policy find
policy_in-put_policy id other policy [] = ground arith
policy_in-put_policy id other policy (r ∷ rows) = ground (
  arith,
  policy_in-put_policy id other policy rows,
  eq_iff r.game_id id,
  eq_iff r.game_id other,
  eq_iff id other,
)

abbrev update_tx : String → BackupPolicy → Tx (Unit {0})
update_tx id policy = if is_valid_policy policy then write_policy id policy else λ db.
    err (message "backup policy requires quiet >= 1 second, min gap >= 0, and max dirty >= quiet")

update-Refines :
    (id : String) (policy : BackupPolicy)
    → Refines (update_game_policy id policy) (update_tx id policy)
unfolding update_game_policy
update-Refines id policy = search refines_rules

game_policy-Refines :
    (id : String) → Refines (game_policy id) (λ db. ok (policy_in id db.game_policies, db))
unfolding game_policy
game_policy-Refines id = search refines_rules

update_tx_lem :
    (id other : String) (policy : BackupPolicy) (db after : Database)
    → update_tx id policy db ≡ ok (tt, after)
    → (is_valid_policy policy ≡ true)
      × (policy_in other after.game_policies
          ≡ (if id == other then policy else policy_in other db.game_policies))
unfolding write_policy
update_tx_lem id other policy db after h =
    ground (arith, h, policy_in-put_policy id other policy db.game_policies)

same_result :
    (a b : BackupPolicy) (db after : Database)
    → ◌≡◌ {A = Result (BackupPolicy × Database)} (ok (a, db)) (ok (b, after))
    → a ≡ b
same_result a b db after h = ground (arith, h)

-- If UpdateGamePolicy succeeds, then the policy was valid; and whatever GamePolicy then returns, of any
-- game, is the new policy for the game that was updated, and for another game what the tables gave
-- before (the default policy, if they hold none).
pub update_game_policy-game_policy :
    (id other : String) (policy read : BackupPolicy) (w : World)
    → (update_game_policy id policy w).0 ≡ ok tt
    → (game_policy other (update_game_policy id policy w).1).0 ≡ ok read
    → (is_valid_policy policy ≡ true)
      × (read ≡ (if id == other then policy else policy_in other w.db.game_policies))
update_game_policy-game_policy id other policy read w h r =
    let w₁ : World = (update_game_policy id policy w).1 in
    let (valid, found) =
      update_tx_lem id other policy w.db w₁.db ((update-Refines id policy).success w tt h) in
    (
      valid,
      sym (
            same_result (policy_in other w₁.db.game_policies) read w₁.db (game_policy other w₁).1.db
              ((game_policy-Refines other).success w₁ read r))
          ∙ found,
    )
