-- ===== src/Database/Games.antt =====
-- Games and their backup policies in internal/database/store.go.
pub mod Editing
pub mod Policies
use save_knot.Prelude.{
  ℕ, ℤ, pos, ltb_ℤ, Bool, true, false, not, ◌&&◌, ◌||◌, Option, none, some, List, [], ◌∷◌, ◌++◌,
  map, String, ◌==◌, any, keep, find, if◌then◌else◌,
}
use save_knot.Core.{Game, GameUpdate, BackupPolicy, default_backup_policy}
use save_knot.Database.Schema.{Database, PolicyRow, unix_milli}
use save_knot.Database.Snapshots.{has_game}
use save_knot.Io.{
  Result, ok, err, game_not_found, constraint, message, Exec, pure, fail, ◌>>=◌, ◌>>◌, statement,
  query,
}
use save_knot.Io.Refines.{Tx}

abbrev pub find_game : String → Database → Option Game
find_game id db = find (λ g. g.id == id) db.games

-- The unique index games_store_id: another game has the same store and the same store ID, not empty.
abbrev pub store_taken : Game → List Game → Bool
store_taken game games =
    any
      (λ g.
        not (g.id == game.id)
        && not (game.store_id == "")
        && (g.store == game.store && g.store_id == game.store_id))
      games

abbrev pub milliseconds : Option ℕ → Option ℕ
milliseconds none = none
milliseconds (some t) = some (unix_milli t)

-- The inserted row: `hidden`, `last_change` and `last_backup` have their defaults.
abbrev pub game_row : Game → Game
game_row g = record g {
  hidden = false;
  last_seen = milliseconds g.last_seen;
  last_change = none;
  last_backup = none;
}

-- DO UPDATE SET of the columns that discovery owns
abbrev pub refresh : Game → Game → Game
refresh new old = record old {
  catalog_id = new.catalog_id;
  catalog_name = new.catalog_name;
  store = new.store;
  store_id = new.store_id;
  install_path = new.install_path;
  last_seen = milliseconds new.last_seen;
}

unfoldable pub upsert_game_row : Game → Tx (Unit {0})
upsert_game_row game db =
    if store_taken game db.games
    then err constraint
    else if has_game game.id db
    then ok (
      tt,
      record db { games = map (λ g. if g.id == game.id then refresh game g else g) db.games },
    )
    else ok (tt, record db { games = db.games ++ game_row game ∷ [] })

unfoldable pub upsert_game : Game → Exec (Unit {0})
unfolding statement
upsert_game game = statement (upsert_game_row game)

-- ON CONFLICT(id) DO NOTHING
unfoldable pub ensure_game_row : Game → Tx (Unit {0})
ensure_game_row game db =
    if has_game game.id db
    then ok (tt, db)
    else if store_taken game db.games
    then err constraint
    else ok (tt, record db { games = db.games ++ game_row game ∷ [] })

unfoldable pub ensure_remote_game : Game → Exec (Unit {0})
unfolding statement
ensure_remote_game game = statement (ensure_game_row game)

unfoldable pub set_hidden_row : String → Bool → Tx (Unit {0})
set_hidden_row id hidden db =
    if has_game id db
    then ok (
      tt,
      record db {
        games = map (λ g. if g.id == id then record g { hidden = hidden } else g) db.games;
      },
    )
    else err game_not_found

unfoldable pub set_game_hidden : String → Bool → Exec (Unit {0})
unfolding statement
set_game_hidden id hidden = statement (set_hidden_row id hidden)

-- scanGame, where no row is ErrGameNotFound
abbrev pub scan_game : Option Game → Exec Game
scan_game none = fail game_not_found
scan_game (some g) = pure g

unfoldable pub game : String → Exec Game
unfolding query ◌>>=◌
game id = query (find_game id) >>= scan_game

abbrev pub or_old {ℓ} : {A : Type ℓ} → Option A → A → A
or_old none old = old
or_old (some new) old = new

-- The five fields that an update may name.
abbrev pub edited : GameUpdate → Game → Game
edited u g = record g {
  display_name = or_old u.display_name g.display_name;
  image = or_old u.image g.image;
  notes = or_old u.notes g.notes;
  enabled = or_old u.enabled g.enabled;
  sync_enabled = or_old u.sync_enabled g.sync_enabled;
}

-- UPDATE games SET display_name = ?, image = ?, notes = ?, enabled = ?, sync_enabled = ? WHERE id = ?
unfoldable pub write_edit : String → Game → Tx (Unit {0})
write_edit id new db = ok (
  tt,
  record db {
    games =
        map
          (λ g.
            if g.id == id
            then record g {
              display_name = new.display_name;
              image = new.image;
              notes = new.notes;
              enabled = new.enabled;
              sync_enabled = new.sync_enabled;
            }
            else g)
          db.games;
  },
)

unfoldable pub update_game : String → GameUpdate → Exec (Unit {0})
unfolding game statement ◌>>=◌
update_game id update = game id >>= λ g. statement (write_edit id (edited update g))

abbrev pub policy_or_default : Option PolicyRow → BackupPolicy
policy_or_default none = default_backup_policy
policy_or_default (some row) = row.policy

unfoldable pub game_policy : String → Exec BackupPolicy
unfolding query
game_policy id = query (λ db. policy_or_default (find (λ r. r.game_id == id) db.game_policies))

abbrev pub is_valid_policy : BackupPolicy → Bool
is_valid_policy p = not (
    ltb_ℤ p.quiet_seconds (pos 1)
    || ltb_ℤ p.min_gap_seconds (pos 0)
    || ltb_ℤ p.max_dirty_seconds p.quiet_seconds)

unfoldable pub put_policy : String → BackupPolicy → List PolicyRow → List PolicyRow
put_policy id policy [] = record { game_id = id; policy = policy } ∷ []
put_policy id policy (r ∷ rest) =
    let further = put_policy id policy rest in
    if r.game_id == id then record r { policy = policy } ∷ rest else r ∷ further

unfoldable pub write_policy : String → BackupPolicy → Tx (Unit {0})
write_policy id policy db =
    if has_game id db
    then ok (tt, record db { game_policies = put_policy id policy db.game_policies })
    else err constraint

unfoldable pub update_game_policy : String → BackupPolicy → Exec (Unit {0})
unfolding statement
update_game_policy id policy =
    if is_valid_policy policy
    then statement (write_policy id policy)
    else fail
        (message "backup policy requires quiet >= 1 second, min gap >= 0, and max dirty >= quiet")
