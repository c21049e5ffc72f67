-- ===== src/Database/Locations.antt =====
-- The save paths, registry keys and exclusions of a game in internal/database/store.go.
pub mod Catalog
pub mod Listing
use save_knot.Prelude.{
  ℕ, Bool, true, false, not, ◌&&◌, ◌||◌, Option, none, some, List, [], ◌∷◌, ◌++◌, map, String, ◌==◌,
  any, keep, find, if◌then◌else◌,
}
use save_knot.Core.{Game, GamePath, RegistryPath, GameExclusion}
use save_knot.Paths.{FilePath, clean, path_eq}
use save_knot.Database.Schema.{Database}
use save_knot.Database.Snapshots.{has_game}
use save_knot.Database.Games.{upsert_game_row}
use save_knot.Io.{
  Result, ok, err, no_rows, constraint, message, Exec, pure, ◌>>=◌, ◌>>◌, statement, query,
  transaction, for_each,
}
use save_knot.Io.Refines.{Tx}

-- UNIQUE(game_id, template, resolved)
abbrev pub same_location : GamePath → GamePath → Bool
same_location p q =
    q.game_id == p.game_id && (q.template == p.template && path_eq q.resolved p.resolved)

abbrev pub id_taken : GamePath → List GamePath → Bool
id_taken p paths = any (λ q. q.id == p.id && not (same_location p q)) paths

-- The row that is written for a path of a game: its location is cleaned.
abbrev pub path_row : String → GamePath → GamePath
path_row game p = record p { game_id = game; resolved = clean p.resolved }

-- ON CONFLICT(game_id, template, resolved) DO UPDATE SET id = excluded.id
unfoldable pub insert_path : GamePath → Tx (Unit {0})
insert_path p db =
    if id_taken p db.game_paths || not (has_game p.game_id db)
    then err constraint
    else if any (same_location p) db.game_paths
    then ok (
      tt,
      record db {
        game_paths =
            map (λ q. if same_location p q then record q { id = p.id } else q) db.game_paths;
      },
    )
    else ok (tt, record db { game_paths = db.game_paths ++ p ∷ [] })

-- The catalog paths of the game whose ids are not among the desired ones.
abbrev pub is_stale : String → List GamePath → GamePath → Bool
is_stale game desired q =
    q.game_id == game && (q.source == "catalog" && not (any (λ p. p.id == q.id) desired))

unfoldable pub stale : String → List GamePath → Database → List String
stale game desired db = map (λ q. q.id) (keep (is_stale game desired) db.game_paths)

-- DELETE FROM game_paths WHERE id = ?
unfoldable pub delete_path_row : String → Tx (Unit {0})
delete_path_row id db =
    ok (tt, record db { game_paths = keep (λ q. not (q.id == id)) db.game_paths })

unfoldable pub save_game_paths : String → List GamePath → Exec (Unit {0})
unfolding statement query for_each ◌>>=◌
save_game_paths game paths =
    for_each paths (λ p. statement (insert_path (path_row game p)))
    >> (query (stale game paths) >>= λ ids. for_each ids (λ id. statement (delete_path_row id)))

unfoldable pub replace_catalog_paths : String → List GamePath → Exec (Unit {0})
unfolding transaction save_game_paths
replace_catalog_paths game paths = transaction (save_game_paths game paths)

-- UNIQUE(game_id, path) of game_registry
abbrev pub same_key : RegistryPath → RegistryPath → Bool
same_key r q = q.game_id == r.game_id && q.path == r.path

unfoldable pub clear_catalog_keys : String → Tx (Unit {0})
clear_catalog_keys game db = ok (
  tt,
  record db {
    game_registry = keep (λ q. not (q.game_id == game && q.source == "catalog")) db.game_registry;
  },
)

-- ON CONFLICT(game_id, path) DO NOTHING
unfoldable pub insert_key : RegistryPath → Tx (Unit {0})
insert_key r db =
    if any (same_key r) db.game_registry
    then ok (tt, db)
    else if any (λ q. q.id == r.id) db.game_registry || not (has_game r.game_id db)
    then err constraint
    else ok (tt, record db { game_registry = db.game_registry ++ r ∷ [] })

abbrev pub key_row : String → RegistryPath → RegistryPath
key_row game r = record r { game_id = game }

unfoldable pub save_registry : String → List RegistryPath → Exec (Unit {0})
unfolding statement for_each ◌>>=◌
save_registry game registry =
    statement (clear_catalog_keys game)
    >> for_each registry (λ r. statement (insert_key (key_row game r)))

unfoldable pub replace_catalog_registry : String → List RegistryPath → Exec (Unit {0})
unfolding transaction save_registry
replace_catalog_registry game registry = transaction (save_registry game registry)

unfoldable pub save_game_relations :
    Game → List GamePath → List RegistryPath → Bool → Exec (Unit {0})
unfolding transaction save_game_paths save_registry statement ◌>>=◌
save_game_relations game paths registry replace_registry = transaction (
    statement (upsert_game_row game)
    >> (save_game_paths game.id paths
        >> (if replace_registry then save_registry game.id registry else pure tt)))

unfoldable pub create_manual_game : Game → List GamePath → Exec (Unit {0})
unfolding save_game_relations
create_manual_game game paths = save_game_relations game paths [] false

abbrev pub is_path : String → String → GamePath → Bool
is_path game id q = q.id == id && q.game_id == game

unfoldable pub set_path_enabled : String → String → Bool → Tx (Unit {0})
set_path_enabled game id enabled db =
    if any (is_path game id) db.game_paths
    then ok (
      tt,
      record db {
        game_paths =
            map (λ q. if is_path game id q then record q { enabled = enabled } else q)
              db.game_paths;
      },
    )
    else err no_rows

unfoldable pub update_path : String → String → Bool → Exec (Unit {0})
unfolding statement
update_path game id enabled = statement (set_path_enabled game id enabled)

abbrev pub is_custom : String → String → GamePath → Bool
is_custom game id q = q.id == id && (q.game_id == game && q.source == "custom")

unfoldable pub delete_custom : String → String → Tx (Unit {0})
delete_custom game id db =
    if any (is_custom game id) db.game_paths
    then ok (tt, record db { game_paths = keep (λ q. not (is_custom game id q)) db.game_paths })
    else err
        (message "only custom save locations can be deleted; exclude catalog locations instead")

unfoldable pub delete_path : String → String → Exec (Unit {0})
unfolding statement
delete_path game id = statement (delete_custom game id)

-- A plain INSERT: the id and the location must be new.
unfoldable pub append_path : GamePath → Tx (Unit {0})
append_path p db =
    if any (λ q. q.id == p.id || same_location p q) db.game_paths || not (has_game p.game_id db)
    then err constraint
    else ok (tt, record db { game_paths = db.game_paths ++ p ∷ [] })

unfoldable pub add_path : GamePath → Exec (Unit {0})
unfolding statement
add_path p = statement (append_path (path_row p.game_id p))

unfoldable pub append_exclusion : GameExclusion → Tx (Unit {0})
append_exclusion e db =
    if any (λ q. q.id == e.id || (q.game_id == e.game_id && q.pattern == e.pattern))
        db.game_exclusions
      || not (has_game e.game_id db)
    then err constraint
    else ok (tt, record db { game_exclusions = db.game_exclusions ++ e ∷ [] })

unfoldable pub add_exclusion : GameExclusion → Exec (Unit {0})
unfolding statement
add_exclusion e = statement (append_exclusion e)

unfoldable pub remove_exclusion : String → String → Tx (Unit {0})
remove_exclusion game id db =
    if any (λ q. q.id == id && q.game_id == game) db.game_exclusions
    then ok (
      tt,
      record db {
        game_exclusions = keep (λ q. not (q.id == id && q.game_id == game)) db.game_exclusions;
      },
    )
    else err no_rows

unfoldable pub delete_exclusion : String → String → Exec (Unit {0})
unfolding statement
delete_exclusion game id = statement (remove_exclusion game id)
