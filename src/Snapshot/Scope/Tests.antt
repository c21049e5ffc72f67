-- ===== src/Snapshot/Scope/Tests.antt =====
-- Concrete registry roots of a game and of a snapshot.
use save_knot.Prelude.{
  ℕ, pos, true, false, none, some, List, [], ◌∷◌, ◌==◌, ◌≡◌, refl, arith, any, every, keep, Text,
  runes, text_eq, text_less,
}
use save_knot.Core.{Game, Snapshot}
use save_knot.Io.{World, query, ◌>>=◌, external}
use save_knot.Database.Schema.{empty_database}
use save_knot.Database.Locations.Listing.{game_registry, by_path, insert_by_path}
use save_knot.Registry.{
  normalize_root_paths, trim_separators, normalize_path, normalize_parts, hive_of, split,
  join_parts, equal_fold,
}
use save_knot.Registry.Tests.{ascii, lower_letter, upper_letter}
use save_knot.Snapshot.Scope.{
  unique_onto, unique_registry_roots, all_among, keys_of, validate_restore_scope,
}
use save_knot.Snapshot.Scope.Granted.{IsScopeOf, validate_restore_scope-IsScopeOf}

abbrev a_game : Game
a_game = record {
  id = "g";
  catalog_id = "c";
  catalog_name = "name";
  display_name = "Name";
  store = "steam";
  store_id = "1";
  install_path = "/games/g";
  image = "";
  notes = "";
  enabled = true;
  sync_enabled = true;
  hidden = false;
  last_seen = none;
  last_change = none;
  last_backup = none;
}

abbrev target : Snapshot
target = record {
  version = pos 1;
  id = "s";
  game_id = "g";
  game_name = "Name";
  device_id = "d";
  created_at = 0;
  files = [];
  registry = some (record {
    keys = "HKCU/software/game/" ∷ "hkcu\\Software\\Game" ∷ [];
    hash = "h";
    size = pos 1;
  });
  metadata = record { display_name = "Name"; notes = ""; image = "" };
  original_size = pos 1;
  stored_size = pos 1;
  remote_state = "synced";
}

abbrev a_world : World
a_world = record {
  db = record empty_database {
    game_registry =
        record {
          id = "k";
          game_id = "g";
          source = "catalog";
          path = "HKEY_CURRENT_USER\\Software\\Game";
          enabled = true;
        }
        ∷ [];
  };
  disk = λ _. none;
  objects = [];
  faults = [];
  ids = [];
}

abbrev granted_roots : List Text
granted_roots = runes "HKCU/software/game" ∷ []

folds_refl : (c : ℕ) → ascii.folds c c ≡ true
folds_refl c = ground arith

validate_restore_scope-IsScopeOf_example :
    ((target.game_id == a_game.id) ≡ true)
    × IsScopeOf ascii folds_refl a_game.id (keys_of target.registry) a_world.db granted_roots
unfolding validate_restore_scope unique_onto unique_registry_roots all_among game_registry by_path
    insert_by_path normalize_root_paths trim_separators normalize_path normalize_parts hive_of split
    join_parts equal_fold lower_letter upper_letter any every keep text_eq text_less query ◌>>=◌
    external
validate_restore_scope-IsScopeOf_example =
    validate_restore_scope-IsScopeOf ascii folds_refl a_game target a_world granted_roots refl
