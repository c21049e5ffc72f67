-- ===== src/Snapshot/Scope.antt =====
-- The registry roots of a snapshot in internal/snapshot/service.go: uniqueRegistryRoots,
-- sameRegistryRoots and ValidateRestoreScope.
pub mod Granted
mod Tests
use save_knot.Prelude.{
  ℕ, Bool, true, false, not, ◌&&◌, ◌||◌, ◌=?◌, Option, none, some, List, [], ◌∷◌, ◌++◌, map, String,
  ◌==◌, any, every, length, if◌then◌else◌, Text, runes,
}
use save_knot.Core.{Game, RegistryPath, Snapshot, SnapshotRegistry}
use save_knot.Io.{Result, ok, err, message, Exec, pure, fail, ◌>>=◌}
use save_knot.Registry.{Unicode, normalize_root_paths, equal_fold}
use save_knot.Database.Locations.Listing.{game_registry}

abbrev pub enabled_roots : List RegistryPath → List String
enabled_roots [] = []
enabled_roots (root ∷ rest) =
    if root.enabled then root.path ∷ enabled_roots rest else enabled_roots rest

abbrev pub mismatch {ℓ} : {A : Type ℓ} → Exec A
mismatch =
    fail (message "snapshot registry scope does not match this game's configured registry paths")

abbrev pub keys_of : Option SnapshotRegistry → List String
keys_of none = []
keys_of (some registry) = registry.keys

module _ (u : Unicode) where
  unfoldable pub unique_onto : List Text → List Text → List Text
  unique_onto unique [] = unique
  unique_onto unique (root ∷ rest) =
      unique_onto (if any (equal_fold u root) unique then unique else unique ++ root ∷ []) rest

  -- uniqueRegistryRoots
  unfoldable pub unique_registry_roots : List Text → List Text
  unfolding unique_onto
  unique_registry_roots roots = unique_onto [] roots

  -- Every root has an equal candidate.
  unfoldable pub all_among : List Text → List Text → Bool
  all_among candidates roots = every (λ root. any (equal_fold u root) candidates) roots

  abbrev pub same_roots : Result (List Text) → Result (List Text) → Bool
  same_roots (err _) _ = false
  same_roots (ok _) (err _) = false
  same_roots (ok left) (ok right) =
      length (unique_registry_roots left) =? length (unique_registry_roots right)
      && all_among (unique_registry_roots right) (unique_registry_roots left)

  -- sameRegistryRoots
  unfoldable pub same_registry_roots : List String → List String → Bool
  unfolding unique_registry_roots all_among
  same_registry_roots left right =
      same_roots (normalize_root_paths u left) (normalize_root_paths u right)

  abbrev pub scope : Result (List Text) → Result (List Text) → Exec (List Text)
  scope (err _) _ = mismatch
  scope (ok _) (err _) = mismatch
  scope (ok configured) (ok target) =
      if all_among (unique_registry_roots configured) (unique_registry_roots target)
      then pure (unique_registry_roots target)
      else mismatch

  abbrev pub scope_of_keys : String → List String → Exec (List Text)
  scope_of_keys game_id [] = pure []
  scope_of_keys game_id (key ∷ keys) = game_registry game_id >>= λ configured.
      scope (normalize_root_paths u (enabled_roots configured))
        (normalize_root_paths u (key ∷ keys))

  -- ValidateRestoreScope; an empty and a nil slice are the same.
  unfoldable pub validate_restore_scope : Game → Snapshot → Exec (List Text)
  unfolding ◌>>=◌ unique_registry_roots all_among
  validate_restore_scope game target =
      if target.game_id == game.id
      then scope_of_keys game.id (keys_of target.registry)
      else fail (message "snapshot does not belong to this game")
