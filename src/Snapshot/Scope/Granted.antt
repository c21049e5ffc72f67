-- ===== src/Snapshot/Scope/Granted.antt =====
-- What ValidateRestoreScope grants.
use save_knot.Prelude.{
  ℕ, Bool, true, List, [], ◌∷◌, ◌++◌, String, ◌==◌, any, if◌then◌else◌, Text, runes, ◌≡◌, refl,
  arith, All, Some, All-mono, every-All, any-append, Bool-cases, ◌⊎◌, inl, inr,
}
use save_knot.Core.{Game, RegistryPath, Snapshot}
use save_knot.Io.{Result, ok, err, World, ◌>>=◌}
use save_knot.Io.Laws.{Result-cases}
use save_knot.Registry.{Unicode, normalize_path, normalize_root_paths, equal_fold, trim_separators}
use save_knot.Database.Schema.{Database}
use save_knot.Database.Locations.Listing.{
  game_registry, game_registry_lem, keys_of_game, keys_of_game-Some,
}
use save_knot.Snapshot.Scope.{
  enabled_roots, unique_onto, unique_registry_roots, all_among, scope, scope_of_keys, keys_of,
  validate_restore_scope,
}

module _ (u : Unicode) where
  -- The text has a normalized path that meets the test.
  pub record Names (test : Text → Bool) (text : String) : Type 0 where
    pub path : Text
    pub normal : normalize_path u (trim_separators (runes text)) ≡ ok path
    pub meets : test path ≡ true

  abbrev pub IsEnabledAt : Text → RegistryPath → Type 0
  IsEnabledAt root row = (row.enabled ≡ true) × Names (equal_fold u root) row.path

  -- The row is an enabled key of the game, and the root is its path up to case.
  abbrev pub IsGrant : String → Text → RegistryPath → Type 0
  IsGrant game_id root row = ((row.game_id == game_id) ≡ true) × IsEnabledAt root row

  unique_onto-any :
      (p : Text → Bool) (seen roots : List Text)
      → any p (unique_onto u seen roots) ≡ true
      → any p seen ≡ true ⊎ (any p roots ≡ true)
  unfolding unique_onto any
  unique_onto-any p seen [] h = inl h
  unique_onto-any p seen (r ∷ rest) h = elim (Bool-cases (any (equal_fold u r) seen)) [
    | inl old ↦ elim (unique_onto-any p seen rest (rw old at h)) [
      | inl s ↦ inl s
      | inr s ↦ inr (ground (arith, s))
    ]
    | inr new ↦ elim (unique_onto-any p (seen ++ r ∷ []) rest (rw new at h)) [
      | inl s ↦ elim (Bool-cases (any p seen)) [
        | inl t ↦ inl t
        | inr t ↦ inr (ground (arith, s, t, any-append p seen (r ∷ [])))
      ]
      | inr s ↦ inr (ground (arith, s))
    ]
  ]

  -- A root that is found among the normalized ones is one of the texts.
  normalize_root_paths-Some :
      (p : Text → Bool) (roots : List String) (normal : List Text)
      → normalize_root_paths u roots ≡ ok normal
      → any p normal ≡ true
      → Some (Names p) roots
  unfolding normalize_root_paths any
  normalize_root_paths-Some p [] normal n h = absurd (ground (arith, n))
  normalize_root_paths-Some p (r ∷ roots) normal n h =
      elim (Result-cases (normalize_path u (trim_separators (runes r)))) [
        | inl (path, e) ↦ elim (Result-cases (normalize_root_paths u roots)) [
          | inl (rest, f) ↦
              let whole : path ∷ rest ≡ normal = ground (arith, e, f) in
              elim (Bool-cases (p path)) [
                | inl hit ↦ inl (record { path = path; normal = e; meets = hit })
                | inr miss ↦
                    inr (normalize_root_paths-Some p roots rest f (ground (arith, miss, whole)))
              ]
          | inr (x, f) ↦ absurd (ground (arith, e, f))
        ]
        | inr (x, e) ↦ absurd (ground (arith, e))
      ]

  enabled_roots-Some :
      (P : String → Type 0) (rows : List RegistryPath)
      → Some P (enabled_roots rows)
      → Some (λ row. (row.enabled ≡ true) × P row.path) rows
  enabled_roots-Some P [] h = h
  enabled_roots-Some P (row ∷ rows) h = elim (Bool-cases row.enabled) [
    | inl e ↦
        let here : P row.path ⊎ Some P (enabled_roots rows) = (rw e at h) in
        elim here [ inl p ↦ inl (e, p) | inr p ↦ inr (enabled_roots-Some P rows p) ]
    | inr e ↦ inr (enabled_roots-Some P rows (rw e at h))
  ]

  -- What the comparison of the normalized roots lets through.
  scope-ok :
      (configured target : Result (List Text)) (w : World) (roots : List Text)
      → (scope u configured target w).0 ≡ ok roots
      → (c : List Text) × (t : List Text) × (configured ≡ ok c)
        × (target ≡ ok t)
        × (roots ≡ unique_registry_roots u t)
        × (all_among u (unique_registry_roots u c) roots ≡ true)
  scope-ok (err e) target w roots h = absurd (cc)
  scope-ok (ok c) (err e) w roots h = absurd (cc)
  scope-ok (ok c) (ok t) w roots h =
      elim (Bool-cases (all_among u (unique_registry_roots u c) (unique_registry_roots u t))) [
        | inl good ↦ (c, t, refl, refl, ground (arith, good), ground (arith, good))
        | inr bad ↦ absurd (ground (arith, bad))
      ]

  granted :
      (game_id : String) (db : Database) (c : List Text) (root : Text)
      → normalize_root_paths u (enabled_roots (keys_of_game game_id db)) ≡ ok c
      → any (equal_fold u root) (unique_registry_roots u c) ≡ true
      → Some (IsGrant game_id root) db.game_registry
  unfolding unique_registry_roots
  granted game_id db c root n h = elim (unique_onto-any (equal_fold u root) [] c h) [
    | inl s ↦ absurd (unfold any in cc)
    | inr s ↦ keys_of_game-Some (IsEnabledAt root) game_id db (
        enabled_roots-Some (Names (equal_fold u root)) (keys_of_game game_id db) (
          normalize_root_paths-Some (equal_fold u root) (enabled_roots (keys_of_game game_id db)) c
            n s))
  ]

  every-granted :
      (game_id : String) (db : Database) (c roots : List Text)
      → normalize_root_paths u (enabled_roots (keys_of_game game_id db)) ≡ ok c
      → all_among u (unique_registry_roots u c) roots ≡ true
      → All (λ root. Some (IsGrant game_id root) db.game_registry) roots
  unfolding all_among
  every-granted game_id db c roots n h =
      All-mono (λ root. any (equal_fold u root) (unique_registry_roots u c) ≡ true)
        (λ root. Some (IsGrant game_id root) db.game_registry) roots
        (λ root a. granted game_id db c root n a)
        (every-All (λ root. any (equal_fold u root) (unique_registry_roots u c)) roots h)

  unique_onto-keeps :
      (p : Text → Bool) (seen roots : List Text)
      → any p seen ≡ true
      → any p (unique_onto u seen roots) ≡ true
  unfolding unique_onto any
  unique_onto-keeps p seen [] h = h
  unique_onto-keeps p seen (r ∷ rest) h = elim (Bool-cases (any (equal_fold u r) seen)) [
    | inl old ↦ rw old (unique_onto-keeps p seen rest h)
    | inr new ↦
        rw new (
          unique_onto-keeps p (seen ++ r ∷ []) rest (ground (arith, h, any-append p seen (r ∷ []))))
  ]

  module _ (folds_refl : (c : ℕ) → u.folds c c ≡ true) where
    equal_fold_refl : (s : Text) → equal_fold u s s ≡ true
    unfolding equal_fold
    equal_fold_refl [] = refl
    equal_fold_refl (c ∷ s) = rw (folds_refl c, equal_fold_refl s)

    added :
        (r : Text) (seen : List Text)
        → any (equal_fold u r) (if any (equal_fold u r) seen then seen else seen ++ r ∷ []) ≡ true
    unfolding any
    added r seen = ground (arith, equal_fold_refl r, any-append (equal_fold u r) seen (r ∷ []))

    unique_onto-covers :
        (seen roots : List Text)
        → All (λ root. any (equal_fold u root) (unique_onto u seen roots) ≡ true) roots
    unfolding unique_onto any
    unique_onto-covers seen [] = tt
    unique_onto-covers seen (r ∷ rest) =
        let next : List Text = if any (equal_fold u r) seen then seen else seen ++ r ∷ [] in
        (unique_onto-keeps (equal_fold u r) next rest (added r seen), unique_onto-covers next rest)

    -- Every text has a root of the list that is its path up to case.
    covered :
        (keys : List String) (t : List Text) (roots : List Text)
        → normalize_root_paths u keys ≡ ok t
        → All (λ root. any (equal_fold u root) roots ≡ true) t
        → All (Names (λ path. any (equal_fold u path) roots)) keys
    unfolding normalize_root_paths
    covered [] t roots n h = tt
    covered (k ∷ keys) t roots n h =
        elim (Result-cases (normalize_path u (trim_separators (runes k)))) [
          | inl (path, e) ↦ elim (Result-cases (normalize_root_paths u keys)) [
            | inl (rest, f) ↦
                let whole : t ≡ path ∷ rest = ground (arith, e, f) in
                let a : All (λ root. any (equal_fold u root) roots ≡ true) (path ∷ rest) =
                  (rw whole at h) in
                (record { path = path; normal = e; meets = a.0 }, covered keys rest roots f a.1)
            | inr (x, f) ↦ absurd (ground (arith, e, f))
          ]
          | inr (x, e) ↦ absurd (ground (arith, e))
        ]

    abbrev pub IsScopeOf : String → List String → Database → List Text → Type 0
    IsScopeOf game_id keys db roots =
        All (λ root. Some (IsGrant game_id root) db.game_registry) roots
        × All (Names (λ path. any (equal_fold u path) roots)) keys

    compared-IsScopeOf :
        (game_id : String) (keys : List String) (db : Database) (w : World) (roots : List Text)
        → (scope u
            (normalize_root_paths u (enabled_roots (keys_of_game game_id db)))
            (normalize_root_paths u keys)
            w).0
          ≡ ok roots
        → IsScopeOf game_id keys db roots
    compared-IsScopeOf game_id keys db w roots h =
        let (c, t, configured, target, whole, among) =
          scope-ok (normalize_root_paths u (enabled_roots (keys_of_game game_id db)))
            (normalize_root_paths u keys) w roots h in
        (
          every-granted game_id db c roots configured among,
          covered keys t roots target
              (rw whole (unfold unique_registry_roots in unique_onto-covers [] t)),
        )

    scope_of_keys-IsScopeOf :
        (game_id : String) (keys : List String) (w : World) (roots : List Text)
        → (scope_of_keys u game_id keys w).0 ≡ ok roots
        → IsScopeOf game_id keys w.db roots
    unfolding ◌>>=◌
    scope_of_keys-IsScopeOf game_id [] w roots h =
        let none_left : roots ≡ [] = ground (arith, h) in rw none_left (tt, tt)
    scope_of_keys-IsScopeOf game_id (k ∷ keys) w roots h =
        elim (Result-cases (game_registry game_id w).0) [
          | inl (rows, e) ↦
              compared-IsScopeOf game_id (k ∷ keys) w.db (game_registry game_id w).1 roots
                (rw (← game_registry_lem game_id w rows e) (rw e at h))
          | inr (x, e) ↦ absurd (ground (arith, e))
        ]

    -- Where folding is reflexive, and whatever calls fail: when ValidateRestoreScope returns roots, the
    -- snapshot is of the game, every returned root is the path of an enabled registry key that the
    -- tables hold for the game, up to case, and every registry key of the snapshot has its path, up to
    -- case, among the returned roots.
    pub validate_restore_scope-IsScopeOf :
        (game : Game) (target : Snapshot) (w : World) (roots : List Text)
        → (validate_restore_scope u game target w).0 ≡ ok roots
        → ((target.game_id == game.id) ≡ true)
          × IsScopeOf game.id (keys_of target.registry) w.db roots
    unfolding validate_restore_scope
    validate_restore_scope-IsScopeOf game target w roots h =
        elim (Bool-cases (target.game_id == game.id)) [
          | inl same ↦ (
            same,
            scope_of_keys-IsScopeOf game.id (keys_of target.registry) w roots (rw same at h),
          )
          | inr other ↦ absurd (ground (arith, other))
        ]
