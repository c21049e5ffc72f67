-- ===== src/Database/Locations/Catalog.antt =====
-- ReplaceCatalogPaths: which catalog paths are left.
use save_knot.Prelude.{
  Bool, ◌&&◌, ◌||◌, true, not, List, [], ◌∷◌, map, String, ◌==◌, keep, any, ◌≡◌, arith, eq_refl,
  Bool-cases, ◌⊎◌, inl, inr, All, All-mono, subst,
}
use save_knot.Core.{GamePath}
use save_knot.Database.Schema.{Database}
use save_knot.Io.{Error, Result, ok, err, World}
use save_knot.Io.Laws.{Result-cases, IsAtomic, transaction-IsAtomic}
use save_knot.Io.Refines.{Tx, bind_tx, for_each_tx, Refines, refines_rules}
use save_knot.Database.Locations.{
  insert_path, path_row, is_stale, stale, delete_path_row, save_game_paths, replace_catalog_paths,
}

abbrev save_paths_tx : String → List GamePath → Tx (Unit {0})
save_paths_tx game paths =
    bind_tx (for_each_tx paths (λ p. insert_path (path_row game p)))
      (λ _. bind_tx (λ db. ok (stale game paths db, db)) (λ ids. for_each_tx ids delete_path_row))

save_paths-Refines :
    (game : String) (paths : List GamePath)
    → Refines (save_game_paths game paths) (save_paths_tx game paths)
unfolding save_game_paths
save_paths-Refines game paths = search refines_rules

abbrev IsListed : String → List GamePath → List String → GamePath → Type 0
IsListed game paths ids q = is_stale game paths q ≡ true → any (λ id. q.id == id) ids ≡ true

-- A catalog path of the game has the ID of one of the paths.
abbrev pub is_desired : String → List GamePath → GamePath → Bool
is_desired game paths q =
    not (q.game_id == game && q.source == "catalog") || any (λ p. p.id == q.id) paths

abbrev pub IsDesired : String → List GamePath → GamePath → Type 0
IsDesired game paths q = is_desired game paths q ≡ true

keep-IsListed :
    (game : String) (paths : List GamePath) (id : String) (ids : List String) (rows : List GamePath)
    → All (IsListed game paths (id ∷ ids)) rows
    → All (IsListed game paths ids) (keep (λ q. not (q.id == id)) rows)
unfolding any keep
keep-IsListed game paths id ids [] h = tt
keep-IsListed game paths id ids (q ∷ rows) h = elim (Bool-cases (q.id == id)) [
  | inl e ↦ simp e (keep-IsListed game paths id ids rows h.1)
  | inr e ↦ simp e (λ s. ground (arith, h.0, s, e), keep-IsListed game paths id ids rows h.1)
]

delete_all_lem :
    (game : String) (paths : List GamePath) (ids : List String) (db after : Database)
    → All (IsListed game paths ids) db.game_paths
    → for_each_tx ids delete_path_row db ≡ ok (tt, after)
    → All (IsDesired game paths) after.game_paths
unfolding for_each_tx delete_path_row any
delete_all_lem game paths [] db after l h =
    let same : db.game_paths ≡ after.game_paths = ground (arith, h) in
    subst (All (IsDesired game paths)) same (
      All-mono (IsListed game paths []) (IsDesired game paths) db.game_paths
        (λ q k. ground (arith, k)) l)
delete_all_lem game paths (id ∷ ids) db after l h =
    delete_all_lem game paths ids
      (record db { game_paths = keep (λ q. not (q.id == id)) db.game_paths }) after
      (keep-IsListed game paths id ids db.game_paths l) h

stale_ids : String → List GamePath → List GamePath → List String
stale_ids game paths rows = map (λ q. q.id) (keep (is_stale game paths) rows)

stale_ids_grow :
    (game : String) (paths : List GamePath) (x q : GamePath) (rows : List GamePath)
    → IsListed game paths (stale_ids game paths rows) q
    → IsListed game paths (stale_ids game paths (x ∷ rows)) q
unfolding stale_ids keep any
stale_ids_grow game paths x q rows k s = ground (arith, k s)

stale_ids_head :
    (game : String) (paths : List GamePath) (x : GamePath) (rows : List GamePath)
    → IsListed game paths (stale_ids game paths (x ∷ rows)) x
unfolding stale_ids keep any
stale_ids_head game paths x rows s = ground (arith, s, eq_refl x.id)

stale-IsListed :
    (game : String) (paths rows : List GamePath)
    → All (IsListed game paths (stale_ids game paths rows)) rows
stale-IsListed game paths [] = tt
stale-IsListed game paths (x ∷ rows) = (
  stale_ids_head game paths x rows,
  All-mono (IsListed game paths (stale_ids game paths rows))
      (IsListed game paths (stale_ids game paths (x ∷ rows))) rows
      (λ q. stale_ids_grow game paths x q rows) (stale-IsListed game paths rows),
)

save_paths-IsDesired :
    (game : String) (paths : List GamePath) (db after : Database)
    → save_paths_tx game paths db ≡ ok (tt, after)
    → All (IsDesired game paths) after.game_paths
unfolding stale stale_ids
save_paths-IsDesired game paths db after h =
    elim (Result-cases (for_each_tx paths (λ p. insert_path (path_row game p)) db)) [
      | inl ((_, db₁), e) ↦
          delete_all_lem game paths (stale game paths db₁) db₁ after
            (stale-IsListed game paths db₁.game_paths) (rw e at h)
      | inr (x, e) ↦
          let bad : ◌≡◌ {A = Result (Unit {0} × Database)} (err x) (ok (tt, after)) = (rw e at h) in
          cc
    ]

replace-Refines :
    (game : String) (paths : List GamePath)
    → Refines (replace_catalog_paths game paths) (save_paths_tx game paths)
unfolding replace_catalog_paths
replace-Refines game paths = search (refines_rules, save_paths-Refines)

replace-IsAtomic :
    (game : String) (paths : List GamePath) → IsAtomic (replace_catalog_paths game paths)
unfolding replace_catalog_paths
replace-IsAtomic game paths = search transaction-IsAtomic

-- ReplaceCatalogPaths ends in one of two ways, whatever calls fail. Either it succeeds, and every
-- catalog path of the game in the table has the ID of one of the new paths; or it returns an error,
-- and no table changes.
pub replace_catalog_paths_lem :
    (game : String) (paths : List GamePath) (w : World)
    → (((replace_catalog_paths game paths w).0 ≡ ok tt)
        × All (IsDesired game paths) (replace_catalog_paths game paths w).1.db.game_paths)
      ⊎ ((e : Error) × ((replace_catalog_paths game paths w).0 ≡ err e)
          × ((replace_catalog_paths game paths w).1.db ≡ w.db))
replace_catalog_paths_lem game paths w =
    elim (Result-cases (replace_catalog_paths game paths w).0) [
      | inl (a, h) ↦ inl (
        h,
        save_paths-IsDesired game paths w.db (replace_catalog_paths game paths w).1.db
            ((replace-Refines game paths).success w tt h),
      )
      | inr (e, h) ↦ inr (e, h, (replace-IsAtomic game paths).unchanged w e h)
    ]
