-- ===== src/Database/Locations/Listing.antt =====
-- GameRegistry of internal/database/store.go: the registry keys of a game, in the order of their paths.
use save_knot.Prelude.{
  true, List, [], ◌∷◌, String, ◌==◌, keep, if◌then◌else◌, ◌≡◌, arith, Some, Some-keep, Some-behind,
  inl, inr, Bool-cases, ◌⊎◌, runes, text_less,
}
use save_knot.Core.{RegistryPath}
use save_knot.Database.Schema.{Database}
use save_knot.Io.{ok, World, Exec, query}

-- ORDER BY path
unfoldable pub insert_by_path : RegistryPath → List RegistryPath → List RegistryPath
insert_by_path k [] = k ∷ []
insert_by_path k (l ∷ rest) =
    let further = insert_by_path k rest in
    if text_less (runes l.path) (runes k.path) then l ∷ further else k ∷ l ∷ rest

unfoldable pub by_path : List RegistryPath → List RegistryPath
by_path [] = []
by_path (k ∷ rest) = insert_by_path k (by_path rest)

abbrev pub keys_of_game : String → Database → List RegistryPath
keys_of_game id db = by_path (keep (λ k. k.game_id == id) db.game_registry)

unfoldable pub game_registry : String → Exec (List RegistryPath)
unfolding query insert_by_path by_path
game_registry id = query (keys_of_game id)

Some-insert_by_path :
    (P : RegistryPath → Type 0) (k : RegistryPath) (ks : List RegistryPath)
    → Some P (insert_by_path k ks)
    → Some P (k ∷ ks)
unfolding insert_by_path
Some-insert_by_path P k [] h = h
Some-insert_by_path P k (l ∷ rest) h = elim (Bool-cases (text_less (runes l.path) (runes k.path))) [
  | inl less ↦
      let here : P l ⊎ Some P (insert_by_path k rest) = (rw less at h) in
      elim here [
        | inl p ↦ inr (inl p)
        | inr p ↦ Some-behind P k l rest (Some-insert_by_path P k rest p)
      ]
  | inr more ↦ rw more at h
]

Some-by_path :
    (P : RegistryPath → Type 0) (ks : List RegistryPath) → Some P (by_path ks) → Some P ks
unfolding by_path
Some-by_path P [] h = h
Some-by_path P (k ∷ ks) h = elim (Some-insert_by_path P k (by_path ks) h) [
  | inl p ↦ inl p
  | inr p ↦ inr (Some-by_path P ks p)
]

-- What is listed is a row of the game.
pub keys_of_game-Some :
    (P : RegistryPath → Type 0) (id : String) (db : Database)
    → Some P (keys_of_game id db)
    → Some (λ k. ((k.game_id == id) ≡ true) × P k) db.game_registry
keys_of_game-Some P id db h =
    Some-keep P (λ k. k.game_id == id) db.game_registry
      (Some-by_path P (keep (λ k. k.game_id == id) db.game_registry) h)

-- The listing reads only.
pub game_registry_lem :
    (id : String) (w : World) (keys : List RegistryPath)
    → (game_registry id w).0 ≡ ok keys
    → keys ≡ keys_of_game id w.db
unfolding game_registry query
game_registry_lem id w keys h = ground arith
