-- ===== src/Database/Games/Editing.antt =====
-- What discovery and the user's edits leave of a game.
use save_knot.Prelude.{
  true, Option, none, some, List, [], ◌∷◌, map, String, ◌==◌, find, any, if◌then◌else◌, ◌≡◌, refl,
  arith, Bool-cases, inl, inr,
}
use save_knot.Core.{Game, GameUpdate}
use save_knot.Database.Schema.{Database}
use save_knot.Io.{ok, err, game_not_found, World}
use save_knot.Io.Refines.{Tx, bind_tx, Refines, refines_rules, Refines-pure, Refines-fail}
use save_knot.Database.Games.{
  find_game, refresh, upsert_game_row, upsert_game, scan_game, or_old, milliseconds, game, edited,
  write_edit, update_game,
}

abbrev map_option : (Game → Game) → Option Game → Option Game
map_option f none = none
map_option f (some g) = some (f g)

find-map :
    (id : String) (f : Game → Game) (games : List Game)
    → ((g : Game) → (f g).id ≡ g.id)
    → find (λ g. g.id == id) (map (λ g. if g.id == id then f g else g) games)
      ≡ map_option f (find (λ g. g.id == id) games)
unfolding find
find-map id f [] h = refl
find-map id f (g ∷ games) h = elim (Bool-cases (g.id == id)) [
  | inl e ↦ simp (e, h g) refl
  | inr e ↦ simp e (find-map id f games h)
]

any-find :
    (id : String) (games : List Game) (g : Game)
    → find (λ x. x.id == id) games ≡ some g
    → any (λ x. x.id == id) games ≡ true
unfolding find any
any-find id [] g h = ground (arith, h)
any-find id (x ∷ games) g h = ground (arith, h, any-find id games g)

-- Upserting a known game refreshes its row.
upsert_known :
    (new old : Game) (db after : Database)
    → find_game new.id db ≡ some old
    → upsert_game_row new db ≡ ok (tt, after)
    → find_game new.id after ≡ some (refresh new old)
unfolding upsert_game_row
upsert_known new old db after k h = ground (
  arith,
  k,
  h,
  any-find new.id db.games old k,
  find-map new.id (refresh new) db.games (λ g. refl),
)

abbrev scan_tx : Option Game → Tx Game
scan_tx none db = err game_not_found
scan_tx (some g) db = ok (g, db)

scan-Refines : (found : Option Game) → Refines (scan_game found) (scan_tx found)
scan-Refines none = Refines-fail game_not_found
scan-Refines (some g) = Refines-pure g

abbrev update_tx : String → GameUpdate → Tx (Unit {0})
update_tx id u =
    bind_tx (bind_tx (λ db. ok (find_game id db, db)) scan_tx) (λ g. write_edit id (edited u g))

update-Refines : (id : String) (u : GameUpdate) → Refines (update_game id u) (update_tx id u)
unfolding update_game game
update-Refines id u = search (refines_rules, scan-Refines)

upsert-Refines : (g : Game) → Refines (upsert_game g) (upsert_game_row g)
unfolding upsert_game
upsert-Refines g = search refines_rules

write_known :
    (id : String) (new old : Game) (db after : Database)
    → find_game id db ≡ some old
    → write_edit id new db ≡ ok (tt, after)
    → find_game id after
      ≡ some (record old {
        display_name = new.display_name;
        image = new.image;
        notes = new.notes;
        enabled = new.enabled;
        sync_enabled = new.sync_enabled;
      })
unfolding write_edit
write_known id new old db after k h = ground (
  arith,
  k,
  h,
  find-map id
      (λ g. record g {
        display_name = new.display_name;
        image = new.image;
        notes = new.notes;
        enabled = new.enabled;
        sync_enabled = new.sync_enabled;
      })
      db.games (λ g. refl),
)

update_known :
    (id : String) (u : GameUpdate) (g : Game) (db after : Database)
    → find_game id db ≡ some g
    → update_tx id u db ≡ ok (tt, after)
    → find_game id after ≡ some (edited u g)
update_known id u g db after k h = write_known id (edited u g) g db after k (rw k at h)

-- A game that is known keeps what the user edits: after an UpdateGame and an UpsertGame of the same
-- ID that both return no error, the name, image, notes and the two switches are those of the update,
-- or the old ones where it names none; the catalog, the store, the place and the time it was seen are
-- the new ones; and all else is as it was.
pub update_game-upsert_game :
    (u : GameUpdate) (new old : Game) (w : World)
    → find_game new.id w.db ≡ some old
    → (update_game new.id u w).0 ≡ ok tt
    → (upsert_game new (update_game new.id u w).1).0 ≡ ok tt
    → find_game new.id (upsert_game new (update_game new.id u w).1).1.db
      ≡ some (record old {
        display_name = or_old u.display_name old.display_name;
        image = or_old u.image old.image;
        notes = or_old u.notes old.notes;
        enabled = or_old u.enabled old.enabled;
        sync_enabled = or_old u.sync_enabled old.sync_enabled;
        catalog_id = new.catalog_id;
        catalog_name = new.catalog_name;
        store = new.store;
        store_id = new.store_id;
        install_path = new.install_path;
        last_seen = milliseconds new.last_seen;
      })
update_game-upsert_game u new old w k h r =
    let w₁ : World = (update_game new.id u w).1 in
    upsert_known new (edited u old) w₁.db (upsert_game new w₁).1.db
      (update_known new.id u old w.db w₁.db k ((update-Refines new.id u).success w tt h))
      ((upsert-Refines new).success w₁ tt r)
