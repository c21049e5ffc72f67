-- ===== src/Snapshot/Tests.antt =====
-- Concrete files of a backup and of a restore.
use save_knot.Prelude.{pos, true, false, List, [], ◌∷◌, String, ◌≡◌, refl, All, length, any}
use save_knot.Core.{GamePath, SnapshotFile}
use save_knot.Paths.{clean, clean_onto, clean_part, join, rel, escapes, strip, climb}
use save_knot.Paths.Laws.{IsName}
use save_knot.Io.{ok}
use save_knot.Snapshot.{place, restore_destination, hash_at, all_found, same_files}
use save_knot.Snapshot.Destination.{below, restore_destination-IsBelow, restore_destination_accepts}
use save_knot.Snapshot.Unchanged.{is_kept, IsConsistent, same_files_lem}

abbrev saves : GamePath
saves = record {
  id = "p";
  game_id = "g";
  source = "catalog";
  template = "<home>/saves";
  resolved = record { rooted = true; parts = "home" ∷ "saves" ∷ [] };
  enabled = true;
}

abbrev file_at : List String → SnapshotFile
file_at parts = record {
  source_key = "k";
  path = record { rooted = false; parts = parts };
  root_file = false;
  hash = "h";
  size = pos 1;
  mode = 420;
  modified = 0;
}

abbrev winding : SnapshotFile
winding = file_at ("a" ∷ ".." ∷ "slot" ∷ "." ∷ "one" ∷ [])

restore_destination-IsBelow_example :
    (name : String) × (names : List String) × (clean winding.path
      ≡ record { rooted = false; parts = name ∷ names })
    × All IsName (name ∷ names)
    × (below saves.resolved ("slot" ∷ "one" ∷ []) ≡ below saves.resolved (name ∷ names))
unfolding restore_destination place clean clean_onto clean_part join rel escapes strip climb
restore_destination-IsBelow_example =
    restore_destination-IsBelow saves winding (below saves.resolved ("slot" ∷ "one" ∷ []))
      ((refl, refl, refl), ((refl, refl, refl), tt)) refl refl

restore_destination_accepts_example :
    restore_destination saves (file_at ("slot" ∷ "one" ∷ []))
    ≡ ok (below saves.resolved ("slot" ∷ "one" ∷ []))
restore_destination_accepts_example =
    restore_destination_accepts saves (file_at ("slot" ∷ "one" ∷ [])) "slot" ("one" ∷ [])
      ((refl, refl, refl), ((refl, refl, refl), tt)) refl refl
      ((refl, refl, refl), ((refl, refl, refl), tt))

abbrev two_files : List SnapshotFile
two_files = file_at ("one" ∷ []) ∷ record (file_at ("two" ∷ [])) { hash = "i" } ∷ []

same_files_lem_example :
    (length two_files ≡ length two_files)
    × All (λ f. is_kept two_files f ≡ true) two_files
    × IsConsistent two_files
unfolding same_files all_found hash_at any
same_files_lem_example = same_files_lem two_files two_files refl
