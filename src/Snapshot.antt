-- ===== src/Snapshot.antt =====
-- internal/snapshot/service.go: where a restored file is written, and when a game's saves have not
-- changed since its latest snapshot.
pub mod Destination
pub mod Unchanged
pub mod Scope
pub mod Activation
pub mod Restore
mod Tests
use save_knot.Prelude.{
  ℕ, Bool, true, false, not, ◌&&◌, ◌||◌, ◌=?◌, Option, none, some, List, [], ◌∷◌, String, ◌==◌, any,
  length, if◌then◌else◌,
}
use save_knot.Core.{GamePath, SnapshotFile}
use save_knot.Paths.{FilePath, clean, join, rel, escapes, path_eq}
use save_knot.Io.{Result, ok, err, message}

abbrev pub outside : Result FilePath
outside = err (message "snapshot file path escapes its configured save location")

-- The relative path from the save location to the destination must not lead out of it.
abbrev pub if_contained : FilePath → Option (List String) → Result FilePath
if_contained destination none = outside
if_contained destination (some contained) = if escapes contained then outside else ok destination

abbrev pub is_empty : List String → Bool
is_empty [] = true
is_empty (_ ∷ _) = false

-- The cleaned text is ".".
abbrev pub is_dot : FilePath → Bool
is_dot p = not p.rooted && is_empty p.parts

-- filepath.Rel cleans both of its paths.
unfoldable pub place : FilePath → FilePath → FilePath → Result FilePath
unfolding clean rel escapes
place base relative destination =
    if is_dot relative || (relative.rooted || escapes relative.parts)
    then outside
    else if_contained destination (rel (clean base) (clean destination))

-- restoreDestination
unfoldable pub restore_destination : GamePath → SnapshotFile → Result FilePath
unfolding clean join place
restore_destination source file =
    let relative = clean file.path in
    if file.root_file
    then ok source.resolved
    else place source.resolved relative (join source.resolved relative)

-- The text sourceKey + "\x00" + path of a file, where a source key is a hexadecimal text.
abbrev pub is_at : String → FilePath → SnapshotFile → Bool
is_at source_key path g = g.source_key == source_key && path_eq g.path path

-- files[key] of the map of sameContents: the last file at the key counts, and a missing key gives the
-- empty text.
unfoldable pub hash_at : List SnapshotFile → String → FilePath → String
hash_at [] key path = ""
hash_at (g ∷ rest) key path =
    let later = hash_at rest key path in
    if any (is_at key path) rest then later else if is_at key path g then g.hash else ""

-- The loop over the files of the right snapshot
unfoldable pub all_found : List SnapshotFile → List SnapshotFile → Bool
all_found left [] = true
all_found left (f ∷ rest) = hash_at left f.source_key f.path == f.hash && all_found left rest

-- The comparison of the files in sameContents
unfoldable pub same_files : List SnapshotFile → List SnapshotFile → Bool
unfolding all_found
same_files left right = length left =? length right && all_found left right
