-- ===== src/Paths.antt =====
-- path/filepath on a system whose separator is `/`, as the source uses it: Clean, IsAbs, Join, Rel.
-- A path is its split at the separators; what is left of an empty relative path is ".".
pub mod Laws
use save_knot.Prelude.{
  Bool, true, false, not, ◌&&◌, ◌||◌, Option, none, some, List, [], ◌∷◌, ◌++◌, map, reverse, String,
  ◌==◌, if◌then◌else◌,
}

pub record FilePath : Type 0 where
  pub rooted : Bool
  pub parts : List String

-- One component onto the cleaned ones, newest first.
unfoldable pub clean_part : Bool → List String → String → List String
clean_part rooted [] part =
    if part == "" || part == "."
    then []
    else if part == ".."
    then (if rooted then [] else ".." ∷ [])
    else part ∷ []
clean_part rooted (top ∷ stack) part =
    if part == "" || part == "."
    then top ∷ stack
    else if part == ".."
    then (if top == ".." then ".." ∷ top ∷ stack else stack)
    else part ∷ top ∷ stack

unfoldable pub clean_onto : Bool → List String → List String → List String
clean_onto rooted stack [] = reverse stack
clean_onto rooted stack (part ∷ rest) = clean_onto rooted (clean_part rooted stack part) rest

-- filepath.Clean
unfoldable pub clean : FilePath → FilePath
unfolding clean_onto clean_part
clean p = record { rooted = p.rooted; parts = clean_onto p.rooted [] p.parts }

-- filepath.Join of a path with a relative one
unfoldable pub join : FilePath → FilePath → FilePath
unfolding clean
join p q = clean (record { rooted = p.rooted; parts = p.parts ++ q.parts })

abbrev pub parts_eq : List String → List String → Bool
parts_eq [] [] = true
parts_eq (p ∷ ps) (q ∷ qs) = p == q && parts_eq ps qs
parts_eq _ _ = false

abbrev pub same_bool : Bool → Bool → Bool
same_bool true b = b
same_bool false b = not b

abbrev pub path_eq : FilePath → FilePath → Bool
path_eq p q = same_bool p.rooted q.rooted && parts_eq p.parts q.parts

-- What is left of a base and a target behind their common components.
unfoldable pub strip : List String → List String → List String × List String
strip [] target = ([], target)
strip (b ∷ base) [] = (b ∷ base, [])
strip (b ∷ base) (t ∷ target) = if b == t then strip base target else (b ∷ base, t ∷ target)

-- Rel fails where the base goes on with "..".
unfoldable pub climb : List String → List String → Option (List String)
climb [] target = some target
climb (b ∷ base) target = if b == ".." then none else some (map (λ _. "..") (b ∷ base) ++ target)

-- filepath.Rel of two cleaned paths
unfoldable pub rel : FilePath → FilePath → Option (List String)
unfolding strip climb
rel base target =
    if same_bool base.rooted target.rooted
    then (let (up, down) = strip base.parts target.parts in climb up down)
    else none

-- relative == ".." || strings.HasPrefix(relative, "../")
unfoldable pub escapes : List String → Bool
escapes [] = false
escapes (part ∷ _) = part == ".."
