-- ===== src/Snapshot/Destination.antt =====
-- restoreDestination: where the files of a snapshot are written.
use save_knot.Prelude.{
  Bool, false, Option, none, some, List, [], ◌∷◌, ◌++◌, String, ◌==◌, ◌≡◌, refl, ap, ◌∙◌, sym,
  arith, All, All-append,
}
use save_knot.Core.{GamePath, SnapshotFile}
use save_knot.Paths.{FilePath, clean, join, rel, escapes, climb}
use save_knot.Paths.Laws.{IsName, clean-names, clean_onto-names, join-names, strip-append}
use save_knot.Io.{ok}
use save_knot.Snapshot.{if_contained, is_dot, place, restore_destination}

-- The path of a directory and names below it.
abbrev pub below : FilePath → List String → FilePath
below p names = record p { parts = p.parts ++ names }

contained_ok : (d e : FilePath) (r : Option (List String)) → if_contained d r ≡ ok e → d ≡ e
contained_ok d e none h = ground (arith, h)
contained_ok d e (some ps) h = ground (arith, h)

accepted :
    (source : GamePath) (file : SnapshotFile) (d : FilePath)
    → file.root_file ≡ false
    → restore_destination source file ≡ ok d
    → (is_dot (clean file.path) ≡ false)
      × ((clean file.path).rooted ≡ false)
      × (escapes (clean file.path).parts ≡ false)
      × (join source.resolved (clean file.path) ≡ d)
unfolding restore_destination place
accepted source file d r h = ground (
  arith,
  r,
  h,
  contained_ok (join source.resolved (clean file.path)) d
      (rel (clean source.resolved) (clean (join source.resolved (clean file.path)))),
)

relative_names :
    (r : Bool) (parts : List String)
    → is_dot (record { rooted = r; parts = parts }) ≡ false
    → r ≡ false
    → (name : String) × (names : List String) × (◌≡◌ {A = FilePath}
        (record { rooted = r; parts = parts })
        (record { rooted = false; parts = name ∷ names }))
relative_names r [] some_name relative = absurd (ground (arith, some_name, relative))
relative_names r (name ∷ names) some_name relative =
    (name, names, ap (λ b. record { rooted = b; parts = name ∷ names }) relative)

-- Where the save location is a path of names, none of them "", "." or "..": a file that
-- restoreDestination accepts, and that is not the save location itself, has a path that Clean makes a
-- relative one of at least one such name, and it is restored to the save location followed by these names.
pub restore_destination-IsBelow :
    (source : GamePath) (file : SnapshotFile) (d : FilePath)
    → All IsName source.resolved.parts
    → file.root_file ≡ false
    → restore_destination source file ≡ ok d
    → (name : String) × (names : List String) × (clean file.path
        ≡ record { rooted = false; parts = name ∷ names })
      × All IsName (name ∷ names)
      × (d ≡ below source.resolved (name ∷ names))
restore_destination-IsBelow source file d n r h =
    let (some_name, relative, inside, to) = accepted source file d r h in
    let (name, names, e) =
      relative_names (clean file.path).rooted (clean file.path).parts some_name relative in
    let all : All IsName (clean file.path).parts = clean-names file.path inside in
    (
      name,
      names,
      e,
      rw e at all,
      sym to
          ∙ join-names source.resolved (clean file.path) n all
          ∙ ap (λ p. below source.resolved p.parts) e,
    )

clean_names : (p : FilePath) → All IsName p.parts → clean p ≡ p
unfolding clean
clean_names p n = ap (λ ps. record p { parts = ps }) (clean_onto-names p.rooted [] p.parts n)

rel-below :
    (p : FilePath) (name : String) (names : List String)
    → rel p (below p (name ∷ names)) ≡ some (name ∷ names)
unfolding rel climb
rel-below p name names = ground (arith, strip-append p.parts (name ∷ names))

restore_destination_lem :
    (source : GamePath) (file : SnapshotFile)
    → file.root_file ≡ false
    → restore_destination source file
      ≡ place source.resolved (clean file.path) (join source.resolved (clean file.path))
unfolding restore_destination
restore_destination_lem source file r = rw r refl

place_lem :
    (base destination : FilePath) (name : String) (names : List String)
    → rel (clean base) (clean destination) ≡ some (name ∷ names)
    → (name == "..") ≡ false
    → place base (record { rooted = false; parts = name ∷ names }) destination ≡ ok destination
unfolding place escapes
place_lem base destination name names e n = simp (e, n) refl

-- A path below the save location, as the scan of a backup records it (relative, of names, and not
-- empty), is restored to the place it came from.
pub restore_destination_accepts :
    (source : GamePath) (file : SnapshotFile) (name : String) (names : List String)
    → All IsName source.resolved.parts
    → file.root_file ≡ false
    → file.path ≡ record { rooted = false; parts = name ∷ names }
    → All IsName (name ∷ names)
    → restore_destination source file ≡ ok (below source.resolved (name ∷ names))
restore_destination_accepts source file name names n r p h =
    let relative : clean file.path ≡ record { rooted = false; parts = name ∷ names } =
      ap clean p ∙ clean_names (record { rooted = false; parts = name ∷ names }) h in
    let to : join source.resolved (clean file.path) ≡ below source.resolved (name ∷ names) =
      ap (join source.resolved) relative
      ∙ join-names source.resolved (record { rooted = false; parts = name ∷ names }) n h in
    let cleaned : clean (below source.resolved (name ∷ names))
        ≡ below source.resolved (name ∷ names) =
      clean_names (below source.resolved (name ∷ names))
        (All-append IsName source.resolved.parts (name ∷ names) n h) in
    let contained : rel (clean source.resolved) (clean (below source.resolved (name ∷ names)))
        ≡ some (name ∷ names) =
      ap (λ b. rel b (clean (below source.resolved (name ∷ names)))) (clean_names source.resolved n)
      ∙ ap (rel source.resolved) cleaned
      ∙ rel-below source.resolved name names in
    restore_destination_lem source file r
    ∙ ap (λ x. place source.resolved x (join source.resolved x)) relative
    ∙ ap (place source.resolved (record { rooted = false; parts = name ∷ names }))
        (ap (join source.resolved) (sym relative) ∙ to)
    ∙ place_lem source.resolved (below source.resolved (name ∷ names)) name names contained h.0.2
