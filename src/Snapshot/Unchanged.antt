-- ===== src/Snapshot/Unchanged.antt =====
-- When the comparison of files finds two snapshots to be the same.
use save_knot.Prelude.{
  Bool, true, false, ◌&&◌, ◌||◌, List, [], ◌∷◌, String, ◌==◌, any, length, ◌≡◌, refl, ap, ◌∙◌, sym,
  arith, All, All-mono, Bool-cases, inl, inr, eq_iff, eq_refl,
}
use save_knot.Core.{SnapshotFile}
use save_knot.Paths.{FilePath, path_eq, parts_eq, same_bool}
use save_knot.Snapshot.{is_at, hash_at, all_found, same_files}

hash_at-found :
    (left : List SnapshotFile) (key : String) (path : FilePath) (hash : String)
    → hash_at left key path ≡ hash
    → (hash == "") ≡ false
    → any (λ g. is_at key path g && g.hash == hash) left ≡ true
unfolding hash_at any
hash_at-found [] key path hash e h = ground (arith, ap (λ x. x == "") e ∙ h, eq_refl "")
hash_at-found (g ∷ rest) key path hash e h = elim (Bool-cases (any (is_at key path) rest)) [
  | inl a ↦ ground (arith, hash_at-found rest key path hash (rw a at e) h)
  | inr a ↦ elim (Bool-cases (is_at key path g)) [
    | inl s ↦ let same : g.hash ≡ hash = simp (a, s) at e in rw same (simp (s, eq_refl hash) refl)
    | inr s ↦
        let same : "" ≡ hash = simp (a, s) at e in
        ground (arith, ap (λ x. x == "") same ∙ h, eq_refl "")
  ]
]

all_found-hash :
    (left right : List SnapshotFile)
    → all_found left right ≡ true
    → All (λ f. hash_at left f.source_key f.path ≡ f.hash) right
unfolding all_found
all_found-hash left [] h = tt
all_found-hash left (f ∷ right) h = elim (Bool-cases (hash_at left f.source_key f.path == f.hash)) [
  | inl e ↦ (
    (eq_iff (hash_at left f.source_key f.path) f.hash).0 e,
    all_found-hash left right (rw e at h),
  )
  | inr e ↦ ground (arith, e, h)
]

parts_eq-≡ : (p q : List String) → parts_eq p q ≡ true → p ≡ q
parts_eq-≡ [] [] h = refl
parts_eq-≡ [] (y ∷ q) h = ground (arith, h)
parts_eq-≡ (x ∷ p) [] h = ground (arith, h)
parts_eq-≡ (x ∷ p) (y ∷ q) h = elim (Bool-cases (x == y)) [
  | inl e ↦ rw ((eq_iff x y).0 e) (ap (λ r. y ∷ r) (parts_eq-≡ p q (rw e at h)))
  | inr e ↦ ground (arith, e, h)
]

same_bool-≡ : (a b : Bool) → same_bool a b ≡ true → a ≡ b
same_bool-≡ true b h = sym h
same_bool-≡ false b h = ground (arith, h)

path_eq-≡ : (p q : FilePath) → path_eq p q ≡ true → p ≡ q
path_eq-≡ p q h =
    let l : same_bool p.rooted q.rooted ≡ true = ground (arith, h) in
    let r : parts_eq p.parts q.parts ≡ true = ground (arith, h) in
    cc (same_bool-≡ p.rooted q.rooted l, parts_eq-≡ p.parts q.parts r)

is_at-hash :
    (left : List SnapshotFile) (f g : SnapshotFile)
    → is_at f.source_key f.path g ≡ true
    → hash_at left f.source_key f.path ≡ hash_at left g.source_key g.path
is_at-hash left f g h =
    let k : (g.source_key == f.source_key) ≡ true = ground (arith, h) in
    let p : path_eq g.path f.path ≡ true = ground (arith, h) in
    cc ((eq_iff g.source_key f.source_key).0 k, path_eq-≡ g.path f.path p)

-- Two files of a list at the same key have the same hash.
abbrev pub IsConsistent : List SnapshotFile → Type 0
IsConsistent files =
    All (λ f. All (λ g. is_at f.source_key f.path g ≡ true → f.hash ≡ g.hash) files) files

all_found-IsConsistent :
    (left right : List SnapshotFile) → all_found left right ≡ true → IsConsistent right
all_found-IsConsistent left right h =
    let found : All (λ f. hash_at left f.source_key f.path ≡ f.hash) right =
      all_found-hash left right h in
    All-mono (λ f. hash_at left f.source_key f.path ≡ f.hash)
      (λ f. All (λ g. is_at f.source_key f.path g ≡ true → f.hash ≡ g.hash) right) right
      (λ f e.
        All-mono (λ g. hash_at left g.source_key g.path ≡ g.hash)
          (λ g. is_at f.source_key f.path g ≡ true → f.hash ≡ g.hash) right
          (λ g k s. sym e ∙ is_at-hash left f g s ∙ k) found)
      found

-- The files of the left snapshot have the file, by source, path and hash; a file without a hash counts
-- as found.
abbrev pub is_kept : List SnapshotFile → SnapshotFile → Bool
is_kept left f = f.hash == "" || any (λ g. is_at f.source_key f.path g && g.hash == f.hash) left

found-is_kept :
    (left : List SnapshotFile) (f : SnapshotFile)
    → hash_at left f.source_key f.path ≡ f.hash
    → is_kept left f ≡ true
found-is_kept left f e = elim (Bool-cases (f.hash == "")) [
  | inl n ↦ rw n refl
  | inr n ↦ rw n (hash_at-found left f.source_key f.path f.hash e n)
]

-- If the comparison finds the files of two snapshots to be the same, then the snapshots have as many
-- files, every file of the right one that has a hash is in the left one, with its source, its path
-- and its hash, and two files of the right one with the same source and path have the same hash.
pub same_files_lem :
    (left right : List SnapshotFile)
    → same_files left right ≡ true
    → (length left ≡ length right) × All (λ f. is_kept left f ≡ true) right × IsConsistent right
unfolding same_files
same_files_lem left right h =
    let found : all_found left right ≡ true = ground (arith, h) in
    (
      ground (arith, h),
      All-mono (λ f. hash_at left f.source_key f.path ≡ f.hash) (λ f. is_kept left f ≡ true) right
          (found-is_kept left) (all_found-hash left right found),
      all_found-IsConsistent left right found,
    )
