-- ===== src/Registry.antt =====
-- internal/registrybackup/registry.go: the paths of registry keys, and the check that a stored document
-- names no key outside the configured roots. A path is walked as the list of its code points. The
-- case mappings of the package unicode are a parameter.
pub mod Splitting
pub mod Contained
pub mod Tests
use save_knot.Prelude.{
  ℕ, ℤ, Bool, true, false, ◌&&◌, ◌||◌, ◌=?◌, Option, none, some, List, [], ◌∷◌, ◌++◌, map, String,
  any, if◌then◌else◌, Text, runes, text_eq,
}
use save_knot.Io.{Result, ok, err, message}

-- unicode.ToLower, unicode.ToUpper, and whether two code points are equal under simple folding
pub record Unicode : Type 0 where
  pub lower : ℕ → ℕ
  pub upper : ℕ → ℕ
  pub folds : ℕ → ℕ → Bool

pub record ValueData : Type 0 where
  pub name : String
  pub kind : ℕ
  pub text : Option String
  pub texts : List String
  pub integer : Option ℕ
  pub binary : List ℕ

pub record KeyData : Type 0 where
  pub path : String
  pub values : List ValueData

pub record Document : Type 0 where
  pub version : ℤ
  pub keys : List KeyData

abbrev pub slash : ℕ
slash = 47

abbrev pub is_separator : ℕ → Bool
is_separator c = c =? slash || c =? 92

abbrev pub push_unless_last : ℕ → Text → Text
push_unless_last c [] = if is_separator c then [] else c ∷ []
push_unless_last c (d ∷ s) = c ∷ d ∷ s

-- strings.TrimRight(s, `/\`)
unfoldable pub trim_separators : Text → Text
trim_separators [] = []
trim_separators (c ∷ s) = push_unless_last c (trim_separators s)

-- strings.ReplaceAll(s, `\`, "/")
abbrev pub to_slash : ℕ → ℕ
to_slash c = if c =? 92 then slash else c

abbrev pub prepend : ℕ → List Text → List Text
prepend c [] = (c ∷ []) ∷ []
prepend c (part ∷ parts) = (c ∷ part) ∷ parts

-- strings.Split(s, "/")
unfoldable pub split : Text → List Text
split [] = [] ∷ []
split (c ∷ s) = let rest = split s in if c =? slash then [] ∷ rest else prepend c rest

-- strings.Join(parts, "/")
unfoldable pub join_parts : List Text → Text
join_parts [] = []
join_parts (part ∷ []) = part
join_parts (part ∷ next ∷ rest) = part ++ slash ∷ join_parts (next ∷ rest)

unfoldable pub has_prefix : Text → Text → Bool
has_prefix _ [] = true
has_prefix [] (_ ∷ _) = false
has_prefix (c ∷ s) (d ∷ p) = c =? d && has_prefix s p

-- part == "" || part == "." || part == ".."
abbrev pub is_invalid : Text → Bool
is_invalid [] = true
is_invalid (c ∷ []) = c =? 46
is_invalid (c ∷ d ∷ []) = c =? 46 && d =? 46
is_invalid (_ ∷ _ ∷ _ ∷ _) = false

abbrev pub is_blank : Text → Bool
is_blank [] = true
is_blank (_ ∷ _) = false

abbrev pub with_hive : Option Text → List Text → Result Text
with_hive none parts = err (message "unsupported registry hive")
with_hive (some hive) parts =
    if any is_invalid parts
    then err (message "path contains an invalid key component")
    else ok (hive ++ slash ∷ join_parts parts)

abbrev pub no_key : Result Text
no_key = err (message "path must include a hive and key")

module _ (u : Unicode) where
  -- The switch over the upper-case first part
  unfoldable pub hive_of : Text → Option Text
  unfolding text_eq
  hive_of part =
      let name = map u.upper part in
      if text_eq name (runes "HKEY_CURRENT_USER") || text_eq name (runes "HKCU")
      then some (runes "HKCU")
      else if text_eq name (runes "HKEY_LOCAL_MACHINE") || text_eq name (runes "HKLM")
      then some (runes "HKLM")
      else none

  unfoldable pub normalize_parts : List Text → Result Text
  unfolding hive_of
  normalize_parts [] = no_key
  normalize_parts (_ ∷ []) = no_key
  normalize_parts (hive ∷ first ∷ rest) =
      if is_blank first then no_key else with_hive (hive_of hive) (first ∷ rest)

  -- normalizePath
  unfoldable pub normalize_path : Text → Result Text
  unfolding normalize_parts split
  normalize_path path = normalize_parts (split (map to_slash path))

  abbrev pub add_normal : Result Text → Result (List Text) → Result (List Text)
  add_normal (err e) rest = err e
  add_normal (ok path) (err e) = err e
  add_normal (ok path) (ok paths) = ok (path ∷ paths)

  -- normalizeRoots
  unfoldable pub normalize_roots : List String → Result (List Text)
  normalize_roots [] = ok []
  normalize_roots (root ∷ roots) = add_normal (normalize_path (runes root)) (normalize_roots roots)

  -- NormalizeRootPaths
  unfoldable pub normalize_root_paths : List String → Result (List Text)
  normalize_root_paths [] = ok []
  normalize_root_paths (root ∷ roots) =
      add_normal (normalize_path (trim_separators (runes root))) (normalize_root_paths roots)

  -- strings.EqualFold
  unfoldable pub equal_fold : Text → Text → Bool
  equal_fold [] [] = true
  equal_fold (c ∷ s) (d ∷ t) = u.folds c d && equal_fold s t
  equal_fold _ _ = false

  unfoldable pub within_root : Text → Text → Bool
  unfolding equal_fold has_prefix
  within_root path root =
      equal_fold path root || has_prefix (map u.lower path) (map u.lower root ++ slash ∷ [])

  -- pathWithinRoots
  unfoldable pub path_within_roots : Text → List Text → Bool
  unfolding within_root any
  path_within_roots path roots = any (within_root path) roots

  -- The loop over the values, with the folded names seen before
  unfoldable pub validate_values : List Text → List ValueData → Result (Unit {0})
  validate_values seen [] = ok tt
  validate_values seen (value ∷ rest) =
      let name = map u.lower (runes value.name) in
      if any (text_eq name) seen
      then err (message "duplicate registry value")
      else validate_values (name ∷ seen) rest

  abbrev pub with_seen : List Text → Result (Unit {0}) → Result (List Text)
  with_seen seen (ok _) = ok seen
  with_seen seen (err e) = err e

  -- What follows when the path of a key is normalized. seenKeys comes back with the path's folded text.
  unfoldable pub validate_normal : KeyData → List Text → List Text → Text → Result (List Text)
  unfolding path_within_roots validate_values
  validate_normal key roots seen path =
      let folded = map u.lower path in
      if path_within_roots path roots
      then if any (text_eq folded) seen
        then err (message "duplicate registry key path")
        else with_seen (folded ∷ seen) (validate_values [] key.values)
      else err (message "registry key path is outside configured roots")

  abbrev pub if_normal : KeyData → List Text → List Text → Result Text → Result (List Text)
  if_normal key roots seen (err e) = err e
  if_normal key roots seen (ok path) = validate_normal key roots seen path

  unfoldable pub validate_key_data : KeyData → List Text → List Text → Result (List Text)
  unfolding normalize_path validate_normal
  validate_key_data key roots seen = if_normal key roots seen (normalize_path (runes key.path))

  abbrev pub next_key : (List Text → Result (Unit {0})) → Result (List Text) → Result (Unit {0})
  next_key rest (ok seen) = rest seen
  next_key rest (err e) = err e

  unfoldable pub validate_keys : List Text → List KeyData → List Text → Result (Unit {0})
  unfolding validate_key_data
  validate_keys roots [] seen = ok tt
  validate_keys roots (key ∷ rest) seen =
      next_key (λ more. validate_keys roots rest more) (validate_key_data key roots seen)

  abbrev pub with_roots : List KeyData → Result (List Text) → Result (Unit {0})
  unfolding validate_keys
  with_roots keys (err e) = err e
  with_roots keys (ok roots) = validate_keys roots keys []

  -- validateDocument
  unfoldable pub validate_document : Document → List String → Result (Unit {0})
  unfolding normalize_roots validate_keys
  validate_document document roots = with_roots document.keys (normalize_roots roots)
