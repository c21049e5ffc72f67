-- ===== src/Registry/Tests.antt =====
-- A concrete document, and the case mappings of the Latin letters.
use save_knot.Prelude.{
  ℕ, ◌+◌, ◌-◌, none, Bool, ◌&&◌, ◌=?◌, leb, pos, List, [], ◌∷◌, map, String, ◌≡◌, refl, arith,
  if◌then◌else◌, All, any, text_eq,
}
use save_knot.Io.{ok}
use save_knot.Registry.{
  Unicode, ValueData, Document, validate_document, validate_keys, validate_key_data,
  validate_normal, validate_values, normalize_roots, normalize_path, normalize_parts, hive_of,
  split, join_parts, path_within_roots, within_root, equal_fold, has_prefix, slash,
}
use save_knot.Registry.Contained.{
  IsContained, AreDistinct, folded_path, folded_name, validate_document-IsContained,
  validate_document-AreDistinct,
}

is_upper : ℕ → Bool
is_upper c = leb 65 c && leb c 90

is_lower : ℕ → Bool
is_lower c = leb 97 c && leb c 122

unfoldable pub lower_letter : ℕ → ℕ
unfolding is_upper
lower_letter c = if is_upper c then c + 32 else c

unfoldable pub upper_letter : ℕ → ℕ
unfolding is_lower
upper_letter c = if is_lower c then c - 32 else c

abbrev pub ascii : Unicode
ascii = record {
  lower = lower_letter;
  upper = upper_letter;
  folds = λ c d. lower_letter c =? lower_letter d;
}

lower_letter-slash : (c : ℕ) → (lower_letter c =? slash) ≡ (c =? slash)
unfolding lower_letter
lower_letter-slash c = ground arith

abbrev value : String → ValueData
value name = record { name = name; kind = 1; text = none; texts = []; integer = none; binary = [] }

abbrev document : Document
document = record {
  version = pos 1;
  keys =
      record { path = "hkcu/Software/Game"; values = [] }
      ∷ record { path = "HKCU\\software\\GAME\\Slots"; values = value "a" ∷ value "b" ∷ [] }
      ∷ [];
}

abbrev game_root : List String
game_root = "HKEY_CURRENT_USER\\Software\\Game" ∷ []

document_accepted : validate_document ascii document game_root ≡ ok tt
unfolding validate_document validate_keys validate_key_data validate_normal validate_values
    normalize_roots normalize_path normalize_parts hive_of split join_parts path_within_roots
    within_root equal_fold has_prefix lower_letter upper_letter any text_eq
document_accepted = refl

validate_document-IsContained_example : All (IsContained ascii game_root) document.keys
validate_document-IsContained_example =
    validate_document-IsContained ascii lower_letter-slash document game_root document_accepted

validate_document-AreDistinct_example :
    AreDistinct (map (folded_path ascii) document.keys)
    × All (λ k. AreDistinct (map (folded_name ascii) k.values)) document.keys
validate_document-AreDistinct_example =
    validate_document-AreDistinct ascii document game_root document_accepted
