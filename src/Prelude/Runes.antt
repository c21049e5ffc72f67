-- ===== src/Prelude/Runes.antt =====
-- A text as the list of its code points, where the source walks or maps the runes of a string.
use Prim.Native.Nat.{ℕ}
use Prim.Native.Char.{code}
use Prim.Native.String.{String}
use mathlib.Core.Path.{◌≡◌, refl}
use mathlib.Core.Logic.{◌↔◌}
use mathlib.Core.Bool.{Bool, true, false, ◌&&◌, ◌||◌}
use mathlib.Core.List.{List, [], ◌∷◌}
use native.Mathlib.Omega.{arith}
use save_knot.Prelude.Tests.{ltb, ◌=?◌}

abbrev pub Text : Type 0
Text = List ℕ

abbrev pub runes : String → Text
runes String.[] = []
runes (String.◌∷◌ c s) = code c ∷ runes s

-- s + t
unfoldable pub concat : String → String → String
concat String.[] t = t
concat (String.◌∷◌ c s) t = String.◌∷◌ c (concat s t)

unfoldable pub text_eq : Text → Text → Bool
text_eq [] [] = true
text_eq (c ∷ s) (d ∷ t) = c =? d && text_eq s t
text_eq _ _ = false

-- The order of SQLite's BINARY collation: that of the UTF-8 bytes, which is that of the code points.
unfoldable pub text_less : Text → Text → Bool
text_less _ [] = false
text_less [] (_ ∷ _) = true
text_less (c ∷ s) (d ∷ t) = ltb c d || c =? d && text_less s t

text_eq_sound : (s t : Text) → text_eq s t ≡ true → s ≡ t
unfolding text_eq
text_eq_sound [] [] h = refl
text_eq_sound [] (_ ∷ _) h = cc
text_eq_sound (_ ∷ _) [] h = cc
text_eq_sound (c ∷ s) (d ∷ t) h = ground (arith, text_eq_sound s t)

text_eq_refl : (s : Text) → text_eq s s ≡ true
unfolding text_eq
text_eq_refl [] = refl
text_eq_refl (c ∷ s) = ground (arith, text_eq_refl s)

pub text_eq_iff : (s t : Text) → (text_eq s t ≡ true) ↔ (s ≡ t)
text_eq_iff s t = (text_eq_sound s t, λ e. rw e (text_eq_refl t))
