-- ===== src/Prelude/Maps.antt =====
-- Go's maps with string keys, as association lists. `range` visits the entries in the list's
-- order; Go's order is unspecified, and what is stated of every list holds for every order.
use mathlib.Core.Path.{◌≡◌, refl, subst}
use mathlib.Core.Logic.{inl, inr}
use mathlib.Core.Option.{Option, none, some}
use mathlib.Core.List.{List, [], ◌∷◌, map}
use Prim.Native.String.{String}
use native.Mathlib.Omega.{arith}
use text.Mathlib.Text.{◌==◌}
use text.Mathlib.TextEquality.{eq_iff}
use text.Mathlib.TextPositions.{eq_refl}
use save_knot.Prelude.Tests.{if◌then◌else◌, Bool-cases}
use save_knot.Prelude.Lists.{All}

abbrev pub Dict {ℓ} : Type ℓ → Type ℓ
Dict V = List (String × V)

module _ {ℓ} {V : Type ℓ} where
  -- v, ok := d[k]
  unfoldable pub get : String → Dict V → Option V
  get k [] = none
  get k ((j, v) ∷ d) = if j == k then some v else get k d

  -- d[k] = v
  unfoldable pub put : String → V → Dict V → Dict V
  put k v [] = (k, v) ∷ []
  put k v ((j, w) ∷ d) = let rest = put k v d in if j == k then (k, v) ∷ d else (j, w) ∷ rest

  -- delete(d, k)
  unfoldable pub remove : String → Dict V → Dict V
  remove k [] = []
  remove k ((j, w) ∷ d) = let rest = remove k d in if j == k then rest else (j, w) ∷ rest

  abbrev pub keys : Dict V → List String
  keys = map (λ e. e.0)

  pub get-put :
      (k j : String) (v : V) (d : Dict V) → get j (put k v d) ≡ (if k == j then some v else get j d)
  unfolding get put
  get-put k j v [] = refl
  get-put k j v ((i, w) ∷ d) = ground (arith, eq_iff k j, eq_iff i k, eq_iff i j, get-put k j v d)

  pub get-remove :
      (k j : String) (d : Dict V) → get j (remove k d) ≡ (if k == j then none else get j d)
  unfolding get remove
  get-remove k j [] = ground arith
  get-remove k j ((i, w) ∷ d) = ground (arith, eq_iff k j, eq_iff i k, eq_iff i j, get-remove k j d)

  pub get-put_self : (k : String) (v : V) (d : Dict V) → get k (put k v d) ≡ some v
  get-put_self k v d = simp (get-put, eq_refl)

module _ {ℓ κ} {V : Type ℓ} where
  pub All-put :
      (P : V → Type κ) (k : String) (v : V) (d : Dict V)
      → P v
      → All (λ e. P e.1) d
      → All (λ e. P e.1) (put k v d)
  unfolding put
  All-put P k v [] p h = (p, tt)
  All-put P k v ((j, w) ∷ d) p h = elim (Bool-cases (j == k)) [
    | inl e ↦ rw e (p, h.1)
    | inr e ↦ rw e (h.0, All-put P k v d p h.1)
  ]

  pub All-get :
      (P : V → Type κ) (k : String) (v : V) (d : Dict V)
      → All (λ e. P e.1) d
      → get k d ≡ some v
      → P v
  unfolding get
  All-get P k v [] h e = cc
  All-get P k v ((j, w) ∷ d) h e = elim (Bool-cases (j == k)) [
    | inl hit ↦ let same : some w ≡ some v = (rw hit at e) in subst P (cc) h.0
    | inr miss ↦ All-get P k v d h.1 (rw miss at e)
  ]

pub ruleset dict_laws = (get-put, get-remove, eq_refl)
