-- ===== src/Prelude/Lists.antt =====
-- Lists measured by the native numbers, Boolean searches, and predicates on every element.
use Prim.Native.Nat.{ℕ, zero, suc, ◌+◌}
use mathlib.Core.Path.{◌≡◌, refl}
use mathlib.Core.Logic.{◌⊎◌, inl, inr}
use mathlib.Core.Bool.{Bool, true, false, ◌&&◌, ◌||◌}
use mathlib.Core.Option.{Option, none, some}
use mathlib.Core.List.{List, [], ◌∷◌, ◌++◌, map, reverse, reverse-cons}
use native.Mathlib.Omega.{arith}
use save_knot.Prelude.Tests.{if◌then◌else◌, Bool-cases}

module _ {ℓ} {A : Type ℓ} where
  abbrev pub length : List A → ℕ
  length [] = 0
  length (x ∷ xs) = suc (length xs)

  abbrev pub drop : ℕ → List A → List A
  drop zero xs = xs
  drop (suc n) [] = []
  drop (suc n) (x ∷ xs) = drop n xs

  abbrev pub take : ℕ → List A → List A
  take zero xs = []
  take (suc n) [] = []
  take (suc n) (x ∷ xs) = x ∷ take n xs

  pub length-append : (xs ys : List A) → length (xs ++ ys) ≡ length xs + length ys
  length-append [] ys = omega arith
  length-append (x ∷ xs) ys = omega (arith, length-append xs ys)

-- `any`, `filter` and `find` by a Boolean test.
module _ {ℓ} {A : Type ℓ} where
  unfoldable pub any : (A → Bool) → List A → Bool
  any p [] = false
  any p (x ∷ xs) = p x || any p xs

  unfoldable pub every : (A → Bool) → List A → Bool
  every p [] = true
  every p (x ∷ xs) = p x && every p xs

  unfoldable pub keep : (A → Bool) → List A → List A
  keep p [] = []
  keep p (x ∷ xs) = let rest = keep p xs in if p x then x ∷ rest else rest

  unfoldable pub find : (A → Bool) → List A → Option A
  find p [] = none
  find p (x ∷ xs) = if p x then some x else find p xs

  abbrev pub All {κ} : (A → Type κ) → List A → Type κ
  All P [] = Unit
  All P (x ∷ xs) = P x × All P xs

  -- There is an element with the property.
  abbrev pub Some : (A → Type 0) → List A → Type 0
  Some P [] = ⊥
  Some P (x ∷ xs) = P x ⊎ Some P xs

  pub every-All : (p : A → Bool) (xs : List A) → every p xs ≡ true → All (λ x. p x ≡ true) xs
  unfolding every
  every-All p [] h = tt
  every-All p (x ∷ xs) h = (ground arith, every-All p xs (ground arith))

  pub Some-behind : (P : A → Type 0) (x y : A) (xs : List A) → Some P (x ∷ xs) → Some P (x ∷ y ∷ xs)
  Some-behind P x y xs (inl p) = inl p
  Some-behind P x y xs (inr p) = inr (inr p)

  pub Some-keep :
      (P : A → Type 0) (q : A → Bool) (xs : List A)
      → Some P (keep q xs)
      → Some (λ x. (q x ≡ true) × P x) xs
  unfolding keep
  Some-keep P q [] h = h
  Some-keep P q (x ∷ xs) h = elim (Bool-cases (q x)) [
    | inl e ↦
        let here : P x ⊎ Some P (keep q xs) = (rw e at h) in
        elim here [ inl p ↦ inl (e, p) | inr p ↦ inr (Some-keep P q xs p) ]
    | inr e ↦ inr (Some-keep P q xs (rw e at h))
  ]

  -- What a Boolean search finds.
  pub any-Some : (p : A → Bool) (xs : List A) → any p xs ≡ true → Some (λ x. p x ≡ true) xs
  unfolding any
  any-Some p [] h = absurd (cc)
  any-Some p (x ∷ xs) h = elim (Bool-cases (p x)) [
    | inl e ↦ inl e
    | inr e ↦ inr (any-Some p xs (ground (arith, e)))
  ]

  pub Some-mono : (P Q : A → Type 0) (xs : List A) → ((a : A) → P a → Q a) → Some P xs → Some Q xs
  Some-mono P Q (x ∷ xs) f (inl p) = inl (f x p)
  Some-mono P Q (x ∷ xs) f (inr p) = inr (Some-mono P Q xs f p)
  Some-mono P Q [] f h = absurd h

  pub any-append : (p : A → Bool) (xs ys : List A) → any p (xs ++ ys) ≡ (any p xs || any p ys)
  unfolding any
  any-append p [] ys = refl
  any-append p (x ∷ xs) ys = ground (arith, any-append p xs ys)

  pub any-keep : (p q : A → Bool) (xs : List A) → any p (keep q xs) ≡ any (λ x. q x && p x) xs
  unfolding any keep
  any-keep p q [] = refl
  any-keep p q (x ∷ xs) = ground (arith, any-keep p q xs)

module _ {ℓ} {A : Type ℓ} where
  pub All-mono {κ} : (P Q : A → Type κ) (xs : List A) → ((a : A) → P a → Q a) → All P xs → All Q xs
  All-mono P Q [] f h = tt
  All-mono P Q (x ∷ xs) f h = (f x h.0, All-mono P Q xs f h.1)

  pub All-keep {κ} : (P : A → Type κ) (q : A → Bool) (xs : List A) → All P xs → All P (keep q xs)
  unfolding keep
  All-keep P q [] h = tt
  All-keep P q (x ∷ xs) h = elim (Bool-cases (q x)) [
    | inl e ↦ rw e (h.0, All-keep P q xs h.1)
    | inr e ↦ rw e (All-keep P q xs h.1)
  ]

  pub All-append {κ} : (P : A → Type κ) (xs ys : List A) → All P xs → All P ys → All P (xs ++ ys)
  All-append P [] ys h k = k
  All-append P (x ∷ xs) ys h k = (h.0, All-append P xs ys h.1 k)

  pub All-reverse {κ} : (P : A → Type κ) (xs : List A) → All P xs → All P (reverse xs)
  All-reverse P [] h = tt
  All-reverse P (x ∷ xs) h =
      rw (reverse-cons x xs) (All-append P (reverse xs) (x ∷ []) (All-reverse P xs h.1) (h.0, tt))

module _ {ℓ} {A : Type ℓ} where
  pub find-append :
      (p : A → Bool) (xs ys : List A)
      → find p (xs ++ ys) ≡ (if any p xs then find p xs else find p ys)
  unfolding find any
  find-append p [] ys = refl
  find-append p (x ∷ xs) ys = ground (arith, find-append p xs ys)

  -- A Boolean search through a mapped list.
  pub any-map {κ} :
      {B : Type κ} (p : A → Bool) (f : B → A) (xs : List B)
      → any p (map f xs) ≡ any (λ x. p (f x)) xs
  unfolding any
  any-map p f [] = refl
  any-map p f (x ∷ xs) = ground (arith, any-map p f xs)
