-- ===== src/Registry/Splitting.antt =====
-- The parts of a registry path: Split, Join and the prefix test on texts.
use save_knot.Prelude.{
  ℕ, true, false, ◌=?◌, Option, none, some, List, [], ◌∷◌, ◌++◌, map, any, ◌≡◌, refl, sym, ◌∙◌,
  arith, All, Bool-cases, ◌⊎◌, inl, inr, Text, runes, text_eq,
}
use save_knot.Io.{ok}
use save_knot.Registry.{
  Unicode, slash, to_slash, prepend, split, join_parts, has_prefix, is_invalid, is_blank, with_hive,
  hive_of, normalize_parts, normalize_path,
}

pub split_cons : (s : Text) → (p : Text) × (ps : List Text) × (split s ≡ p ∷ ps)
unfolding split
split_cons [] = ([], [], refl)
split_cons (c ∷ s) =
    let (p, ps, e) = split_cons s in
    elim (Bool-cases (c =? slash)) [
      | inl h ↦ ([], p ∷ ps, rw (h, e))
      | inr h ↦ (c ∷ p, ps, rw (h, e))
    ]

prepend-append :
    (c : ℕ) (p : Text) (ps qs : List Text) → prepend c ((p ∷ ps) ++ qs) ≡ prepend c (p ∷ ps) ++ qs
prepend-append c p ps qs = refl

pub split-append : (s t : Text) → split (s ++ slash ∷ t) ≡ split s ++ split t
unfolding split
split-append [] t = refl
split-append (c ∷ s) t = elim (Bool-cases (c =? slash)) [
  | inl h ↦ rw (h, split-append s t)
  | inr h ↦
      let (p, ps, e) = split_cons s in rw (h, split-append s t, e) (prepend-append c p ps (split t))
]

-- A text without a separator.
abbrev pub IsPart : Text → Type 0
IsPart = All λ c. (c =? slash) ≡ false

split-part : (p : Text) → IsPart p → split p ≡ p ∷ []
unfolding split
split-part [] h = refl
split-part (c ∷ p) h = rw (h.0, split-part p h.1)

pub split-join_parts :
    (p : Text) (ps : List Text) → All IsPart (p ∷ ps) → split (join_parts (p ∷ ps)) ≡ p ∷ ps
unfolding join_parts
split-join_parts p [] h = split-part p h.0
split-join_parts p (q ∷ ps) h =
    split-append p (join_parts (q ∷ ps)) ∙ rw (split-part p h.0, split-join_parts q ps h.1)

prepend-IsPart :
    (c : ℕ) (ps : List Text) → (c =? slash) ≡ false → All IsPart ps → All IsPart (prepend c ps)
prepend-IsPart c [] e h = ((e, tt), tt)
prepend-IsPart c (p ∷ ps) e h = ((e, h.0), h.1)

split-IsPart : (s : Text) → All IsPart (split s)
unfolding split
split-IsPart [] = (tt, tt)
split-IsPart (c ∷ s) = elim (Bool-cases (c =? slash)) [
  | inl h ↦ rw h (tt, split-IsPart s)
  | inr h ↦ rw h (prepend-IsPart c (split s) h (split-IsPart s))
]

-- A map of the code points that keeps the separator maps the parts.
pub split-map :
    (f : ℕ → ℕ) (s : Text)
    → ((c : ℕ) → (f c =? slash) ≡ (c =? slash))
    → split (map f s) ≡ map (map f) (split s)
unfolding split
split-map f [] h = refl
split-map f (c ∷ s) h =
    let (p, ps, e) = split_cons s in
    elim (Bool-cases (c =? slash)) [
      | inl k ↦ rw (h c, k, split-map f s h)
      | inr k ↦ rw (h c, k, split-map f s h, e)
    ]

pub has_prefix-append : (s p : Text) → has_prefix s p ≡ true → (rest : Text) × (s ≡ p ++ rest)
unfolding has_prefix
has_prefix-append s [] h = (s, refl)
has_prefix-append [] (d ∷ p) h = absurd (cc)
has_prefix-append (c ∷ s) (d ∷ p) h =
    let (rest, e) = has_prefix-append s p (ground arith) in (rest, ground arith)

-- A part that names a key: none of "", "." and "..".
abbrev pub IsKeyName : Text → Type 0
IsKeyName part =
    (text_eq part (runes "") ≡ false)
    × (text_eq part (runes ".") ≡ false)
    × (text_eq part (runes "..") ≡ false)

valid-IsKeyName : (part : Text) → is_invalid part ≡ false → IsKeyName part
unfolding text_eq
valid-IsKeyName [] h = absurd (ground (arith, h))
valid-IsKeyName (c ∷ []) h = (refl, ground (arith, h), ground (arith, h))
valid-IsKeyName (c ∷ d ∷ []) h = (refl, ground (arith, h), ground (arith, h))
valid-IsKeyName (c ∷ d ∷ e ∷ more) h = (refl, ground (arith, h), ground (arith, h))

valid-All : (parts : List Text) → any is_invalid parts ≡ false → All IsKeyName parts
unfolding any
valid-All [] h = tt
valid-All (p ∷ parts) h =
    (valid-IsKeyName p (ground (arith, h)), valid-All parts (ground (arith, h)))

-- The text of a key: a hive, and behind it the names that stand behind the first of the given parts.
pub record IsKeyText (given : List Text) (path : Text) : Type 0 where
  pub alias : Text
  pub hive : Text
  pub first : Text
  pub rest : List Text
  pub source : given ≡ alias ∷ first ∷ rest
  pub parts : split path ≡ hive ∷ first ∷ rest
  pub known : (hive ≡ runes "HKCU") ⊎ (hive ≡ runes "HKLM")
  pub names : All IsKeyName (first ∷ rest)

module _ (u : Unicode) where
  hive_of-known :
      (part hive : Text)
      → hive_of u part ≡ some hive
      → (hive ≡ runes "HKCU") ⊎ (hive ≡ runes "HKLM")
  unfolding hive_of
  hive_of-known part hive h = ground arith

  with_hive-IsKeyText :
      (alias : Text) (hive : Option Text) (first : Text) (rest : List Text) (path : Text)
      → ((h : Text) → hive ≡ some h → (h ≡ runes "HKCU") ⊎ (h ≡ runes "HKLM"))
      → All IsPart (first ∷ rest)
      → with_hive hive (first ∷ rest) ≡ ok path
      → IsKeyText (alias ∷ first ∷ rest) path
  with_hive-IsKeyText alias none first rest path k p h = absurd (cc)
  with_hive-IsKeyText alias (some hive) first rest path k p h =
      elim (Bool-cases (any is_invalid (first ∷ rest))) [
        | inl bad ↦ absurd (ground (arith, bad))
        | inr good ↦ record {
          alias = alias;
          source = refl;
          hive = hive;
          first = first;
          rest = rest;
          parts = rw (sym (joined good)) (
              split-append hive (join_parts (first ∷ rest))
              ∙ rw (split-part hive (hive_IsPart (k hive refl)), split-join_parts first rest p));
          known = k hive refl;
          names = valid-All (first ∷ rest) good;
        }
      ]
    where
      joined :
          any is_invalid (first ∷ rest) ≡ false → hive ++ slash ∷ join_parts (first ∷ rest) ≡ path
      joined good = ground (arith, good, h)

      hive_IsPart : (hive ≡ runes "HKCU") ⊎ (hive ≡ runes "HKLM") → IsPart hive
      hive_IsPart (inl e) = rw e (refl, (refl, (refl, (refl, tt))))
      hive_IsPart (inr e) = rw e (refl, (refl, (refl, (refl, tt))))

  normalize_parts-IsKeyText :
      (parts : List Text) (path : Text)
      → All IsPart parts
      → normalize_parts u parts ≡ ok path
      → IsKeyText parts path
  unfolding normalize_parts
  normalize_parts-IsKeyText [] path p h = absurd (cc)
  normalize_parts-IsKeyText (_ ∷ []) path p h = absurd (cc)
  normalize_parts-IsKeyText (hive ∷ first ∷ rest) path p h = elim (Bool-cases (is_blank first)) [
    | inl blank ↦ absurd (ground (arith, blank))
    | inr name ↦
        with_hive-IsKeyText hive (hive_of u hive) first rest path (hive_of-known hive) p.1
          (rw name at h)
  ]

  -- What normalizePath returns is a hive and names, with none that is empty, "." or "..".
  pub normalize_path-IsKeyText :
      (s path : Text) → normalize_path u s ≡ ok path → IsKeyText (split (map to_slash s)) path
  unfolding normalize_path
  normalize_path-IsKeyText s path h =
      normalize_parts-IsKeyText (split (map to_slash s)) path (split-IsPart (map to_slash s)) h
