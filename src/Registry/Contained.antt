-- ===== src/Registry/Contained.antt =====
-- What validateDocument lets through.
use mathlib.Core.List.{append_assoc}
use save_knot.Prelude.{
  ℕ, true, false, ◌=?◌, List, [], ◌∷◌, ◌++◌, map, String, any, ◌≡◌, refl, sym, ap, ◌∙◌, arith, All,
  Some, Bool-cases, ◌⊎◌, inl, inr, Text, runes, text_eq,
}
use save_knot.Io.{Result, ok, err}
use save_knot.Io.Laws.{Result-cases}
use save_knot.Registry.{
  Unicode, ValueData, KeyData, Document, slash, to_slash, split, normalize_path, normalize_roots,
  equal_fold, within_root, path_within_roots, validate_values, validate_normal, validate_key_data,
  validate_keys, validate_document, with_seen,
}
use save_knot.Registry.Splitting.{
  IsKeyText, normalize_path-IsKeyText, split_cons, split-append, split-map, has_prefix-append,
}

-- No two of the texts are equal.
abbrev pub AreDistinct : List Text → Type 0
AreDistinct [] = Unit
AreDistinct (x ∷ xs) = All (λ y. text_eq y x ≡ false) xs × AreDistinct xs

abbrev IsFresh : List Text → List Text → Type 0
IsFresh seen = All (λ x. any (text_eq x) seen ≡ false)

IsFresh-cons :
    (x : Text) (seen xs : List Text)
    → IsFresh (x ∷ seen) xs
    → All (λ y. text_eq y x ≡ false) xs × IsFresh seen xs
unfolding any
IsFresh-cons x seen [] h = (tt, tt)
IsFresh-cons x seen (y ∷ xs) h =
    let (a, b) = IsFresh-cons x seen xs h.1 in ((ground (arith, h.0), a), (ground (arith, h.0), b))

module _ (u : Unicode) where
  abbrev pub folded_name : ValueData → Text
  folded_name value = map u.lower (runes value.name)

  abbrev pub folded : Result Text → Text
  folded (ok path) = map u.lower path
  folded (err _) = []

  abbrev pub folded_path : KeyData → Text
  folded_path key = folded (normalize_path u (runes key.path))

  -- The texts are of one length, and equal up to case at each place.
  abbrev pub IsSameFold : Text → Text → Type 0
  IsSameFold [] [] = Unit {0}
  IsSameFold (c ∷ s) (d ∷ t) = (u.folds c d ≡ true) × IsSameFold s t
  IsSameFold [] (_ ∷ _) = ⊥
  IsSameFold (_ ∷ _) [] = ⊥

  equal_fold-IsSameFold : (s t : Text) → equal_fold u s t ≡ true → IsSameFold s t
  unfolding equal_fold
  equal_fold-IsSameFold [] [] h = tt
  equal_fold-IsSameFold [] (_ ∷ _) h = absurd (ground (arith, h))
  equal_fold-IsSameFold (_ ∷ _) [] h = absurd (ground (arith, h))
  equal_fold-IsSameFold (c ∷ s) (d ∷ t) h =
      (ground (arith, h), equal_fold-IsSameFold s t (ground (arith, h)))

  -- The path is the root up to case, or its parts go on behind those of the root, up to case.
  abbrev pub IsInside : Text → Text → Type 0
  IsInside path root =
      IsSameFold path root
      ⊎ ((next : Text) × (more : List Text) × (map (map u.lower) (split path)
            ≡ map (map u.lower) (split root) ++ next ∷ more))

  -- A key whose path is valid and inside one of the roots.
  pub record IsContained (roots : List String) (key : KeyData) : Type 0 where
    pub path : Text
    pub normal : normalize_path u (runes key.path) ≡ ok path
    pub text : IsKeyText (split (map to_slash (runes key.path))) path
    pub inside :
        Some
          (λ r. (root : Text) × (normalize_path u (runes r) ≡ ok root) × IsInside path root)
          roots

  validate_values-AreDistinct :
      (seen : List Text) (values : List ValueData)
      → validate_values u seen values ≡ ok tt
      → AreDistinct (map folded_name values) × IsFresh seen (map folded_name values)
  unfolding validate_values
  validate_values-AreDistinct seen [] h = (tt, tt)
  validate_values-AreDistinct seen (v ∷ rest) h =
      elim (Bool-cases (any (text_eq (folded_name v)) seen)) [
        | inl old ↦ absurd (ground (arith, old))
        | inr new ↦
            let (d, f) = validate_values-AreDistinct (folded_name v ∷ seen) rest (rw new at h) in
            let (a, b) = IsFresh-cons (folded_name v) seen (map folded_name rest) f in
            ((a, d), (new, b))
      ]

  -- What an accepted key passed.
  record Accepted (key : KeyData) (roots seen more : List Text) : Type 0 where
    path : Text
    normal : normalize_path u (runes key.path) ≡ ok path
    within : path_within_roots u path roots ≡ true
    fresh : any (text_eq (map u.lower path)) seen ≡ false
    values : validate_values u [] key.values ≡ ok tt
    more_lem : more ≡ map u.lower path ∷ seen

  with_seen-ok :
      (seen more : List Text) (r : Result (Unit {0}))
      → with_seen u seen r ≡ ok more
      → (r ≡ ok tt) × (more ≡ seen)
  with_seen-ok seen more (ok tt) h = (refl, ground (arith, h))
  with_seen-ok seen more (err e) h = absurd (cc)

  validate_normal-Accepted :
      (key : KeyData) (roots seen more : List Text) (path : Text)
      → normalize_path u (runes key.path) ≡ ok path
      → validate_normal u key roots seen path ≡ ok more
      → Accepted key roots seen more
  unfolding validate_normal
  validate_normal-Accepted key roots seen more path n h =
      elim (Bool-cases (path_within_roots u path roots)) [
        | inl within ↦ elim (Bool-cases (any (text_eq (map u.lower path)) seen)) [
          | inl old ↦ absurd (ground (arith, within, old))
          | inr fresh ↦
              let (v, e) =
                with_seen-ok (map u.lower path ∷ seen) more (validate_values u [] key.values)
                  (rw (within, fresh) at h) in
              record {
                path = path;
                normal = n;
                within = within;
                fresh = fresh;
                values = v;
                more_lem = e;
              }
        ]
        | inr outside ↦ absurd (ground (arith, outside))
      ]

  validate_key_data-Accepted :
      (key : KeyData) (roots seen more : List Text)
      → validate_key_data u key roots seen ≡ ok more
      → Accepted key roots seen more
  unfolding validate_key_data
  validate_key_data-Accepted key roots seen more h =
      elim (Result-cases (normalize_path u (runes key.path))) [
        | inl (path, e) ↦ validate_normal-Accepted key roots seen more path e (rw e at h)
        | inr (x, e) ↦ absurd (ground (arith, e))
      ]

  -- The first key of a list that is accepted whole.
  next_key-ok :
      (roots seen : List Text) (key : KeyData) (rest : List KeyData)
      → validate_keys u roots (key ∷ rest) seen ≡ ok tt
      → (more : List Text) × Accepted key roots seen more
        × (validate_keys u roots rest more ≡ ok tt)
  unfolding validate_keys
  next_key-ok roots seen key rest h = elim (Result-cases (validate_key_data u key roots seen)) [
    | inl (more, e) ↦ (more, validate_key_data-Accepted key roots seen more e, rw e at h)
    | inr (x, e) ↦ absurd (ground (arith, e))
  ]

  validate_keys-AreDistinct :
      (roots : List Text) (keys : List KeyData) (seen : List Text)
      → validate_keys u roots keys seen ≡ ok tt
      → AreDistinct (map folded_path keys)
        × IsFresh seen (map folded_path keys)
        × All (λ k. AreDistinct (map folded_name k.values)) keys
  validate_keys-AreDistinct roots [] seen h = (tt, tt, tt)
  validate_keys-AreDistinct roots (key ∷ rest) seen h =
      let (more, a, r) = next_key-ok roots seen key rest h in
      let (d, f, v) = validate_keys-AreDistinct roots rest more r in
      let name : folded_path key ≡ map u.lower a.path = ap folded a.normal in
      let (g, k) =
        IsFresh-cons (map u.lower a.path) seen (map folded_path rest) (rw a.more_lem at f) in
      (
        (rw name g, d),
        (rw name a.fresh, k),
        ((validate_values-AreDistinct [] key.values a.values).0, v),
      )

  -- In a document that validateDocument accepts no two keys have the same path up to case, and no two
  -- values of one key have the same name up to case.
  pub validate_document-AreDistinct :
      (document : Document) (roots : List String)
      → validate_document u document roots ≡ ok tt
      → AreDistinct (map folded_path document.keys)
        × All (λ k. AreDistinct (map folded_name k.values)) document.keys
  unfolding validate_document
  validate_document-AreDistinct document roots h = elim (Result-cases (normalize_roots u roots)) [
    | inl (normal, e) ↦
        let (d, _, v) = validate_keys-AreDistinct normal document.keys [] (rw e at h) in (d, v)
    | inr (x, e) ↦ absurd (ground (arith, e))
  ]

  module _ (lower_slash : (c : ℕ) → (u.lower c =? slash) ≡ (c =? slash)) where
    within_root-IsInside : (path root : Text) → within_root u path root ≡ true → IsInside path root
    unfolding within_root
    within_root-IsInside path root h = elim (Bool-cases (equal_fold u path root)) [
      | inl same ↦ inl (equal_fold-IsSameFold path root same)
      | inr other ↦
          let (rest, e) =
            has_prefix-append (map u.lower path) (map u.lower root ++ slash ∷ [])
              (ground (arith, other)) in
          behind rest e
    ]
      where
        behind :
            (rest : Text)
            → map u.lower path ≡ (map u.lower root ++ slash ∷ []) ++ rest
            → IsInside path root
        behind rest e =
            let (next, more, f) = split_cons rest in
            inr (
              next,
              more,
              sym (split-map u.lower path lower_slash)
                  ∙ ap split (e ∙ append_assoc (map u.lower root) (slash ∷ []) rest)
                  ∙ split-append (map u.lower root) rest
                  ∙ rw (f, split-map u.lower root lower_slash),
            )

    -- A root that a normalized path is within stands among the configured ones.
    normalize_roots-Some :
        (path : Text) (roots : List String) (normal : List Text)
        → normalize_roots u roots ≡ ok normal
        → path_within_roots u path normal ≡ true
        → Some
            (λ r. (root : Text) × (normalize_path u (runes r) ≡ ok root) × IsInside path root)
            roots
    unfolding normalize_roots path_within_roots any
    normalize_roots-Some path [] normal n h = absurd (ground (arith, n))
    normalize_roots-Some path (r ∷ roots) normal n h =
        elim (Result-cases (normalize_path u (runes r))) [
          | inl (root, e) ↦ elim (Result-cases (normalize_roots u roots)) [
            | inl (rest, f) ↦
                let whole : root ∷ rest ≡ normal = ground (arith, e, f) in
                elim (Bool-cases (within_root u path root)) [
                  | inl inside ↦ inl (root, e, within_root-IsInside path root inside)
                  | inr other ↦
                      inr (normalize_roots-Some path roots rest f (ground (arith, other, whole)))
                ]
            | inr (x, f) ↦ absurd (ground (arith, e, f))
          ]
          | inr (x, e) ↦ absurd (ground (arith, e))
        ]

    validate_keys-IsContained :
        (roots : List String) (normal : List Text) (keys : List KeyData) (seen : List Text)
        → normalize_roots u roots ≡ ok normal
        → validate_keys u normal keys seen ≡ ok tt
        → All (IsContained roots) keys
    validate_keys-IsContained roots normal [] seen n h = tt
    validate_keys-IsContained roots normal (key ∷ rest) seen n h =
        let (more, a, r) = next_key-ok normal seen key rest h in
        (
          record {
            path = a.path;
            normal = a.normal;
            text = normalize_path-IsKeyText u (runes key.path) a.path a.normal;
            inside = normalize_roots-Some a.path roots normal n a.within;
          },
          validate_keys-IsContained roots normal rest more n r,
        )

    -- Where lower-casing maps no other code point to the separator and keeps the separator, every key
    -- of a document that validateDocument accepts normalizes to a path of a known hive and of the parts
    -- behind the first one of the key, at least one and none of them empty, "." or "..", and the
    -- normalized form of one of the given roots is this path, or a proper part by part beginning
    -- of it, up to case.
    pub validate_document-IsContained :
        (document : Document) (roots : List String)
        → validate_document u document roots ≡ ok tt
        → All (IsContained roots) document.keys
    unfolding validate_document
    validate_document-IsContained document roots h = elim (Result-cases (normalize_roots u roots)) [
      | inl (normal, e) ↦ validate_keys-IsContained roots normal document.keys [] e (rw e at h)
      | inr (x, e) ↦ absurd (ground (arith, e))
    ]
