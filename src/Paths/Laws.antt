-- ===== src/Paths/Laws.antt =====
-- Laws of Clean and Rel on paths whose components are names.
use mathlib.Core.List.{reverse-cons, append_assoc, append-nil}
use save_knot.Prelude.{
  Bool, true, false, ◌||◌, List, [], ◌∷◌, ◌++◌, reverse, String, ◌==◌, if◌then◌else◌, ◌≡◌, refl, ap,
  sym, ◌∙◌, eq_refl, arith, All, All-append, All-reverse, Bool-cases, ◌⊎◌, inl, inr,
}
use save_knot.Paths.{FilePath, clean_part, clean_onto, clean, join, strip, escapes}

-- A component that names a file: none of "", "." and "..".
abbrev pub IsName : String → Type 0
IsName part = ((part == "") ≡ false) × ((part == ".") ≡ false) × ((part == "..") ≡ false)

clean_part-name :
    (rooted : Bool) (stack : List String) (part : String)
    → IsName part
    → clean_part rooted stack part ≡ part ∷ stack
unfolding clean_part
clean_part-name rooted [] part h = ground arith
clean_part-name rooted (top ∷ stack) part h = ground arith

-- Names are kept as they are.
pub clean_onto-names :
    (rooted : Bool) (stack parts : List String)
    → All IsName parts
    → clean_onto rooted stack parts ≡ reverse stack ++ parts
unfolding clean_onto
clean_onto-names rooted stack [] h = sym (append-nil _)
clean_onto-names rooted stack (part ∷ rest) h = rw (clean_part-name rooted stack part h.0) (
    clean_onto-names rooted (part ∷ stack) rest h.1
    ∙ ap (λ s. s ++ rest) (reverse-cons part stack)
    ∙ append_assoc (reverse stack) (part ∷ []) rest)

-- The components of a cleaned path, newest first: names only, unless the path begins with "..".
abbrev IsStack : List String → Type 0
IsStack stack = All IsName stack ⊎ (escapes (reverse stack) ≡ true)

escapes-snoc : (xs : List String) (y : String) → escapes xs ≡ true → escapes (xs ++ y ∷ []) ≡ true
unfolding escapes
escapes-snoc [] y h = cc
escapes-snoc (x ∷ xs) y h = h

snoc-escapes :
    (xs : List String) (y : String)
    → (y == "..") ≡ false
    → escapes (xs ++ y ∷ []) ≡ true
    → escapes xs ≡ true
unfolding escapes
snoc-escapes [] y n h = cc
snoc-escapes (x ∷ xs) y n h = h

push-IsStack :
    (stack : List String) (part : String) → IsName part → IsStack stack → IsStack (part ∷ stack)
push-IsStack stack part n (inl names) = inl (n, names)
push-IsStack stack part n (inr up) =
    inr (rw (reverse-cons part stack) (escapes-snoc (reverse stack) part up))

pop-IsStack :
    (top : String) (stack : List String)
    → (top == "..") ≡ false
    → IsStack (top ∷ stack)
    → IsStack stack
pop-IsStack top stack n (inl names) = inl names.1
pop-IsStack top stack n (inr up) =
    inr (snoc-escapes (reverse stack) top n (rw (reverse-cons top stack) at up))

up-IsStack :
    (top : String) (stack : List String)
    → IsStack (top ∷ stack)
    → (top == "..") ≡ true
    → IsStack (".." ∷ top ∷ stack)
up-IsStack top stack (inl names) e = cc (names.0.2)
up-IsStack top stack (inr up) e =
    inr (rw (reverse-cons ".." (top ∷ stack)) (escapes-snoc (reverse (top ∷ stack)) ".." up))

-- What a component is: nothing, "..", or a name.
Part-cases :
    (part : String)
    → ((part == "" || part == ".") ≡ true)
      ⊎ (((part == "" || part == ".") ≡ false) × ((part == "..") ≡ true))
      ⊎ IsName part
Part-cases part = ground arith

clean_part-IsStack :
    (rooted : Bool) (stack : List String) (part : String)
    → IsStack stack
    → IsStack (clean_part rooted stack part)
unfolding clean_part
clean_part-IsStack rooted [] part h = elim (Part-cases part) [
  | inl skip ↦ rw skip h
  | inr (inl (e, up)) ↦ rw (e, up) (bottom rooted)
  | inr (inr n) ↦ rw (clean_part-name rooted [] part n) (push-IsStack [] part n h)
]
  where
    bottom : (b : Bool) → IsStack (if b then [] else ".." ∷ [])
    bottom true = inl tt
    bottom false = inr (unfold escapes in eq_refl "..")
clean_part-IsStack rooted (top ∷ stack) part h = elim (Part-cases part) [
  | inl skip ↦ rw skip h
  | inr (inl (e, up)) ↦
      rw (e, up)
        (elim (Bool-cases (top == "..")) [
          | inl again ↦ rw again (up-IsStack top stack h again)
          | inr n ↦ rw n (pop-IsStack top stack n h)
        ])
  | inr (inr n) ↦
      rw (clean_part-name rooted (top ∷ stack) part n) (push-IsStack (top ∷ stack) part n h)
]

clean_onto-IsStack :
    (rooted : Bool) (stack parts : List String)
    → IsStack stack
    → escapes (clean_onto rooted stack parts) ≡ false
    → All IsName (clean_onto rooted stack parts)
unfolding clean_onto
clean_onto-IsStack rooted stack [] (inl names) e = All-reverse IsName stack names
clean_onto-IsStack rooted stack [] (inr up) e = cc
clean_onto-IsStack rooted stack (part ∷ rest) h e =
    clean_onto-IsStack rooted (clean_part rooted stack part) rest
      (clean_part-IsStack rooted stack part h) e

-- A cleaned path that does not begin with ".." is made of names.
pub clean-names : (p : FilePath) → escapes (clean p).parts ≡ false → All IsName (clean p).parts
unfolding clean
clean-names p e = clean_onto-IsStack p.rooted [] p.parts (inl tt) e

-- Joining names onto names only appends them.
pub join-names :
    (p q : FilePath)
    → All IsName p.parts
    → All IsName q.parts
    → join p q ≡ record { rooted = p.rooted; parts = p.parts ++ q.parts }
unfolding join
join-names p q hp hq =
    ap (λ ps. record { rooted = p.rooted; parts = ps })
      (clean_onto-names p.rooted [] (p.parts ++ q.parts) (All-append IsName p.parts q.parts hp hq))

pub strip-append : (base rest : List String) → strip base (base ++ rest) ≡ ([], rest)
unfolding strip
strip-append [] rest = refl
strip-append (b ∷ base) rest = rw (eq_refl b) (strip-append base rest)
