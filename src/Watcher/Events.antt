-- ===== src/Watcher/Events.antt =====
-- What a file-system event does to the pending changes (`handleEvent`).
use save_knot.Prelude.{
  not, eq_refl, ℕ, pos_part, ◌+◌, ◌≤◌, Bool, true, false, ◌||◌, ◌&&◌, Option-cases, ◌∙◌, ap, Option,
  none, some, List, [], ◌∷◌, String, ◌==◌, ◌≡◌, refl, any, Dict, get, get-put, arith, All, All-put,
  All-get, eq_iff, Bool-cases, inl, inr,
}
use save_knot.Paths.{FilePath, same_bool, strip, climb, rel, escapes}
use save_knot.Watcher.{
  Target, PendingChange, seconds, effective_policy, snapshot_due, first_of_change, time_of, touch,
  touch_all, within, touch_roots,
}
use save_knot.Watcher.Due.{snapshot_due-le-first}

-- The policy's maximum dirty duration is at most `limit` nanoseconds.
abbrev pub IsLimited : ℕ → Target → Type 0
IsLimited limit target =
    pos_part (seconds (effective_policy target.policy).max_dirty_seconds) ≤ limit

abbrev pub AreLimited : ℕ → List (FilePath × List Target) → Type 0
AreLimited limit [] = Unit {0}
AreLimited limit ((root, targets) ∷ rest) = All (IsLimited limit) targets × AreLimited limit rest

-- A change is due at most `limit` after its first event, which is not in the future.
abbrev pub IsPromptChange : ℕ → ℕ → PendingChange → Type 0
IsPromptChange limit now c = (c.due ≤ c.first + limit) × (c.first ≤ now)

abbrev pub IsPrompt : ℕ → ℕ → Dict PendingChange → Type 0
IsPrompt limit now = All (λ e. IsPromptChange limit now e.1)

first_of_change-le :
    (limit now : ℕ) (pending : Dict PendingChange) (g : String)
    → IsPrompt limit now pending
    → first_of_change now (get g pending) ≤ now
unfolding first_of_change
first_of_change-le limit now pending g p = elim (Option-cases (get g pending)) [
  | inl e ↦ rw e (omega arith)
  | inr (c, e) ↦ rw e (All-get (IsPromptChange limit now) g c pending p e).1
]

touch-IsPrompt :
    (limit now : ℕ) (last : Dict ℕ) (t : Target) (pending : Dict PendingChange)
    → IsLimited limit t
    → IsPrompt limit now pending
    → IsPrompt limit now (touch now last t pending)
unfolding touch
touch-IsPrompt limit now last t pending h p =
    let first : ℕ = first_of_change now (get t.game_id pending) in
    let queued : ℕ = time_of (get t.game_id last) in
    All-put (IsPromptChange limit now) t.game_id _ pending
      (
        omega (arith, snapshot_due-le-first now first queued t.policy),
        first_of_change-le limit now pending t.game_id p,
      )
      p

touch_all-IsPrompt :
    (limit now : ℕ) (last : Dict ℕ) (ts : List Target) (pending : Dict PendingChange)
    → All (IsLimited limit) ts
    → IsPrompt limit now pending
    → IsPrompt limit now (touch_all now last ts pending)
unfolding touch_all
touch_all-IsPrompt limit now last [] pending h p = p
touch_all-IsPrompt limit now last (t ∷ ts) pending h p =
    touch_all-IsPrompt limit now last ts (touch now last t pending) h.1
      (touch-IsPrompt limit now last t pending h.0 p)

pub touch_roots-IsPrompt :
    (limit now : ℕ) (last : Dict ℕ) (name : FilePath) (roots : List (FilePath × List Target))
    (pending : Dict PendingChange)
    → AreLimited limit roots
    → IsPrompt limit now pending
    → IsPrompt limit now (touch_roots now last name roots pending)
unfolding touch_roots
touch_roots-IsPrompt limit now last name [] pending h p = p
touch_roots-IsPrompt limit now last name ((root, ts) ∷ rest) pending h p =
    touch_roots-IsPrompt limit now last name rest _ h.1 (elim (Bool-cases (within root name)) [
      | inl e ↦ rw e (touch_all-IsPrompt limit now last ts pending h.0 p)
      | inr e ↦ rw e p
    ])

-- The parts of the second path go on behind those of the first, and not with "..".
unfoldable pub goes_on : List String → List String → Bool
goes_on [] [] = true
goes_on [] (p ∷ _) = not (p == "..")
goes_on (_ ∷ _) [] = false
goes_on (r ∷ rs) (p ∷ ps) = r == p && goes_on rs ps

-- The path is the root, or below it.
abbrev pub is_inside : FilePath → FilePath → Bool
is_inside root path = same_bool root.rooted path.rooted && goes_on root.parts path.parts

relative-goes_on :
    (base target : List String)
    → (elim (climb (strip base target).0 (strip base target).1) [
      | none ↦ false
      | some relative ↦ not (escapes relative)
    ])
      ≡ goes_on base target
unfolding goes_on strip climb escapes
relative-goes_on [] [] = refl
relative-goes_on [] (p ∷ ps) = refl
relative-goes_on (b ∷ base) [] = ground (arith, eq_refl "..")
relative-goes_on (b ∷ base) (t ∷ target) =
    ground (arith, relative-goes_on base target, eq_refl "..")

within_lem : (root path : FilePath) → within root path ≡ is_inside root path
unfolding within rel
within_lem root path = ground (arith, relative-goes_on root.parts path.parts)

-- Some target of the game is watched under a root that holds the path.
abbrev pub is_target : String → List Target → Bool
is_target g = any (λ t. t.game_id == g)

abbrev pub touches : FilePath → String → List (FilePath × List Target) → Bool
touches name g = any (λ e. is_inside e.0 name && is_target g e.1)

abbrev pub first_pending : String → Dict PendingChange → Option ℕ
first_pending g pending = elim (get g pending) [ none ↦ none | some c ↦ some c.first ]

-- The time of the first change after an event that does or does not touch the game.
abbrev pub first_after : Bool → ℕ → Option ℕ → Option ℕ
first_after true now none = some now
first_after true now (some t) = some t
first_after false now o = o

first_after_twice :
    (a b : Bool) (now : ℕ) (o : Option ℕ)
    → first_after b now (first_after a now o) ≡ first_after (a || b) now o
first_after_twice a b now o = ground arith

touch-first :
    (now : ℕ) (last : Dict ℕ) (t : Target) (pending : Dict PendingChange) (g : String)
    → first_pending g (touch now last t pending)
      ≡ first_after (t.game_id == g) now (first_pending g pending)
unfolding touch
touch-first now last t pending g =
    let first : ℕ = first_of_change now (get t.game_id pending) in
    let due : ℕ = snapshot_due now first (time_of (get t.game_id last)) t.policy in
    ground
      (arith, get-put t.game_id g (record { first = first; due = due }) pending, eq_iff t.game_id g)

touch_all-first :
    (now : ℕ) (last : Dict ℕ) (ts : List Target) (pending : Dict PendingChange) (g : String)
    → first_pending g (touch_all now last ts pending)
      ≡ first_after (is_target g ts) now (first_pending g pending)
unfolding touch_all any
touch_all-first now last [] pending g = refl
touch_all-first now last (t ∷ ts) pending g =
    touch_all-first now last ts (touch now last t pending) g
    ∙ ap (first_after (is_target g ts) now) (touch-first now last t pending g)
    ∙ first_after_twice (t.game_id == g) (is_target g ts) now (first_pending g pending)

-- An event at a root of one of a game's targets or below it (the parts of its path go on behind those
-- of the root, and not with "..") makes the game pending since now, unless it was pending
-- already: then its first change keeps its time. Every other game keeps the time of its first change.
pub touch_roots-first :
    (now : ℕ) (last : Dict ℕ) (name : FilePath) (roots : List (FilePath × List Target))
    (pending : Dict PendingChange) (g : String)
    → first_pending g (touch_roots now last name roots pending)
      ≡ first_after (touches name g roots) now (first_pending g pending)
unfolding touch_roots any
touch_roots-first now last name [] pending g = refl
touch_roots-first now last name ((root, ts) ∷ rest) pending g =
    rw (within_lem root name) (elim (Bool-cases (is_inside root name)) [
      | inl e ↦ rw e (
          touch_roots-first now last name rest (touch_all now last ts pending) g
          ∙ ap (first_after (touches name g rest) now) (touch_all-first now last ts pending g)
          ∙ first_after_twice (is_target g ts) (touches name g rest) now (first_pending g pending))
      | inr e ↦ rw e (touch_roots-first now last name rest pending g)
    ])
