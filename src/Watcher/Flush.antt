-- ===== src/Watcher/Flush.antt =====
-- What a tick does with the pending changes (`flushPending`).
use save_knot.Prelude.{
  ℕ, ltb, ◌+◌, ◌≤◌, ◌<◌, Bool, not, ◌||◌, some, List, [], ◌∷◌, ◌++◌, String, ◌==◌, ◌≡◌, refl, ◌⊎◌,
  inl, inr, length, length-append, ltb→lt, sym, keep, keys, any, any-append, Dict, get, put,
  get-put, arith, ◌∙◌, if◌then◌else◌, All, Bool-cases,
}
use mathlib.Core.List.{append_assoc, append-nil}
use save_knot.Watcher.{PendingChange, Flushed, jobs_capacity, flush}

-- The number of changes and jobs stays.
pub length-flush :
    (now : ℕ) (d : Dict PendingChange) (last : Dict ℕ) (jobs : List String)
    → length jobs ≤ jobs_capacity
    → (length (flush now d last jobs).jobs ≤ jobs_capacity)
      × (length (flush now d last jobs).pending + length (flush now d last jobs).jobs
          ≡ length d + length jobs)
unfolding flush
length-flush now [] last jobs h = (h, refl)
length-flush now ((g, c) ∷ d) last jobs h = ground (
  arith,
  length-flush now d last jobs,
  length-flush now d (put g now last) (jobs ++ g ∷ []),
  length-append jobs (g ∷ []),
)

-- Each change stays, as it is and in its order, or leaves, and then its game stands in the list.
pub data Splits : Dict PendingChange → Dict PendingChange → List String → Type 0 where
  none_left : Splits [] [] []
  stays :
      (e : String × PendingChange) (d p : Dict PendingChange) (games : List String)
      → Splits d p games
      → Splits (e ∷ d) (e ∷ p) games
  leaves :
      (e : String × PendingChange) (d p : Dict PendingChange) (games : List String)
      → Splits d p games
      → Splits (e ∷ d) p (e.0 ∷ games)

abbrev IsSplit : Dict PendingChange → List String → Flushed → Type 0
IsSplit d jobs f = (games : List String) × Splits d f.pending games × (f.jobs ≡ jobs ++ games)

stays-IsSplit :
    (e : String × PendingChange) (d : Dict PendingChange) (jobs : List String) (f : Flushed)
    → IsSplit d jobs f
    → IsSplit (e ∷ d) jobs (record f { pending = e ∷ f.pending })
stays-IsSplit e d jobs f (games, s, a) = (games, stays e d f.pending games s, a)

leaves-IsSplit :
    (e : String × PendingChange) (d : Dict PendingChange) (jobs : List String) (f : Flushed)
    → IsSplit d (jobs ++ e.0 ∷ []) f
    → IsSplit (e ∷ d) jobs f
leaves-IsSplit e d jobs f (games, s, a) =
    (e.0 ∷ games, leaves e d f.pending games s, a ∙ append_assoc jobs (e.0 ∷ []) games)

flush-IsSplit :
    (now : ℕ) (d : Dict PendingChange) (last : Dict ℕ) (jobs : List String)
    → IsSplit d jobs (flush now d last jobs)
unfolding flush
flush-IsSplit now [] last jobs = ([], none_left, sym (append-nil jobs))
flush-IsSplit now ((g, c) ∷ d) last jobs =
    let f : Flushed = flush now d last jobs in
    let kept : IsSplit ((g, c) ∷ d) jobs (record f { pending = (g, c) ∷ f.pending }) =
      stays-IsSplit (g, c) d jobs (flush now d last jobs) (flush-IsSplit now d last jobs) in
    elim (Bool-cases (ltb now c.due)) [
      | inl early ↦ rw early kept
      | inr due ↦ rw due (elim (Bool-cases (ltb (length jobs) jobs_capacity)) [
        | inl room ↦ rw room (
            leaves-IsSplit (g, c) d jobs (flush now d (put g now last) (jobs ++ g ∷ []))
              (flush-IsSplit now d (put g now last) (jobs ++ g ∷ [])))
        | inr full ↦ rw full kept
      ])
    ]

-- From a channel within its capacity, a tick leaves it within its capacity. Each pending change stays as
-- it is, in its order, or leaves, and the games of those that leave, in this order, are what the tick
-- appends to the channel.
pub flush_conserves :
    (now : ℕ) (d : Dict PendingChange) (last : Dict ℕ) (jobs : List String)
    → length jobs ≤ jobs_capacity
    → (length (flush now d last jobs).jobs ≤ jobs_capacity)
      × ((games : List String) × Splits d (flush now d last jobs).pending games
          × ((flush now d last jobs).jobs ≡ jobs ++ games))
flush_conserves now d last jobs h =
    ((length-flush now d last jobs h).0, flush-IsSplit now d last jobs)

abbrev pub holds : String → List String → Bool
holds g = any (λ j. j == g)

abbrev pub is_pending : String → Dict PendingChange → Bool
is_pending g = any (λ e. e.0 == g)

-- A game is pending or queued after a tick exactly if it was before.
pub flush_accounts :
    (now : ℕ) (d : Dict PendingChange) (last : Dict ℕ) (jobs : List String) (g : String)
    → (is_pending g (flush now d last jobs).pending || holds g (flush now d last jobs).jobs)
      ≡ (is_pending g d || holds g jobs)
unfolding flush any
flush_accounts now [] last jobs g = refl
flush_accounts now ((j, c) ∷ d) last jobs g = ground (
  arith,
  flush_accounts now d last jobs g,
  flush_accounts now d (put j now last) (jobs ++ j ∷ []) g,
  any-append (λ i. i == g) jobs (j ∷ []),
)

flush_grows :
    (now : ℕ) (d : Dict PendingChange) (last : Dict ℕ) (jobs : List String)
    → length jobs ≤ length (flush now d last jobs).jobs
unfolding flush
flush_grows now [] last jobs = omega arith
flush_grows now ((g, c) ∷ d) last jobs = ground (
  arith,
  flush_grows now d last jobs,
  flush_grows now d (put g now last) (jobs ++ g ∷ []),
  length-append jobs (g ∷ []),
)

-- Why a change may stay pending where `n` jobs are queued.
abbrev pub MayStay : ℕ → ℕ → String × PendingChange → Type 0
MayStay now n e = (now < e.1.due) ⊎ (jobs_capacity ≤ n)

-- A tick leaves a change pending only if its time has not come or the channel is full.
pub flush_leaves :
    (now : ℕ) (d : Dict PendingChange) (last : Dict ℕ) (jobs : List String)
    → All (MayStay now (length (flush now d last jobs).jobs)) (flush now d last jobs).pending
unfolding flush
flush_leaves now [] last jobs = tt
flush_leaves now ((g, c) ∷ d) last jobs = elim (Bool-cases (ltb now c.due)) [
  | inl early ↦ rw early (inl (ltb→lt now c.due early), flush_leaves now d last jobs)
  | inr due ↦ rw due (elim (Bool-cases (ltb (length jobs) jobs_capacity)) [
    | inl room ↦ rw room (flush_leaves now d (put g now last) (jobs ++ g ∷ []))
    | inr full ↦
        rw full (inr (ground (arith, flush_grows now d last jobs)), flush_leaves now d last jobs)
  ])
]

abbrev pub is_early : ℕ → String × PendingChange → Bool
is_early now e = ltb now e.1.due

abbrev pub is_due : ℕ → String × PendingChange → Bool
is_due now e = not (ltb now e.1.due)

-- Where the channel has room for all, a tick keeps exactly the changes whose time has not come and
-- queues the other games in the order of the changes.
pub flush_with_room :
    (now : ℕ) (d : Dict PendingChange) (last : Dict ℕ) (jobs : List String)
    → length jobs + length d ≤ jobs_capacity
    → ((flush now d last jobs).pending ≡ keep (is_early now) d)
      × ((flush now d last jobs).jobs ≡ jobs ++ keys (keep (is_due now) d))
unfolding flush keep
flush_with_room now [] last jobs h = (refl, sym (append-nil jobs))
flush_with_room now ((g, c) ∷ d) last jobs h = ground (
  arith,
  flush_with_room now d last jobs,
  flush_with_room now d (put g now last) (jobs ++ g ∷ []),
  length-append jobs (g ∷ []),
  append_assoc jobs (g ∷ []) (keys (keep (is_due now) d)),
)

-- Where the channel has room for all, a game that a tick queues has this tick as the time when it
-- was last queued, and the times of the others stay as they are.
pub flush_stamps :
    (now : ℕ) (d : Dict PendingChange) (last : Dict ℕ) (jobs : List String) (g : String)
    → length jobs + length d ≤ jobs_capacity
    → get g (flush now d last jobs).last_queued
      ≡ (if is_pending g (keep (is_due now) d) then some now else get g last)
unfolding flush keep any
flush_stamps now [] last jobs g h = refl
flush_stamps now ((j, c) ∷ d) last jobs g h = ground (
  arith,
  flush_stamps now d last jobs g,
  flush_stamps now d (put j now last) (jobs ++ j ∷ []) g,
  get-put j g now last,
  length-append jobs (j ∷ []),
)
