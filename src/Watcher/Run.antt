-- ===== src/Watcher/Run.antt =====
-- What holds after any history of reconciliations, events, ticks and taken jobs.
use save_knot.Prelude.{
  ℕ, ltb, ◌≤◌, ◌||◌, Option, none, some, List, [], ◌∷◌, ◌++◌, String, ◌==◌, ◌≡◌, refl, any, length,
  Dict, put, arith, All, All-mono, All-append, Bool-cases, inl, inr, Option-cases, ap,
}
use save_knot.Paths.{FilePath, path_eq}
use save_knot.Watcher.{
  Target, PendingChange, Manager, FsEvent, Stat, Action, reconciles, receives, happens, ticks,
  works, jobs_capacity, flush, flush_pending, prune, nearest_existing_directory, append_target,
  group_targets, reconcile, receive_update, take_job, handle_event, step, run,
}
use save_knot.Watcher.Events.{IsLimited, AreLimited, IsPrompt, IsPromptChange, touch_roots-IsPrompt}
use save_knot.Watcher.Flush.{length-flush}

-- The targets in the update channel.
abbrev pub slot_targets : Option (List Target) → List Target
slot_targets none = []
slot_targets (some ts) = ts

-- What an action at a time finds, if all targets that were ever given have policies under `limit`.
pub record Inv (limit now : ℕ) (m : Manager) : Type 0 where
  pub capacity : length m.jobs ≤ jobs_capacity
  pub prompt : IsPrompt limit now m.pending
  pub watched : AreLimited limit m.targets
  pub offered : All (IsLimited limit) (slot_targets m.slot)

flush-All :
    (P : PendingChange → Type 0) (now : ℕ) (d : Dict PendingChange) (last : Dict ℕ)
    (jobs : List String)
    → All (λ e. P e.1) d
    → All (λ e. P e.1) (flush now d last jobs).pending
unfolding flush
flush-All P now [] last jobs h = tt
flush-All P now ((g, c) ∷ d) last jobs h = elim (Bool-cases (ltb now c.due)) [
  | inl early ↦ rw early (h.0, flush-All P now d last jobs h.1)
  | inr due ↦ rw due (elim (Bool-cases (ltb (length jobs) jobs_capacity)) [
    | inl room ↦ rw room (flush-All P now d (put g now last) (jobs ++ g ∷ []) h.1)
    | inr full ↦ rw full (h.0, flush-All P now d last jobs h.1)
  ])
]

prune-All :
    (P : PendingChange → Type 0) (ts : List Target) (d : Dict PendingChange)
    → All (λ e. P e.1) d
    → All (λ e. P e.1) (prune ts d)
unfolding prune
prune-All P ts [] h = tt
prune-All P ts ((g, c) ∷ d) h = elim (Bool-cases (any (λ t. t.game_id == g) ts)) [
  | inl e ↦ rw e (h.0, prune-All P ts d h.1)
  | inr e ↦ rw e (prune-All P ts d h.1)
]

append_target-AreLimited :
    (limit : ℕ) (root : FilePath) (t : Target) (groups : List (FilePath × List Target))
    → IsLimited limit t
    → AreLimited limit groups
    → AreLimited limit (append_target root t groups)
unfolding append_target
append_target-AreLimited limit root t [] h k = ((h, tt), tt)
append_target-AreLimited limit root t ((r, ts) ∷ rest) h k = elim (Bool-cases (path_eq r root)) [
  | inl e ↦ rw e (All-append (IsLimited limit) ts (t ∷ []) k.0 (h, tt), k.1)
  | inr e ↦ rw e (k.0, append_target-AreLimited limit root t rest h k.1)
]

group_targets-AreLimited :
    (limit : ℕ) (stat : FilePath → Stat) (ts : List Target) (groups : List (FilePath × List Target))
    → All (IsLimited limit) ts
    → AreLimited limit groups
    → AreLimited limit (group_targets stat ts groups)
unfolding group_targets
group_targets-AreLimited limit stat [] groups h k = k
group_targets-AreLimited limit stat (t ∷ ts) groups h k =
    elim (Option-cases (nearest_existing_directory stat t.path)) [
      | inl e ↦ rw e (group_targets-AreLimited limit stat ts groups h.1 k)
      | inr (root, e) ↦ rw e (
          group_targets-AreLimited limit stat ts (append_target root t groups) h.1
            (append_target-AreLimited limit root t groups h.0 k))
    ]

Inv-later :
    {limit before now : ℕ} {m : Manager} → before ≤ now → Inv limit before m → Inv limit now m
Inv-later {limit} {before} {now} {m} h v = record {
  capacity = v.capacity;
  prompt =
      All-mono (λ e. IsPromptChange limit before e.1) (λ e. IsPromptChange limit now e.1) m.pending
        (λ e p. (p.0, omega arith)) v.prompt;
  watched = v.watched;
  offered = v.offered;
}

abbrev pub IsLimitedAction : ℕ → Action → Type 0
IsLimitedAction limit (reconciles ts) = All (IsLimited limit) ts
IsLimitedAction limit _ = Unit {0}

-- The newest revision of the targets takes the place of one that was not consumed.
pub reconcile_lem : (ts : List Target) (m : Manager) → reconcile ts m ≡ record m { slot = some ts }
unfolding reconcile
reconcile_lem ts m = ground arith

reconcile-Inv :
    (limit now : ℕ) (m : Manager) (ts : List Target)
    → All (IsLimited limit) ts
    → Inv limit now m
    → Inv limit now (reconcile ts m)
reconcile-Inv limit now m ts h v =
    rw reconcile_lem
      (record { capacity = v.capacity; prompt = v.prompt; watched = v.watched; offered = h })

receive_update-Inv :
    (limit now : ℕ) (m : Manager) (stat : FilePath → Stat)
    → Inv limit now m
    → Inv limit now (receive_update stat m)
unfolding receive_update
receive_update-Inv limit now m stat v = elim (Option-cases m.slot) [
  | inl e ↦ rw (e, receive_update) v
  | inr (ts, e) ↦
      rw (e, receive_update)
        (record {
          capacity = v.capacity;
          prompt = prune-All (IsPromptChange limit now) ts m.pending v.prompt;
          watched = group_targets-AreLimited limit stat ts [] (rw e at v.offered) tt;
          offered = tt;
        })
]

handle_event-Inv :
    (limit now : ℕ) (m : Manager) (event : FsEvent)
    → Inv limit now m
    → Inv limit now (handle_event now event m)
unfolding handle_event
handle_event-Inv limit now m event v =
    elim (Bool-cases (event.create || event.write || event.remove || event.rename)) [
      | inl e ↦ rw e (record {
        capacity = v.capacity;
        prompt =
            touch_roots-IsPrompt limit now m.last_queued event.name m.targets m.pending v.watched
              v.prompt;
        watched = v.watched;
        offered = v.offered;
      })
      | inr e ↦ rw e v
    ]

take_job-Inv :
    (limit now : ℕ) (m : Manager) (jobs : List String)
    → m.jobs ≡ jobs
    → Inv limit now m
    → Inv limit now (take_job m)
unfolding take_job
take_job-Inv limit now m [] e v = rw (e, take_job) v
take_job-Inv limit now m (j ∷ rest) e v =
    rw (e, take_job)
      (record {
        capacity = omega (arith, ap length e, v.capacity);
        prompt = v.prompt;
        watched = v.watched;
        offered = v.offered;
      })

step-Inv :
    (limit now : ℕ) (m : Manager) (a : Action)
    → IsLimitedAction limit a
    → Inv limit now m
    → Inv limit now (step m (now, a))
unfolding step flush_pending
step-Inv limit now m (reconciles ts) h v = reconcile-Inv limit now m ts h v
step-Inv limit now m (receives stat) h v = receive_update-Inv limit now m stat v
step-Inv limit now m (happens event) h v = handle_event-Inv limit now m event v
step-Inv limit now m ticks h v = record {
  capacity = (length-flush now m.pending m.last_queued m.jobs v.capacity).0;
  prompt = flush-All (IsPromptChange limit now) now m.pending m.last_queued m.jobs v.prompt;
  watched = v.watched;
  offered = v.offered;
}
step-Inv limit now m works h v = take_job-Inv limit now m m.jobs refl v

-- The times of a history do not fall, and its targets have policies under `limit`.
abbrev pub IsHistory : ℕ → ℕ → List (ℕ × Action) → Type 0
IsHistory limit now [] = Unit {0}
IsHistory limit now ((t, a) ∷ rest) = (now ≤ t) × IsLimitedAction limit a × IsHistory limit t rest

abbrev pub end_of : ℕ → List (ℕ × Action) → ℕ
end_of now [] = now
end_of now ((t, a) ∷ rest) = end_of t rest

-- After any history whose times do not fall and whose targets have a maximum dirty duration of at
-- most `limit`, the job channel is within its capacity, and every pending change is due at most
-- `limit` after its first event, which is not after the end of the history.
pub run-Inv :
    (limit now : ℕ) (m : Manager) (actions : List (ℕ × Action))
    → IsHistory limit now actions
    → Inv limit now m
    → Inv limit (end_of now actions) (run m actions)
unfolding run
run-Inv limit now m [] h v = v
run-Inv limit now m ((t, a) ∷ rest) h v =
    run-Inv limit t (step m (t, a)) rest h.2 (step-Inv limit t m a h.1 (Inv-later h.0 v))
