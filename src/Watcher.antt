-- ===== src/Watcher.antt =====
-- internal/watcher/watcher.go: the debouncing of file-system events into backup jobs.
pub mod Due
pub mod Flush
pub mod Events
pub mod Run
mod Tests
use save_knot.Prelude.{
  ℕ, ℤ, pos, negsuc, pos_part, neg_part, ltb_ℤ, scale, wrap64, ltb, ◌=?◌, ◌+◌, ◌-◌, Bool, true,
  false, not, ◌&&◌, ◌||◌, Option, none, some, List, [], ◌∷◌, ◌++◌, reverse, String, ◌==◌, any,
  length, Dict, get, put, if◌then◌else◌,
}
use save_knot.Core.{BackupPolicy, default_backup_policy}
use save_knot.Paths.{FilePath, clean, path_eq, rel, escapes}

pub record Target : Type 0 where
  pub game_id : String
  pub path : FilePath
  pub policy : BackupPolicy

pub record PendingChange : Type 0 where
  pub first : ℕ
  pub due : ℕ

-- What the loop of `run` keeps, with the two channels. `slot` is the update channel, of size one.
pub record Manager : Type 0 where
  pub targets : List (FilePath × List Target)
  pub pending : Dict PendingChange
  pub last_queued : Dict ℕ
  pub jobs : List String
  pub slot : Option (List Target)

abbrev pub jobs_capacity : ℕ
jobs_capacity = 32

-- time.Duration(n) * time.Second, an int64 of nanoseconds
unfoldable pub seconds : ℤ → ℤ
seconds n = wrap64 (scale n 1000000000)

-- t.Add(d)
unfoldable pub add_duration : ℕ → ℤ → ℕ
add_duration t d = t + pos_part d - neg_part d

-- left.Before(right) is `ltb`.
unfoldable pub earlier : ℕ → ℕ → ℕ
earlier left right = if ltb left right then left else right

unfoldable pub effective_policy : BackupPolicy → BackupPolicy
effective_policy policy =
    if ltb_ℤ policy.quiet_seconds (pos 1)
      || ltb_ℤ policy.max_dirty_seconds policy.quiet_seconds
      || ltb_ℤ policy.min_gap_seconds (pos 0)
    then default_backup_policy
    else policy

-- `minimum.After(due)`, unless nothing was queued yet
unfoldable pub spaced : ℕ → ℕ → ℕ → ℕ
spaced last_queued minimum due = if not (last_queued =? 0) && ltb due minimum then minimum else due

unfoldable pub snapshot_due : ℕ → ℕ → ℕ → BackupPolicy → ℕ
unfolding seconds add_duration earlier effective_policy spaced
snapshot_due now first last_queued policy =
    let p = effective_policy policy in
    let due = add_duration now (seconds p.quiet_seconds) in
    let minimum = add_duration last_queued (seconds p.min_gap_seconds) in
    earlier (spaced last_queued minimum due) (add_duration first (seconds p.max_dirty_seconds))

-- A missing entry of a map of times reads as the zero time.
unfoldable pub time_of : Option ℕ → ℕ
time_of none = 0
time_of (some t) = t

unfoldable pub first_of_change : ℕ → Option PendingChange → ℕ
first_of_change now none = now
first_of_change now (some change) = change.first

-- The body of the inner loop of `handleEvent`.
unfoldable pub touch : ℕ → Dict ℕ → Target → Dict PendingChange → Dict PendingChange
unfolding time_of first_of_change
touch now last_queued target pending =
    let first = first_of_change now (get target.game_id pending) in
    put target.game_id
      (record {
        first = first;
        due = snapshot_due now first (time_of (get target.game_id last_queued)) target.policy;
      })
      pending

unfoldable pub touch_all : ℕ → Dict ℕ → List Target → Dict PendingChange → Dict PendingChange
touch_all now last_queued [] pending = pending
touch_all now last_queued (target ∷ rest) pending =
    touch_all now last_queued rest (touch now last_queued target pending)

unfoldable pub within : FilePath → FilePath → Bool
within root path = elim (rel root path) [ none ↦ false | some relative ↦ not (escapes relative) ]

unfoldable pub touch_roots :
    ℕ → Dict ℕ → FilePath → List (FilePath × List Target) → Dict PendingChange → Dict PendingChange
touch_roots now last_queued name [] pending = pending
touch_roots now last_queued name ((root, root_targets) ∷ rest) pending =
    touch_roots now last_queued name rest
      (if within root name then touch_all now last_queued root_targets pending else pending)

-- An fsnotify event: its path and the bits of its operation.
pub record FsEvent : Type 0 where
  pub name : FilePath
  pub create : Bool
  pub write : Bool
  pub remove : Bool
  pub rename : Bool

-- The directory watches that a Create adds are not part of this state.
unfoldable pub handle_event : ℕ → FsEvent → Manager → Manager
handle_event now event m =
    if event.create || event.write || event.remove || event.rename
    then record m { pending = touch_roots now m.last_queued event.name m.targets m.pending }
    else m

pub record Flushed : Type 0 where
  pub pending : Dict PendingChange
  pub last_queued : Dict ℕ
  pub jobs : List String

-- `range` over the pending changes; the non-blocking send fails where the channel is full.
unfoldable pub flush : ℕ → Dict PendingChange → Dict ℕ → List String → Flushed
flush now [] last_queued jobs = record { pending = []; last_queued = last_queued; jobs = jobs }
flush now ((game_id, change) ∷ rest) last_queued jobs =
    let kept = flush now rest last_queued jobs in
    let stay : Flushed = record kept { pending = (game_id, change) ∷ kept.pending } in
    let sent = flush now rest (put game_id now last_queued) (jobs ++ game_id ∷ []) in
    if ltb now change.due then stay else if ltb (length jobs) jobs_capacity then sent else stay

unfoldable pub flush_pending : ℕ → Manager → Manager
flush_pending now m =
    let f = flush now m.pending m.last_queued m.jobs in
    record m { pending = f.pending; last_queued = f.last_queued; jobs = f.jobs }

unfoldable pub prune : List Target → Dict PendingChange → Dict PendingChange
prune targets [] = []
prune targets ((game_id, change) ∷ rest) =
    let kept = prune targets rest in
    if any (λ t. t.game_id == game_id) targets then (game_id, change) ∷ kept else kept

-- What os.Stat says of a path.
pub data Stat : Type 0 where
  directory other_file not_exist stat_failed : Stat

-- The loop of `nearestExistingDirectory`, over the components of the path, newest first.
unfoldable pub nearest_up : (FilePath → Stat) → Bool → List String → Option FilePath
nearest_up stat rooted [] =
    let current : FilePath = record { rooted = rooted; parts = [] } in
    elim (stat current) [ other_file ↦ some current | _ ↦ none ]
nearest_up stat rooted (name ∷ above) =
    let current : FilePath = record { rooted = rooted; parts = reverse (name ∷ above) } in
    elim (stat current) [
      | directory ↦ some current
      | other_file ↦ some (record { rooted = rooted; parts = reverse above })
      | not_exist ↦ nearest_up stat rooted above
      | stat_failed ↦ none
    ]

unfoldable pub nearest_existing_directory : (FilePath → Stat) → FilePath → Option FilePath
unfolding nearest_up
nearest_existing_directory stat path =
    let current = clean path in nearest_up stat current.rooted (reverse current.parts)

-- targets[root] = append(targets[root], target)
unfoldable pub append_target :
    FilePath → Target → List (FilePath × List Target) → List (FilePath × List Target)
append_target root target [] = (root, target ∷ []) ∷ []
append_target root target ((r, ts) ∷ rest) =
    let further = append_target root target rest in
    if path_eq r root then (r, ts ++ target ∷ []) ∷ rest else (r, ts) ∷ further

-- The map that `applyTargets` returns.
unfoldable pub group_targets :
    (FilePath → Stat) → List Target → List (FilePath × List Target) → List (FilePath × List Target)
group_targets stat [] groups = groups
group_targets stat (target ∷ rest) groups =
    group_targets stat rest (elim (nearest_existing_directory stat target.path) [
      | none ↦ groups
      | some root ↦ append_target root target groups
    ])

-- One round of the loop of `Reconcile` with no other caller: send, or else drain the slot.
unfoldable pub reconcile_round : List Target → Manager → Manager
reconcile_round ts m = elim m.slot [
  | none ↦ record m { slot = some ts }
  | some _ ↦ record m { slot = none }
]

-- It returns after the round that sends.
unfoldable pub reconcile : List Target → Manager → Manager
unfolding reconcile_round
reconcile ts m = elim m.slot [
  | none ↦ reconcile_round ts m
  | some _ ↦ reconcile_round ts (reconcile_round ts m)
]

-- `case revised := <-m.update` of `run`
unfoldable pub receive_update : (FilePath → Stat) → Manager → Manager
receive_update stat m = elim m.slot [
  | none ↦ m
  | some revised ↦ record m {
    slot = none;
    targets = group_targets stat revised [];
    pending = prune revised m.pending;
  }
]

-- The worker takes the oldest job.
unfoldable pub take_job : Manager → Manager
take_job m = elim m.jobs [ [] ↦ m | _ ∷ rest ↦ record m { jobs = rest } ]

pub data Action : Type 0 where
  reconciles : List Target → Action
  receives : (FilePath → Stat) → Action
  happens : FsEvent → Action
  ticks : Action
  works : Action

unfoldable pub step : Manager → ℕ × Action → Manager
step m (now, reconciles ts) = reconcile ts m
step m (now, receives stat) = receive_update stat m
step m (now, happens event) = handle_event now event m
step m (now, ticks) = flush_pending now m
step m (now, works) = take_job m

unfoldable pub run : Manager → List (ℕ × Action) → Manager
run m [] = m
run m (a ∷ rest) = run (step m a) rest

abbrev pub initial : Manager
initial = record { targets = []; pending = []; last_queued = []; jobs = []; slot = none }
