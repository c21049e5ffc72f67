-- ===== src/Watcher/Tests.antt =====
-- Concrete histories of the watcher.
use save_knot.Prelude.{
  String, ◌++◌, ℕ, ◌≤◌, ◌<◌, true, false, some, List, [], ◌∷◌, ◌≡◌, arith, All, Dict, get, any,
  length,
}
use save_knot.Core.{default_backup_policy}
use save_knot.Paths.{FilePath}
use save_knot.Watcher.{
  Target, PendingChange, jobs_capacity, seconds, effective_policy, snapshot_due, touch_roots,
  FsEvent, flush, directory, Action, reconciles, receives, happens, ticks, run, initial,
}
use save_knot.Watcher.Due.{policy_of, snapshot_due-formula, snapshot_due_overflow}
use save_knot.Watcher.Flush.{Splits, flush_conserves, flush_leaves, MayStay}
use save_knot.Watcher.Events.{goes_on, first_pending, touch_roots-first}
use save_knot.Watcher.Run.{Inv, run-Inv}

abbrev saves : FilePath
saves = record { rooted = true; parts = "home" ∷ "saves" ∷ [] }

abbrev slot_file : FilePath
slot_file = record { rooted = true; parts = "home" ∷ "saves" ∷ "slot" ∷ [] }

abbrev a_target : Target
a_target = record { game_id = "g"; path = saves; policy = default_backup_policy }

abbrev a_write : FsEvent
a_write = record { name = slot_file; create = false; write = true; remove = false; rename = false }

abbrev history : List (ℕ × Action)
history =
    (1000000000, reconciles (a_target ∷ []))
    ∷ (1000000000, receives (λ _. directory))
    ∷ (2000000000, happens a_write)
    ∷ (3000000000, ticks)
    ∷ []

initial-Inv : Inv 900000000000 0 initial
initial-Inv = record { capacity = omega arith; prompt = tt; watched = tt; offered = tt }

run-Inv_example : Inv 900000000000 3000000000 (run initial history)
unfolding seconds effective_policy
run-Inv_example =
    run-Inv 900000000000 0 initial history
      (omega arith, (omega arith, tt), (omega arith, tt, (omega arith, tt, (omega arith, tt, tt))))
      initial-Inv

snapshot_due-formula_example :
    snapshot_due 100000000000 90000000000 0 (policy_of 10 300 900) ≡ 110000000000
snapshot_due-formula_example =
    snapshot_due-formula 100000000000 90000000000 0 10 300 900 (omega arith) (omega arith)
      (omega arith) (omega arith)

snapshot_due_overflow_example :
    snapshot_due 100000000000 90000000000 0 (policy_of 10 300 10000000000) < 90000000000
snapshot_due_overflow_example =
    snapshot_due_overflow 100000000000 90000000000 0 10 300 10000000000 (omega arith) (omega arith)
      (omega arith) (omega arith) (omega arith)

abbrev changes : Dict PendingChange
changes = ("g", record { first = 1; due = 5 }) ∷ ("h", record { first = 2; due = 9 }) ∷ []

flush_conserves_example :
    (length (flush 6 changes [] []).jobs ≤ jobs_capacity)
    × ((games : List String) × Splits changes (flush 6 changes [] []).pending games
        × ((flush 6 changes [] []).jobs ≡ [] ++ games))
flush_conserves_example = flush_conserves 6 changes [] [] (omega arith)

flush_leaves_example :
    All (MayStay 6 (length (flush 6 changes [] []).jobs)) (flush 6 changes [] []).pending
flush_leaves_example = flush_leaves 6 changes [] []

touch_roots-first_example :
    first_pending "h" (touch_roots 7 [] slot_file ((saves, a_target ∷ []) ∷ []) changes) ≡ some 2
unfolding any get goes_on
touch_roots-first_example =
    touch_roots-first 7 [] slot_file ((saves, a_target ∷ []) ∷ []) changes "h"
