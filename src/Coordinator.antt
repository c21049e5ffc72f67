-- ===== src/Coordinator.antt =====
-- internal/app/coordinator.go: the queue of games that wait for an automatic sync, shared by the
-- callers that add to it and the worker that empties it, and the retention of local snapshots.
pub mod Draining
pub mod Excess
pub mod Retaining
pub mod Pruning
mod Tests
use save_knot.Prelude.{
  ℕ, zero, suc, ◌=?◌, ℤ, pos, negsuc, Bool, true, false, not, ◌||◌, List, [], ◌∷◌, String, ◌==◌,
  ◌≡◌, any, keep, if◌then◌else◌,
}
use save_knot.Core.{Snapshot}
use save_knot.Io.{Exec, pure, ◌>>=◌, ◌>>◌}
use save_knot.Database.Snapshots.{snapshots_beyond}
use save_knot.Database.Blobs.{delete_snapshot}

-- Where runAutomaticSync is: at its select, in its inner loop, or at its end
pub data Worker : Type 0 where
  waiting : Worker
  draining : Worker
  stopped : Worker

-- automaticSyncGames; whether automaticSyncWake, of capacity 1, holds a value; the number of calls of
-- queueAutomaticSync between the map and the channel; and the games that automaticSyncGame was
-- called for, newest first.
pub record SyncQueue : Type 0 where
  pub games : List String
  pub wake : Bool
  pub callers : ℕ
  pub worker : Worker
  pub attempted : List String

-- NewCoordinator, and the worker that Start runs
abbrev pub new_queue : SyncQueue
new_queue = record { games = []; wake = false; callers = 0; worker = waiting; attempted = [] }

abbrev pub is_queued : String → SyncQueue → Bool
is_queued g q = any (λ h. h == g) q.games

-- queueAutomaticSync up to the end of its critical section
abbrev pub add_game : String → SyncQueue → SyncQueue
add_game g q = record q {
  games = if is_queued g q then q.games else g ∷ q.games;
  callers = suc q.callers;
}

-- The select of queueAutomaticSync, which sends unless the channel is full
abbrev pub send_wake : SyncQueue → SyncQueue
send_wake q = record q { wake = true; callers = elim q.callers [ zero ↦ zero | suc n ↦ n ] }

-- takeAutomaticSyncGame for one of the games, and the call for it
abbrev pub take_game : String → SyncQueue → SyncQueue
take_game g q = record q { games = keep (λ h. not (h == g)) q.games; attempted = g ∷ q.attempted }

-- A step that adds no game
pub data Quiet : SyncQueue → SyncQueue → Type 0 where
  wakes : (q : SyncQueue) (n : ℕ) → q.callers ≡ suc n → Quiet q (send_wake q)
  receives :
      (q : SyncQueue)
      → q.worker ≡ waiting
      → q.wake ≡ true
      → Quiet q (record q { wake = false; worker = draining })
  takes :
      (q : SyncQueue) (g : String)
      → q.worker ≡ draining
      → is_queued g q ≡ true
      → Quiet q (take_game g q)
  finds_none :
      (q : SyncQueue) → q.worker ≡ draining → q.games ≡ [] → Quiet q (record q { worker = waiting })

-- A step; the context may be done when the worker is at its select.
pub data Step : SyncQueue → SyncQueue → Type 0 where
  adds : (q : SyncQueue) (g : String) → Step q (add_game g q)
  stops : (q : SyncQueue) → q.worker ≡ waiting → Step q (record q { worker = stopped })
  quiet : (p q : SyncQueue) → Quiet p q → Step p q

-- The states that steps from the first one lead to
pub data IsReachable : SyncQueue → Type 0 where
  starts : IsReachable new_queue
  continues : (p q : SyncQueue) → IsReachable p → Step p q → IsReachable q

-- Steps one after another that add no game
pub data Settles : SyncQueue → SyncQueue → Type 0 where
  done : (q : SyncQueue) → Settles q q
  goes : (p q r : SyncQueue) → Quiet p q → Settles q r → Settles p r

-- RetentionKeep, where 0 stands for 50; SQLite takes a negative OFFSET for 0.
abbrev pub retention_limit : ℤ → ℕ
retention_limit (pos n) = if n =? 0 then 50 else n
retention_limit (negsuc _) = 0

-- A snapshot that is being uploaded stays, and one that is in the remote storage.
unfoldable pub is_removable : List String → Snapshot → Bool
unfolding any
is_removable active s = not (any (λ id. id == s.id) active || s.remote_state == "synced")

unfoldable pub remove_excess : List String → List Snapshot → Exec (Unit {0})
unfolding delete_snapshot is_removable ◌>>=◌
remove_excess active [] = pure tt
remove_excess active (s ∷ rest) =
    let further = remove_excess active rest in
    if is_removable active s then delete_snapshot s.id >> further else further

-- applyLocalRetention, with the configured number and the IDs that activeSyncSnapshots holds
unfoldable pub apply_local_retention : ℤ → List String → String → Exec (Unit {0})
unfolding remove_excess snapshots_beyond ◌>>=◌
apply_local_retention configured active game_id =
    snapshots_beyond game_id (retention_limit configured) >>= remove_excess active
