-- ===== src/Coordinator/Pruning/Retired.antt =====
-- What applyRetention deletes, by the abstract view of the snapshots.
use save_knot.Prelude.{
  ◌==◌, ℕ, ℤ, Bool, true, false, not, ◌&&◌, none, List, [], ◌∷◌, String, ◌≡◌, refl, sym, ap, ◌∙◌,
  All, arith, ◌⊎◌, inl, inr, Bool-cases,
}
use save_knot.Core.{Snapshot}
use save_knot.Io.{Error, Result, ok, err, World, pure, ◌>>=◌, ◌>>◌, external, some_call, for_each}
use save_knot.Io.Laws.{bind_outcome}
use save_knot.Io.Reads.{Reads, Reads-bind, Reads-if, Reads-pure, Reads-some_call}
use save_knot.Database.Schema.{Database}
use save_knot.Database.Snapshots.{snapshots_beyond, find_snapshot}
use save_knot.Database.Blobs.{delete_snapshot}
use save_knot.Database.Views.{View, view, delete_snapshot-IsStep}
use save_knot.Coordinator.{retention_limit}
use save_knot.Coordinator.Retaining.{gone, snapshots_beyond-Reads}
use save_knot.Coordinator.Excess.{IsExcess, excess_of, excess_of-IsExcess}
use save_knot.Coordinator.Pruning.{
  is_synced, load_client, retention_remote, withdraw, retire, apply_retention,
}
use save_knot.Database.Snapshots.Retention.{snapshots_beyond_lem}
use save_knot.Coordinator.Pruning.Withdrawn.{IsRetired, for_each-IsRetired}

retire-gone :
    (remote : Bool) (s : Snapshot) (w : World)
    → (retire remote s w).0 ≡ ok tt
    → ((is_synced s && not remote) ≡ true) ⊎ (view (retire remote s w).1.db s.id ≡ none)
unfolding retire
retire-gone remote s w h = elim (Bool-cases (is_synced s && not remote)) [
  | inl e ↦ inl e
  | inr e ↦ inr (
      rw e (
        bind_outcome (λ o. o.0 ≡ ok tt → view o.1.db s.id ≡ none) (withdraw s)
          (λ _. delete_snapshot s.id) w
          (λ _ _.
            let v : World = (withdraw s w).1 in
            gone s.id (view v.db) (view (delete_snapshot s.id v).1.db) (delete_snapshot s.id v).0
              (delete_snapshot-IsStep s.id v).updates)
          (λ x _ f. absurd (ground (arith, f))) (rw e at h)))
]

still_gone :
    (rest : List Snapshot) (before : View) (w : World) (id : String)
    → IsRetired rest before w id
    → before id ≡ none
    → view w.db id ≡ none
still_gone rest before w id (inl e) g = e ∙ g
still_gone rest before w id (inr (e, _)) g = e

-- Each snapshot is gone, or it is synced and there is no client.
abbrev pub AreGone : Bool → View → List Snapshot → Type 0
AreGone connected after =
    All (λ s. ((s.remote_state == "synced" && not connected) ≡ true) ⊎ (after s.id ≡ none))

for_each-AreGone :
    (remote : Bool) (excess : List Snapshot) (w : World)
    → (for_each excess (retire remote) w).0 ≡ ok tt
    → AreGone remote (view (for_each excess (retire remote) w).1.db) excess
unfolding for_each
for_each-AreGone remote [] w = λ h. tt
for_each-AreGone remote (s ∷ rest) w =
    let v : World = (retire remote s w).1 in
    let last : World = (for_each rest (retire remote) v).1 in
    bind_outcome (λ o. o.0 ≡ ok tt → AreGone remote (view o.1.db) (s ∷ rest)) (retire remote s)
      (λ _. for_each rest (retire remote)) w
      (λ _ e h. (
        elim (retire-gone remote s w e) [
          | inl k ↦ inl k
          | inr g ↦
              inr (still_gone rest (view v.db) last s.id (for_each-IsRetired remote rest v s.id) g)
        ],
        for_each-AreGone remote rest v h,
      ))
      (λ x _ f. absurd (ground (arith, f)))

load_client-Reads : (configured : Bool) → Reads (load_client configured)
unfolding load_client
load_client-Reads configured =
    Reads-if configured (some_call >> (some_call >> pure true)) (pure false)
      (Reads-bind some_call (λ _. some_call >> pure true) Reads-some_call
        (λ _. Reads-bind some_call (λ _. pure true) Reads-some_call (λ _. Reads-pure true)))
      (Reads-pure false)

retention_remote-Reads :
    (configured : Bool) (excess : List Snapshot) → Reads (retention_remote configured excess)
unfolding retention_remote
retention_remote-Reads configured [] = Reads-pure false
retention_remote-Reads configured (s ∷ rest) =
    Reads-if (is_synced s) (load_client configured) (retention_remote configured rest)
      (load_client-Reads configured) (retention_remote-Reads configured rest)

load_client_lem :
    (configured connected : Bool) (w : World)
    → (load_client configured w).0 ≡ ok connected
    → connected ≡ configured
unfolding load_client some_call external ◌>>=◌
load_client_lem configured connected w h = ground (arith, h)

same_skips :
    (a b : Bool) (excess : List Snapshot)
    → a ≡ b
    → All (λ s. (is_synced s && not a) ≡ (is_synced s && not b)) excess
same_skips a b [] e = tt
same_skips a b (s ∷ rest) e = (ap (λ c. is_synced s && not c) e, same_skips a b rest e)

-- With or without a client, the same snapshots are skipped as by the configuration alone.
retention_remote_lem :
    (configured remote : Bool) (excess : List Snapshot) (w : World)
    → (retention_remote configured excess w).0 ≡ ok remote
    → All (λ s. (is_synced s && not remote) ≡ (is_synced s && not configured)) excess
unfolding retention_remote
retention_remote_lem configured remote [] w h = tt
retention_remote_lem configured remote (s ∷ rest) w h = elim (Bool-cases (is_synced s)) [
  | inl e ↦
      same_skips remote configured (s ∷ rest) (load_client_lem configured remote w (rw e at h))
  | inr e ↦ (
    ap (λ b. b && not remote) e ∙ sym (ap (λ b. b && not configured) e),
    retention_remote_lem configured remote rest w (rw e at h),
  )
]

AreGone-skips :
    (a b : Bool) (after : View) (excess : List Snapshot)
    → All (λ s. (is_synced s && not a) ≡ (is_synced s && not b)) excess
    → AreGone a after excess
    → AreGone b after excess
AreGone-skips a b after [] e g = tt
AreGone-skips a b after (s ∷ rest) (e, es) (inl k, gs) =
    (inl (sym e ∙ k), AreGone-skips a b after rest es gs)
AreGone-skips a b after (s ∷ rest) (e, es) (inr n, gs) = (inr n, AreGone-skips a b after rest es gs)

-- With no error, every snapshot beyond the limit is gone, but the synced ones without a connection.
pub data Finishes (configured : Bool) (excess : List Snapshot) (after : View)
    : Result (Unit {0}) → Type 0 where
  finished : AreGone configured after excess → Finishes configured excess after (ok tt)
  failed : (e : Error) → Finishes configured excess after (err e)

pub record Pruned (configured : Bool) (excess : List Snapshot) (before : View)
    (o : Result (Unit {0}) × World) : Type 0 where
  pub retired : (id : String) → IsRetired excess before o.1 id
  pub finishes : Finishes configured excess (view o.1.db) o.0

Finishes-if :
    (configured : Bool) (excess : List Snapshot) (after : View) (r : Result (Unit {0}))
    → (r ≡ ok tt → AreGone configured after excess)
    → Finishes configured excess after r
Finishes-if configured excess after (ok u) f = finished (f refl)
Finishes-if configured excess after (err e) f = failed e

failed-Pruned :
    (configured : Bool) (excess : List Snapshot) (db : Database) (e : Error) (w : World)
    → w.db ≡ db
    → Pruned configured excess (view db) (err e, w)
failed-Pruned configured excess db e w d = record {
  retired = λ id. inl (ap (find_snapshot id) d);
  finishes = failed e;
}

looped-Pruned :
    (configured remote : Bool) (excess : List Snapshot) (db : Database) (w : World)
    → w.db ≡ db
    → All (λ s. (is_synced s && not remote) ≡ (is_synced s && not configured)) excess
    → Pruned configured excess (view db) (for_each excess (retire remote) w)
looped-Pruned configured remote excess db w d k = rw (← d) (record {
  retired = for_each-IsRetired remote excess w;
  finishes =
      Finishes-if configured excess (view (for_each excess (retire remote) w).1.db)
        (for_each excess (retire remote) w).0
        (λ h.
          AreGone-skips remote configured (view (for_each excess (retire remote) w).1.db) excess k
            (for_each-AreGone remote excess w h));
})

connected-Pruned :
    (configured : Bool) (excess : List Snapshot) (db : Database) (w : World)
    → w.db ≡ db
    → Pruned configured excess
        (view db)
        ((retention_remote configured excess >>= (λ remote. for_each excess (retire remote))) w)
connected-Pruned configured excess db w d =
    let v : World = (retention_remote configured excess w).1 in
    let same : v.db ≡ db = (retention_remote-Reads configured excess).db w ∙ d in
    bind_outcome (Pruned configured excess (view db)) (retention_remote configured excess)
      (λ remote. for_each excess (retire remote)) w
      (λ remote h.
        looped-Pruned configured remote excess db v same
          (retention_remote_lem configured remote excess w h))
      (λ e h. failed-Pruned configured excess db e v same)

pruning-Pruned :
    (configured : Bool) (limit : ℤ) (game_id : String) (w : World)
    → Pruned configured
        (excess_of limit game_id w.db)
        (view w.db)
        (apply_retention configured limit game_id w)
unfolding apply_retention
pruning-Pruned configured limit game_id w =
    let n : ℕ = retention_limit limit in
    let v : World = (snapshots_beyond game_id n w).1 in
    bind_outcome (Pruned configured (excess_of limit game_id w.db) (view w.db))
      (snapshots_beyond game_id n)
      (λ excess. retention_remote configured excess >>= (λ remote. for_each excess (retire remote)))
      w
      (λ excess h.
        rw (← (snapshots_beyond_lem game_id n w excess h).0)
          (connected-Pruned configured excess w.db v ((snapshots_beyond-Reads game_id n).db w)))
      (λ e h.
        failed-Pruned configured (excess_of limit game_id w.db) w.db e v
          ((snapshots_beyond-Reads game_id n).db w))

-- Whatever calls fail, there is a list of snapshots of the game: of the game's rows in some order from
-- the newest on, those behind as many as RetentionKeep says, 50 for 0 and none for a negative number.
-- applyRetention leaves the snapshot under an ID as it was, or deletes it, and then it is under the
-- ID of one of the list that is not marked as synced or whose manifest is not in the remote storage
-- any more. If it succeeds, no snapshot is left under the IDs of the list, except those of synced ones
-- where no storage is configured.
pub apply_retention-Pruned :
    (configured : Bool) (limit : ℤ) (game_id : String) (w : World)
    → (excess : List Snapshot) × IsExcess limit game_id w.db excess
      × Pruned configured excess (view w.db) (apply_retention configured limit game_id w)
apply_retention-Pruned configured limit game_id w = (
  excess_of limit game_id w.db,
  excess_of-IsExcess limit game_id w.db,
  pruning-Pruned configured limit game_id w,
)
