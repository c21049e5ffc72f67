-- ===== src/Coordinator/Retaining.antt =====
-- What applyLocalRetention deletes, by the abstract view of the snapshots.
use save_knot.Prelude.{
  Bool, true, false, none, ℕ, ℤ, List, [], ◌∷◌, String, ◌==◌, ◌≡◌, refl, ap, ◌∙◌, any, any-Some,
  Some, map, drop, All, arith, eq_refl, ◌⊎◌, inl, inr, Bool-cases, if◌then◌else◌,
}
use save_knot.Core.{Snapshot}
use save_knot.Io.{Error, Result, ok, err, World}
use save_knot.Io.Reads.{Reads, Reads-query}
use save_knot.Io.Laws.{bind_outcome}
use save_knot.Database.Schema.{Database}
use save_knot.Database.Snapshots.{of_game, snapshots_beyond, find_snapshot}
use save_knot.Database.Snapshots.Retention.{snapshots_beyond_lem}
use save_knot.Database.Blobs.{delete_snapshot}
use save_knot.Database.Views.{
  View, view, Updates, applied, skipped, deletes, delete_snapshot-IsStep,
}
use save_knot.Coordinator.Excess.{IsExcess, excess_of, excess_of-IsExcess}
use save_knot.Coordinator.{retention_limit, is_removable, remove_excess, apply_local_retention}

-- The retention may delete a snapshot that is not being uploaded and not marked as synced.
abbrev pub IsRemovable : List String → Snapshot → Type 0
IsRemovable active s =
    All (λ id. (id == s.id) ≡ false) active × ((s.remote_state == "synced") ≡ false)

-- The other ones
abbrev pub IsProtected : List String → Snapshot → Type 0
IsProtected active s =
    Some (λ id. (id == s.id) ≡ true) active ⊎ ((s.remote_state == "synced") ≡ true)

none-All : (p : String → Bool) (xs : List String) → any p xs ≡ false → All (λ x. p x ≡ false) xs
unfolding any
none-All p [] h = tt
none-All p (x ∷ xs) h = (ground (arith, h), none-All p xs (ground (arith, h)))

removable_lem :
    (active : List String) (s : Snapshot) → is_removable active s ≡ true → IsRemovable active s
unfolding is_removable
removable_lem active s h =
    (none-All (λ id. id == s.id) active (ground (arith, h)), ground (arith, h))

protected_lem :
    (active : List String) (s : Snapshot) → is_removable active s ≡ false → IsProtected active s
unfolding is_removable
protected_lem active s h = elim (Bool-cases (any (λ id. id == s.id) active)) [
  | inl e ↦ inl (any-Some (λ id. id == s.id) active e)
  | inr e ↦ inr (ground (arith, h, e))
]

-- A snapshot is as before, or it is gone and was to be deleted.
abbrev pub IsRetained : List String → List Snapshot → View → View → String → Type 0
IsRetained active excess before after id =
    (after id ≡ before id)
    ⊎ ((after id ≡ none) × Some (λ s. ((s.id == id) ≡ true) × IsRemovable active s) excess)

-- With no error, every snapshot that was to be deleted is gone.
pub data Deletes (active : List String) (excess : List Snapshot) (after : View)
    : Result (Unit {0}) → Type 0 where
  complete :
      All (λ s. IsProtected active s ⊎ (after s.id ≡ none)) excess
      → Deletes active excess after (ok tt)
  stopped_at : (e : Error) → Deletes active excess after (err e)

pub record Retention (active : List String) (excess : List Snapshot) (before : View)
    (o : Result (Unit {0}) × World) : Type 0 where
  pub retained : (id : String) → IsRetained active excess before (view o.1.db) id
  pub removal : Deletes active excess (view o.1.db) o.0

pub deleted :
    (i : String) (v w : View) (r : Result (Unit {0}))
    → Updates (deletes i) v r w
    → (id : String) → (w id ≡ v id) ⊎ ((w id ≡ none) × ((i == id) ≡ true))
deleted i v w r (applied s u same) id = elim (Bool-cases (i == id)) [
  | inl e ↦ inr (same id ∙ ap (λ b. if b then none else v id) e, e)
  | inr e ↦ inl (same id ∙ ap (λ b. if b then none else v id) e)
]
deleted i v w r (skipped e u same) id = inl (same id)

pub gone :
    (i : String) (v w : View) (r : Result (Unit {0}))
    → Updates (deletes i) v r w
    → r ≡ ok tt
    → w i ≡ none
gone i v w r (applied s u same) h = same i ∙ ap (λ b. if b then none else v i) (eq_refl i)
gone i v w r (skipped e u same) h = absurd (ground (arith, h))

module _ (active : List String) (s : Snapshot) (rest : List Snapshot) where
  further-IsRetained :
      (v w : View) (id : String)
      → IsRetained active rest v w id
      → IsRetained active (s ∷ rest) v w id
  further-IsRetained v w id (inl e) = inl e
  further-IsRetained v w id (inr (e, m)) = inr (e, inr m)

  kept-Deletes :
      (w : View) (r : Result (Unit {0}))
      → is_removable active s ≡ false
      → Deletes active rest w r
      → Deletes active (s ∷ rest) w r
  kept-Deletes w r k (complete a) = complete (inl (protected_lem active s k), a)
  kept-Deletes w r k (stopped_at e) = stopped_at e

  gone-Deletes :
      (w : View) (r : Result (Unit {0}))
      → w s.id ≡ none
      → Deletes active rest w r
      → Deletes active (s ∷ rest) w r
  gone-Deletes w r g (complete a) = complete (inr g, a)
  gone-Deletes w r g (stopped_at e) = stopped_at e

  -- The rest of the loop after one deletion
  then-IsRetained :
      (v u w : View) (id : String)
      → is_removable active s ≡ true
      → (u id ≡ v id) ⊎ ((u id ≡ none) × ((s.id == id) ≡ true))
      → IsRetained active rest u w id
      → IsRetained active (s ∷ rest) v w id
  then-IsRetained v u w id r d (inr (e, m)) = inr (e, inr m)
  then-IsRetained v u w id r (inl d) (inl e) = inl (e ∙ d)
  then-IsRetained v u w id r (inr (d, i)) (inl e) = inr (e ∙ d, inl (i, removable_lem active s r))

  still_gone : (u w : View) → u s.id ≡ none → IsRetained active rest u w s.id → w s.id ≡ none
  still_gone u w g (inl e) = e ∙ g
  still_gone u w g (inr (e, _)) = e

  deleting-Retention :
      (v u : View) (o : Result (Unit {0}) × World)
      → is_removable active s ≡ true
      → Updates (deletes s.id) v (ok tt) u
      → Retention active rest u o
      → Retention active (s ∷ rest) v o
  deleting-Retention v u o r d k = record {
    retained = λ id.
        then-IsRetained v u (view o.1.db) id r (deleted s.id v u (ok tt) d id) (k.retained id);
    removal =
        gone-Deletes (view o.1.db) o.0
          (still_gone u (view o.1.db) (gone s.id v u (ok tt) d refl) (k.retained s.id)) k.removal;
  }

  failing-Retention :
      (v : View) (e : Error) (w : World)
      → is_removable active s ≡ true
      → Updates (deletes s.id) v (err e) (view w.db)
      → Retention active (s ∷ rest) v (err e, w)
  failing-Retention v e w r d = record {
    retained = λ id.
        then-IsRetained v (view w.db) (view w.db) id r (deleted s.id v (view w.db) (err e) d id)
          (inl refl);
    removal = stopped_at e;
  }

  skipping-Retention :
      (v : View) (o : Result (Unit {0}) × World)
      → is_removable active s ≡ false
      → Retention active rest v o
      → Retention active (s ∷ rest) v o
  skipping-Retention v o k r = record {
    retained = λ id. further-IsRetained v (view o.1.db) id (r.retained id);
    removal = kept-Deletes (view o.1.db) o.0 k r.removal;
  }

remove_excess-Retention :
    (active : List String) (excess : List Snapshot) (w : World)
    → Retention active excess (view w.db) (remove_excess active excess w)
unfolding remove_excess
remove_excess-Retention active [] w = record { retained = λ id. inl refl; removal = complete tt }
remove_excess-Retention active (s ∷ rest) w = elim (Bool-cases (is_removable active s)) [
  | inl r ↦ rw r (
      bind_outcome (Retention active (s ∷ rest) (view w.db)) (delete_snapshot s.id)
        (λ _. remove_excess active rest) w
        (λ a h.
          deleting-Retention active s rest (view w.db) (view (delete_snapshot s.id w).1.db)
            (remove_excess active rest (delete_snapshot s.id w).1) r
            (rw h at (delete_snapshot-IsStep s.id w).updates)
            (remove_excess-Retention active rest (delete_snapshot s.id w).1))
        (λ e h.
          failing-Retention active s rest (view w.db) e (delete_snapshot s.id w).1 r
            (rw h at (delete_snapshot-IsStep s.id w).updates)))
  | inr k ↦ rw k (
      skipping-Retention active s rest (view w.db) (remove_excess active rest w) k
        (remove_excess-Retention active rest w))
]

pub snapshots_beyond-Reads : (id : String) (n : ℕ) → Reads (snapshots_beyond id n)
unfolding snapshots_beyond
snapshots_beyond-Reads id n = Reads-query (λ db. map (λ r. r.manifest) (drop n (of_game id db)))

moved-Retention :
    (active : List String) (a b : List Snapshot) (v db : Database) (o : Result (Unit {0}) × World)
    → a ≡ b
    → v ≡ db
    → Retention active a (view v) o
    → Retention active b (view db) o
moved-Retention active a b v db o e f r = rw (← e) (rw (← f) r)

failed-Retention :
    (active : List String) (excess : List Snapshot) (db : Database) (e : Error) (w : World)
    → w.db ≡ db
    → Retention active excess (view db) (err e, w)
failed-Retention active excess db e w d = record {
  retained = λ id. inl (ap (find_snapshot id) d);
  removal = stopped_at e;
}

retaining-Retention :
    (configured : ℤ) (active : List String) (game_id : String) (w : World)
    → Retention active
        (excess_of configured game_id w.db)
        (view w.db)
        (apply_local_retention configured active game_id w)
unfolding apply_local_retention
retaining-Retention configured active game_id w =
    let n : ℕ = retention_limit configured in
    let v : World = (snapshots_beyond game_id n w).1 in
    bind_outcome (Retention active (excess_of configured game_id w.db) (view w.db))
      (snapshots_beyond game_id n) (remove_excess active) w
      (λ excess h.
        moved-Retention active excess (excess_of configured game_id w.db) v.db w.db
          (remove_excess active excess v) (snapshots_beyond_lem game_id n w excess h).0
          ((snapshots_beyond-Reads game_id n).db w) (remove_excess-Retention active excess v))
      (λ e h.
        failed-Retention active (excess_of configured game_id w.db) w.db e v
          ((snapshots_beyond-Reads game_id n).db w))

-- Whatever calls fail, there is a list of snapshots of the game: of the game's rows in some order from
-- the newest on, those behind as many as RetentionKeep says, 50 for 0 and none for a negative number.
-- applyLocalRetention leaves the snapshot under an ID as it was, or deletes it, and then it is under
-- the ID of one of the list that is not being uploaded and not marked as synced. If it succeeds, no
-- snapshot is left under the ID of such a one.
pub apply_local_retention-Retention :
    (configured : ℤ) (active : List String) (game_id : String) (w : World)
    → (excess : List Snapshot) × IsExcess configured game_id w.db excess
      × Retention active excess (view w.db) (apply_local_retention configured active game_id w)
apply_local_retention-Retention configured active game_id w = (
  excess_of configured game_id w.db,
  excess_of-IsExcess configured game_id w.db,
  retaining-Retention configured active game_id w,
)
