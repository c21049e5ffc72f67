-- ===== src/Remote/Reconcile/Registered.antt =====
-- Reconcile over all objects of the remote storage.
use save_knot.Prelude.{
  ℕ, ◌+◌, Bool, true, false, ◌&&◌, Option, none, some, List, [], ◌∷◌, String, ◌==◌, keep, length,
  if◌then◌else◌, ◌≡◌, refl, sym, ap, ◌∙◌, arith, eq_iff, All, Bool-cases, ◌⊎◌, inl, inr,
}
use save_knot.Core.{Snapshot}
use save_knot.Io.{Error, Result, ok, err, World, Exec, pure, external}
use save_knot.Io.Laws.{bind_outcome}
use save_knot.Io.Reads.{Reads, reads_rules, Reads-external}
use save_knot.Io.Files.{lift}
use save_knot.Database.Snapshots.{has_snapshot, find_snapshot, manifest_of}
use save_knot.Database.Snapshots.Saving.{has_row-find}
use save_knot.Remote.Download.{Reader}
use save_knot.Remote.Reconcile.{
  Object, ReconcileResult, is_snapshot_object, snapshot_object_identity, read_remote_snapshot,
  register, import_object, reconcile_identified, reconcile_one, reconcile_objects, reconcile,
}
use save_knot.Remote.Reconcile.Imported.{
  IsAdded, Adds, Adds-IsChange, has_snapshot_lem, row_found, read_remote_snapshot-Reads,
  read_remote_snapshot-IsRead, IsRegistered, counted, HasRound, register-HasRound,
}

has_snapshot-Reads : (id : String) → Reads (has_snapshot id)
unfolding has_snapshot
has_snapshot-Reads id = search reads_rules

listed_lem :
    (objects os : List Object) (w : World)
    → (external (lift (ok objects)) w).0 ≡ ok os
    → os ≡ objects
unfolding external
listed_lem objects os w h = ground (arith, h)

module _ (get : Reader) (decode : List ℕ → Option Snapshot) (now : ℕ) where
  abbrev Round : Object → ReconcileResult → World → Result ReconcileResult × World → Type 0
  Round = HasRound get decode now

  moved-Round :
      (o : Object) (r : ReconcileResult) (v w : World) (out : Result ReconcileResult × World)
      → v.db ≡ w.db
      → v.disk ≡ w.disk
      → Round o r v out
      → Round o r w out
  moved-Round o r v w out d e (a, b) =
      (Adds-IsChange.trans w v out.1 (Adds-IsChange.same w v d e) a, b)

  failed-Round : (o : Object) (r : ReconcileResult) (w : World) (e : Error) → Round o r w (err e, w)
  failed-Round o r w e = (Adds-IsChange.same w w refl refl, inl (e, refl))

  import_object-Round :
      (o : Object) (r : ReconcileResult) (game_id id : String) (w : World)
      → is_snapshot_object o.key ≡ true
      → snapshot_object_identity o.key.parts ≡ some (game_id, id)
      → find_snapshot id w.db ≡ none
      → Round o r w (import_object get decode now o r game_id id w)
  import_object-Round o r game_id id w is_one i n =
      let m : Exec Snapshot = read_remote_snapshot get decode now o in
      let v : World = (m w).1 in
      let d : v.db ≡ w.db = (read_remote_snapshot-Reads get decode now o).db w in
      let e : v.disk ≡ w.disk = (read_remote_snapshot-Reads get decode now o).disk w in
      bind_outcome (Round o r w) m _ w
        (λ s h. elim (Bool-cases (s.game_id == game_id && s.id == id)) [
          | inl match ↦
              let same : s.id ≡ id = ground (arith, match, eq_iff s.id id) in
              rw match (
                moved-Round o r v w (register get decode now r s v) d e (
                  register-HasRound get decode now o r s game_id v
                    (read_remote_snapshot-IsRead get decode now o s w h) is_one
                    (i ∙ ap (λ x. some (game_id, x)) (sym same))
                    (ap (λ x. find_snapshot x v.db) same ∙ ap (find_snapshot id) d ∙ n)))
          | inr other ↦ rw other (moved-Round o r v w _ d e (failed-Round o r v _))
        ])
        (λ x _. moved-Round o r v w _ d e (failed-Round o r v x))

  known-Round :
      (o : Object) (r : ReconcileResult) (game_id id : String) (w : World)
      → is_snapshot_object o.key ≡ true
      → snapshot_object_identity o.key.parts ≡ some (game_id, id)
      → Round o r w (reconcile_identified get decode now o r (some (game_id, id)) w)
  known-Round o r game_id id w is_one i =
      let v : World = (has_snapshot id w).1 in
      let d : v.db ≡ w.db = (has_snapshot-Reads id).db w in
      let e : v.disk ≡ w.disk = (has_snapshot-Reads id).disk w in
      bind_outcome (Round o r w) (has_snapshot id) _ w
        (λ exists h. elim (Bool-cases exists) [
          | inl yes_there ↦
              let (s, found) =
                row_found id w.db.snapshots ((has_snapshot_lem id w exists h).0 ∙ yes_there) in
              rw yes_there (
                Adds-IsChange.same w v d e,
                inr (
                  _,
                  refl,
                  inr (game_id, id, s, i, ap (find_snapshot id) d ∙ found),
                  rw is_one (omega arith),
                ),
              )
          | inr none_there ↦
              let n : find_snapshot id w.db ≡ none = ap manifest_of (
                has_row-find id w.db.snapshots ((has_snapshot_lem id w exists h).0 ∙ none_there)) in
              rw none_there (
                moved-Round o r v w _ d e
                  (import_object-Round o r game_id id v is_one i (ap (find_snapshot id) d ∙ n)))
        ])
        (λ x _. moved-Round o r v w _ d e (failed-Round o r v x))

  identified-Round :
      (o : Object) (r : ReconcileResult) (identity : Option (String × String)) (w : World)
      → is_snapshot_object o.key ≡ true
      → snapshot_object_identity o.key.parts ≡ identity
      → Round o r w (reconcile_identified get decode now o r identity w)
  identified-Round o r none w is_one i = failed-Round o r w _
  identified-Round o r (some (game_id, id)) w is_one i = known-Round o r game_id id w is_one i

  decided-Round :
      (o : Object) (r : ReconcileResult) (b : Bool) (w : World)
      → is_snapshot_object o.key ≡ b
      → Round o r w (
          (if b
              then reconcile_identified get decode now o r (snapshot_object_identity o.key.parts)
              else pure r)
            w)
  decided-Round o r true w e = identified-Round o r (snapshot_object_identity o.key.parts) w e refl
  decided-Round o r false w e =
      (Adds-IsChange.same w w refl refl, inr (r, refl, inl e, rw e (omega arith)))

  reconcile_one-Round :
      (o : Object) (r : ReconcileResult) (w : World)
      → Round o r w (reconcile_one get decode now o r w)
  unfolding reconcile_one
  reconcile_one-Round o r w = decided-Round o r (is_snapshot_object o.key) w refl

  registered_IsAdded :
      (id : String) (s : Snapshot) (before after : Option Snapshot)
      → IsAdded id before after
      → before ≡ some s
      → after ≡ some s
  registered_IsAdded id s before after (inl e) h = e ∙ h
  registered_IsAdded id s before after (inr (n, _, _, _, _)) h = absurd (ground (arith, n, h))

  -- Later rounds leave it registered.
  IsRegistered-Adds :
      (o : Object) (v w : World)
      → Adds v w
      → IsRegistered get decode now o v.db
      → IsRegistered get decode now o w.db
  IsRegistered-Adds o v w a (inl other) = inl other
  IsRegistered-Adds o v w a (inr (game_id, id, s, i, f)) = inr (
    game_id,
    id,
    s,
    i,
    registered_IsAdded id s (find_snapshot id v.db) (find_snapshot id w.db) (a.snapshots id) f,
  )

  abbrev pub AreCounted : List Object → ReconcileResult → ReconcileResult → Type 0
  AreCounted os r r' =
      counted get decode now r'
      ≡ counted get decode now r + length (keep (λ o. is_snapshot_object o.key) os)

  -- The rounds over a list of objects only add, and if they succeed every object is registered and counted.
  abbrev pub HasRounds :
      List Object → ReconcileResult → World → Result ReconcileResult × World → Type 0
  HasRounds os r before out =
      Adds before out.1
      × (((e : Error) × (out.0 ≡ err e))
          ⊎ ((r' : ReconcileResult) × (out.0 ≡ ok r')
              × All (λ o. IsRegistered get decode now o out.1.db) os
              × AreCounted os r r'))

  one_more :
      (o : Object) (os : List Object) (r r₁ r₂ : ReconcileResult)
      → counted get decode now r₁
        ≡ counted get decode now r + (if is_snapshot_object o.key then 1 else 0)
      → AreCounted os r₁ r₂
      → AreCounted (o ∷ os) r r₂
  unfolding keep
  one_more o os r r₁ r₂ e f = elim (Bool-cases (is_snapshot_object o.key)) [
    | inl is_one ↦
        let g : counted get decode now r₁ ≡ counted get decode now r + 1 = (rw is_one at e) in
        rw is_one (omega (arith, g, f))
    | inr other ↦
        let g : counted get decode now r₁ ≡ counted get decode now r + 0 = (rw other at e) in
        rw other (omega (arith, g, f))
  ]

  reconcile_objects-HasRounds :
      (os : List Object) (r : ReconcileResult) (w : World)
      → HasRounds os r w (reconcile_objects get decode now os r w)
  unfolding reconcile_objects keep
  reconcile_objects-HasRounds [] r w =
      (Adds-IsChange.same w w refl refl, inr (r, refl, tt, omega arith))
  reconcile_objects-HasRounds (o ∷ os) r w =
      let (a, b) = reconcile_one-Round o r w in
      bind_outcome (HasRounds (o ∷ os) r w) (reconcile_one get decode now o r)
        (λ more. reconcile_objects get decode now os more) w
        (λ r₁ h.
          joined r₁ h a b
            (reconcile_objects-HasRounds os r₁ (reconcile_one get decode now o r w).1))
        (λ x _. (a, inl (x, refl)))
    where
      joined :
          (r₁ : ReconcileResult)
          → (reconcile_one get decode now o r w).0 ≡ ok r₁
          → Adds w (reconcile_one get decode now o r w).1
          → (((e : Error) × ((reconcile_one get decode now o r w).0 ≡ err e))
              ⊎ ((r' : ReconcileResult) × ((reconcile_one get decode now o r w).0 ≡ ok r')
                  × IsRegistered get decode now o (reconcile_one get decode now o r w).1.db
                  × (counted get decode now r'
                      ≡ counted get decode now r + (if is_snapshot_object o.key then 1 else 0))))
          → HasRounds os r₁
              (reconcile_one get decode now o r w).1
              (reconcile_objects get decode now os r₁ (reconcile_one get decode now o r w).1)
          → HasRounds
              (o ∷ os)
              r
              w
              (reconcile_objects get decode now os r₁ (reconcile_one get decode now o r w).1)
      joined r₁ h a (inl (e, bad)) c = absurd (ground (arith, h, bad))
      joined r₁ h a (inr (r', done, known, count)) (c, d) =
          let v : World = (reconcile_one get decode now o r w).1 in
          let x : World = (reconcile_objects get decode now os r₁ v).1 in
          let same : r' ≡ r₁ = ground (arith, h, done) in
          (
            Adds-IsChange.trans w v x a c,
            elim d [
              | inl bad ↦ inl bad
              | inr (r₂, finished, all, counts) ↦ inr (
                r₂,
                finished,
                (IsRegistered-Adds o v x c known, all),
                one_more o os r r₁ r₂ (ap (counted get decode now) (sym same) ∙ count) counts,
              )
            ],
          )

  abbrev pub empty_result : List Object → ReconcileResult
  empty_result objects = record { objects = length objects; snapshots = 0; skipped = 0; games = [] }

  -- Whatever the remote storage answers and whatever calls fail: Reconcile leaves every snapshot of the
  -- database as it was, adds under a new ID only a manifest with this ID that readRemoteSnapshot accepts,
  -- marked as synced, and keeps the references of every snapshot the hashes of its manifest. If it
  -- succeeds, each snapshot object of the listing has an ID that is known afterwards, and the
  -- imported and the skipped ones together are as many as these objects.
  pub reconcile-HasRounds :
      (objects : List Object) (w : World)
      → HasRounds objects (empty_result objects) w (reconcile get decode now (ok objects) w)
  unfolding reconcile
  reconcile-HasRounds objects w =
      let v : World = (external (lift (ok objects)) w).1 in
      let same : Adds w v =
        Adds-IsChange.same w v ((Reads-external (ok objects)).db w)
          ((Reads-external (ok objects)).disk w) in
      bind_outcome (HasRounds objects (empty_result objects) w) (external (lift (ok objects)))
        (λ os. reconcile_objects get decode now os (empty_result os)) w
        (λ os h.
          rw (listed_lem objects os w h)
            (from v same (reconcile_objects-HasRounds objects (empty_result objects) v)))
        (λ x _. (same, inl (x, refl)))
    where
      from :
          (v : World)
          → Adds w v
          → HasRounds objects
              (empty_result objects)
              v
              (reconcile_objects get decode now objects (empty_result objects) v)
          → HasRounds objects
              (empty_result objects)
              w
              (reconcile_objects get decode now objects (empty_result objects) v)
      from v a (b, c) = (
        Adds-IsChange.trans w v
            (reconcile_objects get decode now objects (empty_result objects) v).1 a b,
        c,
      )
