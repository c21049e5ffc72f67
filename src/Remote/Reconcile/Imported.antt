-- ===== src/Remote/Reconcile/Imported.antt =====
-- What Reconcile does to the snapshots of the database, whatever the remote storage answers.
use save_knot.Prelude.{
  ℕ, ◌+◌, Bool, true, false, Option, none, some, List, [], ◌∷◌, String, ◌==◌, any, find, length,
  leb, if◌then◌else◌, ◌≡◌, refl, sym, ap, ◌∙◌, arith, eq_iff, eq_refl, Bool-cases, ◌⊎◌, inl, inr,
}
use save_knot.Core.{Game, Snapshot}
use save_knot.Io.{Error, Result, ok, err, World, pure, ◌>>=◌, external, statement}
use save_knot.Io.Laws.{bind_outcome, bind_world}
use save_knot.Io.Reads.{Reads, reads_rules}
use save_knot.Io.Moves.{IsChange, Moves}
use save_knot.Io.Files.{lift, ensure}
use save_knot.Database.Schema.{Database, SnapshotRow}
use save_knot.Database.Snapshots.{
  has_row, has_snapshot, find_snapshot, manifest_of, import_snapshot, synced,
}
use save_knot.Database.Snapshots.Importing.{import_snapshot_outcome}
use save_knot.Database.Snapshots.Consistency.{AreReferenced, import_snapshot-AreReferenced}
use save_knot.Database.Games.{ensure_remote_game, ensure_game_row}
use save_knot.Remote.Download.{Stream, Reader, limited}
use save_knot.Remote.Reconcile.{
  Object, ReconcileResult, max_remote_manifest_size, is_valid_manifest, is_snapshot_object,
  snapshot_object_identity, decoded_manifest, read_body, read_remote_snapshot, remote_game,
  register,
}

-- A snapshot is as it was; or there was none under the ID, and now there is a valid one with this ID,
-- marked as synced.
abbrev pub IsAdded : String → Option Snapshot → Option Snapshot → Type 0
IsAdded j before after =
    (after ≡ before)
    ⊎ ((before ≡ none)
        × (s : Snapshot) × (after ≡ some (synced s))
        × ((s.id == j) ≡ true)
        × (is_valid_manifest (synced s) ≡ true))

pub record Adds (before after : World) : Type 0 where
  pub snapshots : (j : String) → IsAdded j (find_snapshot j before.db) (find_snapshot j after.db)
  pub references : AreReferenced before.db → AreReferenced after.db

IsAdded-trans :
    (j : String) (a b c : Option Snapshot) → IsAdded j a b → IsAdded j b c → IsAdded j a c
IsAdded-trans j a b c (inl e) (inl f) = inl (f ∙ e)
IsAdded-trans j a b c (inl e) (inr (n, s, f, i, v)) = inr (sym e ∙ n, s, f, i, v)
IsAdded-trans j a b c (inr (n, s, f, i, v)) (inl e) = inr (n, s, e ∙ f, i, v)
IsAdded-trans j a b c (inr (n, s, f, i, v)) (inr (m, t, g, k, l)) = absurd (ground (arith, f, m))

pub Adds-IsChange : IsChange Adds
Adds-IsChange = record {
  same =
      λ v w d e. record { snapshots = λ j. inl (ap (find_snapshot j) d); references = λ a. rw d a };
  trans = λ u v w a b. record {
    snapshots = λ j.
        IsAdded-trans j (find_snapshot j u.db) (find_snapshot j v.db) (find_snapshot j w.db)
          (a.snapshots j) (b.snapshots j);
    references = λ r. b.references (a.references r);
  };
}

-- The tables of snapshots and references decide both.
same_tables-Adds :
    (v w : World)
    → w.db.snapshots ≡ v.db.snapshots
    → w.db.snapshot_blobs ≡ v.db.snapshot_blobs
    → Adds v w
same_tables-Adds v w d e = record {
  snapshots = λ j. inl (ap (λ rows. manifest_of (find (λ r. r.id == j) rows)) d);
  references = λ a. record { exact = λ j h. rw (d, e) (a.exact j h) };
}

ensure_remote_game-snapshots :
    (g : Game) (w : World) → (ensure_remote_game g w).1.db.snapshots ≡ w.db.snapshots
unfolding ensure_remote_game ensure_game_row statement
ensure_remote_game-snapshots g w = ground arith

ensure_remote_game-Moves : (g : Game) → Moves Adds (ensure_remote_game g)
unfolding ensure_remote_game ensure_game_row statement
ensure_remote_game-Moves g = record { at = λ w. same_tables-Adds w _ (ground arith) (ground arith) }

import_snapshot-Adds :
    (s : Snapshot) (w : World)
    → find_snapshot s.id w.db ≡ none
    → is_valid_manifest (synced s) ≡ true
    → Adds w (import_snapshot s w).1
import_snapshot-Adds s w n v = record {
  snapshots = λ j. elim (import_snapshot_outcome s w) [
    | inl (_, _, d) ↦ elim (Bool-cases (s.id == j)) [
      | inl same ↦ inr (
        sym (ap (λ i. find_snapshot i w.db) ((eq_iff s.id j).0 same)) ∙ n,
        s,
        d.snapshots j ∙ rw same,
        same,
        v,
      )
      | inr other ↦ inl (d.snapshots j ∙ rw other)
    ]
    | inr (_, _, d) ↦ inl (ap (find_snapshot j) d)
  ];
  references = import_snapshot-AreReferenced s w;
}

pub row_found :
    (id : String) (rows : List SnapshotRow)
    → any (λ r. r.id == id) rows ≡ true
    → (s : Snapshot) × (manifest_of (find (λ r. r.id == id) rows) ≡ some s)
unfolding any find
row_found id [] h = absurd (cc)
row_found id (r ∷ rows) h = elim (Bool-cases (r.id == id)) [
  | inl e ↦ (r.manifest, rw e refl)
  | inr e ↦ rw e (row_found id rows (ground (arith, e)))
]

pub has_snapshot_lem :
    (id : String) (w : World) (b : Bool)
    → (has_snapshot id w).0 ≡ ok b
    → (has_row id w.db ≡ b) × ((has_snapshot id w).1.db ≡ w.db)
unfolding has_snapshot
has_snapshot_lem id w b h = (ground (arith, h), ground (arith, h))

-- What validates does not depend on the mark.
synced-valid : (s : Snapshot) → is_valid_manifest (synced s) ≡ is_valid_manifest s
unfolding is_valid_manifest
synced-valid s = refl

module _ (get : Reader) (decode : List ℕ → Option Snapshot) (now : ℕ) where
  -- A valid snapshot, marked as synced
  abbrev pub IsRead : Snapshot → Type 0
  IsRead s = (t : Snapshot) × (s ≡ synced t) × (is_valid_manifest (synced t) ≡ true)

  decoded_manifest-Reads : (o : Option Snapshot) → Reads (decoded_manifest get decode now o)
  decoded_manifest-Reads none = search reads_rules
  decoded_manifest-Reads (some s) = search reads_rules

  read_body-Reads : (b : Stream) → Reads (read_body get decode now b)
  read_body-Reads b = search (reads_rules, decoded_manifest-Reads)

  pub read_remote_snapshot-Reads : (o : Object) → Reads (read_remote_snapshot get decode now o)
  unfolding read_remote_snapshot
  read_remote_snapshot-Reads o = search (reads_rules, read_body-Reads)

  decoded_manifest-IsRead :
      (o : Option Snapshot) (s : Snapshot) (w : World)
      → (decoded_manifest get decode now o w).0 ≡ ok s
      → IsRead s
  decoded_manifest-IsRead none s w h = absurd (cc)
  decoded_manifest-IsRead (some t) s w h = elim (Bool-cases (is_valid_manifest t)) [
    | inl valid ↦
        let e : ok (synced t) ≡ ok s = (rw valid at h) in
        (t, ground (arith, e), synced-valid t ∙ valid)
    | inr bad ↦ absurd (ground (arith, bad, h))
  ]

  read_body-IsRead :
      (b : Stream) (s : Snapshot) (w : World) → (read_body get decode now b w).0 ≡ ok s → IsRead s
  unfolding ◌>>=◌
  read_body-IsRead b s w h = elim (Bool-cases b.ends) [
    | inl e ↦ elim (Bool-cases (leb (length b.bytes) max_remote_manifest_size)) [
      | inl f ↦ decoded_manifest-IsRead (decode b.bytes) s w (rw (e, f) at h)
      | inr f ↦ absurd (ground (arith, e, f, h))
    ]
    | inr e ↦ absurd (ground (arith, e, h))
  ]

  pub read_remote_snapshot-IsRead :
      (o : Object) (s : Snapshot) (w : World)
      → (read_remote_snapshot get decode now o w).0 ≡ ok s
      → IsRead s
  unfolding read_remote_snapshot
  read_remote_snapshot-IsRead o s w =
      bind_outcome (λ x. x.0 ≡ ok s → IsRead s)
        (ensure (leb o.size max_remote_manifest_size) "remote snapshot manifest exceeds its limit")
        _ w
        (λ _ _.
          bind_outcome (λ x. x.0 ≡ ok s → IsRead s) (external (lift (get o.key))) _ _
            (λ answer _. read_body-IsRead (limited (max_remote_manifest_size + 1) answer.body) s _)
            (λ x _ h. absurd (cc)))
        (λ x _ h. absurd (cc))

  register-Adds :
      (r : ReconcileResult) (s : Snapshot) (w : World)
      → IsRead s
      → find_snapshot s.id w.db ≡ none
      → Adds w (register get decode now r s w).1
  register-Adds r s w (t, e, v) n =
      let g : Game = remote_game get decode now s in
      let w₁ : World = (ensure_remote_game g w).1 in
      let first : Adds w w₁ = (ensure_remote_game-Moves g).at w in
      let same : find_snapshot s.id w₁.db ≡ none =
        ap (λ rows. manifest_of (find (λ x. x.id == s.id) rows)) (ensure_remote_game-snapshots g w)
        ∙ n in
      bind_world (Adds w) (ensure_remote_game g) _ w
        (λ _ _.
          bind_world (Adds w) (import_snapshot s) (λ _. pure _) w₁
            (λ _ _. Adds-IsChange.trans w w₁ (import_snapshot s w₁).1 first (imported w₁ same))
            (λ x _. Adds-IsChange.trans w w₁ (import_snapshot s w₁).1 first (imported w₁ same)))
        (λ x _. first)
    where
      imported : (v₁ : World) → find_snapshot s.id v₁.db ≡ none → Adds v₁ (import_snapshot s v₁).1
      imported v₁ m = import_snapshot-Adds s v₁ m (rw e v)

  -- What the round did, if it registered the object: the object is passed over, or its ID is known.
  abbrev pub IsRegistered : Object → Database → Type 0
  IsRegistered o db =
      (is_snapshot_object o.key ≡ false)
      ⊎ ((game_id : String) × (id : String) × (s : Snapshot) × (snapshot_object_identity o.key.parts
            ≡ some (game_id, id))
          × (find_snapshot id db ≡ some s))

  abbrev pub counted : ReconcileResult → ℕ
  counted r = r.snapshots + r.skipped

  -- A round only adds, and if it succeeds it counts the object and its ID is known.
  abbrev pub HasRound : Object → ReconcileResult → World → Result ReconcileResult × World → Type 0
  HasRound o r before out =
      Adds before out.1
      × (((e : Error) × (out.0 ≡ err e))
          ⊎ ((r' : ReconcileResult) × (out.0 ≡ ok r')
              × IsRegistered o out.1.db
              × (counted r' ≡ counted r + (if is_snapshot_object o.key then 1 else 0))))

  find-import_snapshot :
      (s : Snapshot) (w : World)
      → (import_snapshot s w).0 ≡ ok tt
      → find_snapshot s.id (import_snapshot s w).1.db ≡ some (synced s)
  find-import_snapshot s w h = elim (import_snapshot_outcome s w) [
    | inl (_, _, d) ↦ d.snapshots s.id ∙ rw (eq_refl s.id)
    | inr (e, bad, _) ↦ absurd (ground (arith, h, bad))
  ]

  pub register-HasRound :
      (o : Object) (r : ReconcileResult) (s : Snapshot) (game_id : String) (w : World)
      → IsRead s
      → is_snapshot_object o.key ≡ true
      → snapshot_object_identity o.key.parts ≡ some (game_id, s.id)
      → find_snapshot s.id w.db ≡ none
      → HasRound o r w (register get decode now r s w)
  register-HasRound o r s game_id w read is_one i n =
      let g : Game = remote_game get decode now s in
      let w₁ : World = (ensure_remote_game g w).1 in
      (
        register-Adds r s w read n,
        bind_outcome
            (λ x.
              ((e : Error) × (x.0 ≡ err e))
              ⊎ ((r' : ReconcileResult) × (x.0 ≡ ok r')
                  × IsRegistered o x.1.db
                  × (counted r' ≡ counted r + (if is_snapshot_object o.key then 1 else 0))))
            (ensure_remote_game g) _ w
            (λ _ _.
              bind_outcome
                (λ x.
                  ((e : Error) × (x.0 ≡ err e))
                  ⊎ ((r' : ReconcileResult) × (x.0 ≡ ok r')
                      × IsRegistered o x.1.db
                      × (counted r' ≡ counted r + (if is_snapshot_object o.key then 1 else 0))))
                (import_snapshot s) (λ _. pure _) w₁
                (λ _ h. inr (
                  _,
                  refl,
                  inr (game_id, s.id, synced s, i, find-import_snapshot s w₁ h),
                  rw is_one (omega arith),
                ))
                (λ x _. inl (x, refl)))
            (λ x _. inl (x, refl)),
      )
