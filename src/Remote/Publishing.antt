-- ===== src/Remote/Publishing.antt =====
-- When Upload publishes a manifest, and what the remote storage holds then.
use save_knot.Prelude.{
  map, ◌++◌, concat, Option, none, ℕ, true, false, some, List, [], ◌∷◌, String, ◌==◌, any, find,
  ◌≡◌, refl, sym, ap, ◌∙◌, arith, eq_iff, eq_refl, All, All-mono, Bool-cases, Option-cases, ◌⊎◌,
  inl, inr,
}
use save_knot.Core.{Snapshot, SnapshotFile, SnapshotRegistry, PortableGameMetadata}
use save_knot.Paths.{FilePath, path_eq}
use save_knot.Io.{
  Exec, Error, Result, ok, err, World, RemoteObject, ◌>>=◌, ◌>>◌, for_each, statement, query,
}
use save_knot.Io.Laws.{Result-cases, bind_outcome}
use save_knot.Database.Schema.{Database}
use save_knot.Database.Snapshots.{
  hashes, registry_hashes, synced, mark_snapshot_remote, snapshot, set_remote, find_snapshot,
}
use save_knot.Database.Snapshots.Importing.{mark_snapshot_remote_lem}
use save_knot.Remote.{
  object_at, object_key, store_object, put_object, blob_key, metadata_key, manifest_key,
  ensure_blob, distinct, put_manifest, upload,
}
use save_knot.Remote.Uploading.{is_marked, object_at-store_object, path_eq_refl}
use save_knot.Remote.Ensuring.{
  IsHeld, IsTruthful, HasSources, Ensured, ensuring-Ensured, stored-IsTruthful, IsHeld-store_object,
}

-- The key under which a snapshot's manifest is stored
abbrev pub manifest_object : Snapshot → FilePath
manifest_object s = object_key ("games" ∷ s.game_id ∷ "snapshots" ∷ concat s.id ".json" ∷ [])

abbrev pub OfRegistry : (String → Type 0) → Option SnapshotRegistry → Type 0
OfRegistry P none = Unit {0}
OfRegistry P (some r) = P r.hash

-- Of the contents of a snapshot, those of its files and that of its registry
abbrev pub OfContents : (String → Type 0) → Snapshot → Type 0
OfContents P s = All (λ f. P f.hash) s.files × OfRegistry P s.registry

registry-OfRegistry :
    (P : String → Type 0) (r : Option SnapshotRegistry) → All P (registry_hashes r) → OfRegistry P r
registry-OfRegistry P none a = tt
registry-OfRegistry P (some r) a = a.0

files-All :
    (P : String → Type 0) (files : List SnapshotFile) (rest : List String)
    → All P (map (λ f. f.hash) files ++ rest)
    → All (λ f. P f.hash) files × All P rest
files-All P [] rest a = (tt, a)
files-All P (f ∷ files) rest a = let (b, c) = files-All P files rest a.1 in ((a.0, b), c)

hashes-OfContents : (P : String → Type 0) (s : Snapshot) → All P (hashes s) → OfContents P s
hashes-OfContents P s a =
    let (b, c) = files-All P s.files (registry_hashes s.registry) a in
    (b, registry-OfRegistry P s.registry c)

All-distinct :
    (P : String → Type 0) (seen hs : List String)
    → All P (distinct seen hs)
    → All (λ h. (any (λ s. s == h) seen ≡ true) ⊎ P h) hs
unfolding distinct any
All-distinct P seen [] a = tt
All-distinct P seen (h ∷ hs) a = elim (Bool-cases (any (λ s. s == h) seen)) [
  | inl old ↦ (inl old, All-distinct P seen hs (rw old at a))
  | inr new ↦
      let b : All P (h ∷ distinct (h ∷ seen) hs) = (rw new at a) in
      (
        inr b.0,
        All-mono (λ i. (any (λ s. s == i) (h ∷ seen) ≡ true) ⊎ P i)
            (λ i. (any (λ s. s == i) seen ≡ true) ⊎ P i) hs
            (λ i c. elim c [
              | inl d ↦ elim (Bool-cases (h == i)) [
                | inl same ↦ inr (rw (← (eq_iff h i).0 same) b.0)
                | inr other ↦ inl (ground (arith, d, other))
              ]
              | inr d ↦ inr d
            ])
            (All-distinct P (h ∷ seen) hs b.1),
      )
]

All-of_distinct : (P : String → Type 0) (hs : List String) → All P (distinct [] hs) → All P hs
All-of_distinct P hs a =
    All-mono (λ h. (any (λ s. s == h) [] ≡ true) ⊎ P h) P hs
      (λ h c. elim c [ inl d ↦ absurd (unfold any in cc) | inr p ↦ p ]) (All-distinct P [] hs a)

distinct-All : (P : String → Type 0) (seen hs : List String) → All P hs → All P (distinct seen hs)
unfolding distinct
distinct-All P seen [] a = tt
distinct-All P seen (h ∷ hs) a = elim (Bool-cases (any (λ s. s == h) seen)) [
  | inl old ↦ rw old (distinct-All P seen hs a.1)
  | inr new ↦ rw new (a.0, distinct-All P (h ∷ seen) hs a.1)
]

-- Marking a snapshot leaves the blobs and the remote storage.
mark_snapshot_remote-blobs :
    (id state : String) (w : World)
    → ((mark_snapshot_remote id state w).1.db.blobs ≡ w.db.blobs)
      × ((mark_snapshot_remote id state w).1.objects ≡ w.objects)
unfolding mark_snapshot_remote snapshot statement query set_remote ◌>>=◌
mark_snapshot_remote-blobs id state w = (ground arith, ground arith)

put_object_outcome :
    (key : FilePath) (body : List ℕ) (w : World)
    → (((put_object key body w).0 ≡ ok tt)
        × ((put_object key body w).1.db ≡ w.db)
        × ((put_object key body w).1.objects ≡ store_object key body w.objects))
      ⊎ ((e : Error) × ((put_object key body w).0 ≡ err e)
          × ((put_object key body w).1.db ≡ w.db)
          × ((put_object key body w).1.objects ≡ w.objects))
unfolding put_object
put_object_outcome key body w = elim (Result-cases (put_object key body w).0) [
  | inl (_, a) ↦ inl (ground (arith, a), ground (arith, a), ground (arith, a))
  | inr (x, a) ↦ inr (x, ground (arith, a), ground (arith, a), ground (arith, a))
]

marked_found :
    (id : String) (w : World)
    → (mark_snapshot_remote id "synced" w).0 ≡ ok tt
    → (m : Snapshot) × (find_snapshot id (mark_snapshot_remote id "synced" w).1.db
        ≡ some (synced m))
marked_found id w h =
    let (known, found, _) = mark_snapshot_remote_lem id "synced" w id h in
    elim (Option-cases (find_snapshot id w.db)) [
      | inl missing ↦ absurd (known missing)
      | inr (m, e) ↦ (m, found ∙ rw (eq_refl id, e))
    ]

module _ (Fits : FilePath → List ℕ → Type 0) (encode_metadata : PortableGameMetadata → List ℕ)
    (encode : Snapshot → List ℕ) where
  -- Every content of the snapshot is in the remote storage, with a body that is right for it.
  abbrev pub IsComplete : Snapshot → List RemoteObject → Type 0
  IsComplete s os = OfContents (λ h. IsHeld Fits (blob_key h) os) s

  abbrev AreHeld : Snapshot → List RemoteObject → Type 0
  AreHeld s os = All (λ h. IsHeld Fits (blob_key h) os) (hashes s)

  complete_lem : (s : Snapshot) (os : List RemoteObject) → AreHeld s os → IsComplete s os
  complete_lem s os a = hashes-OfContents (λ h. IsHeld Fits (blob_key h) os) s a

  same_blobs-IsTruthful :
      (target : String) (d db : Database) (os : List RemoteObject)
      → d.blobs ≡ db.blobs
      → IsTruthful Fits target db os
      → IsTruthful Fits target d os
  same_blobs-IsTruthful target d db os e t = record {
    stored =
        λ h u. t.stored h (sym (ap (λ bs. is_marked target (find (λ b. b.hash == h) bs)) e) ∙ u);
  }

  stored-AreHeld :
      (s : Snapshot) (key : FilePath) (body : List ℕ) (os : List RemoteObject)
      → Fits key body
      → AreHeld s os
      → AreHeld s (store_object key body os)
  stored-AreHeld s key body os f c =
      All-mono (λ h. IsHeld Fits (blob_key h) os)
        (λ h. IsHeld Fits (blob_key h) (store_object key body os)) (hashes s)
        (λ h e. IsHeld-store_object Fits (blob_key h) key body os f e) c

  -- The outcome of an upload from some objects.
  pub record IsPublished (target : String) (s : Snapshot) (os : List RemoteObject)
      (o : Result (Unit {0}) × World) : Type 0 where
    -- What is held for uploaded is in the remote storage.
    pub truthful : IsTruthful Fits target o.1.db o.1.objects
    -- With no error the manifest and all contents are there, and the snapshot is marked as synced.
    -- After an error the manifest is as it was, or all contents are there.
    pub published :
        ((o.0 ≡ ok tt)
          × IsComplete s o.1.objects
          × (object_at (manifest_object s) o.1.objects
              ≡ some (encode (record s { remote_state = "synced" })))
          × ((m : Snapshot) × (find_snapshot s.id o.1.db
                ≡ some (record m { remote_state = "synced" }))))
        ⊎ ((e : Error) × (o.0 ≡ err e)
            × ((object_at (manifest_object s) o.1.objects ≡ object_at (manifest_object s) os)
                ⊎ IsComplete s o.1.objects))

  marking-IsPublished :
      (target : String) (s : Snapshot) (os : List RemoteObject) (w : World)
      → IsTruthful Fits target w.db w.objects
      → AreHeld s w.objects
      → object_at (manifest_key s) w.objects ≡ some (encode (synced s))
      → IsPublished target s os (mark_snapshot_remote s.id "synced" w)
  unfolding manifest_key
  marking-IsPublished target s os w t c m =
      let (blobs, same) = mark_snapshot_remote-blobs s.id "synced" w in
      record {
        truthful = rw same (
            same_blobs-IsTruthful target (mark_snapshot_remote s.id "synced" w).1.db w.db w.objects
              blobs t);
        published = elim (Result-cases (mark_snapshot_remote s.id "synced" w).0) [
          | inl (_, a) ↦
              inl (a, rw same (complete_lem s w.objects c), rw same m, marked_found s.id w a)
          | inr (x, a) ↦ inr (x, a, inr (rw same (complete_lem s w.objects c)))
        ];
      }

  after_put :
      (target : String) (s : Snapshot) (key : FilePath) (body : List ℕ) (v : World)
      → Fits key body
      → IsTruthful Fits target v.db v.objects
      → AreHeld s v.objects
      → IsTruthful Fits target (put_object key body v).1.db (put_object key body v).1.objects
        × AreHeld s (put_object key body v).1.objects
  after_put target s key body v f t c = elim (put_object_outcome key body v) [
    | inl (_, d, e) ↦
        rw (d, e)
          (
            stored-IsTruthful Fits target key body v.db v.objects f t,
            stored-AreHeld s key body v.objects f c,
          )
    | inr (_, _, d, e) ↦ rw (d, e) (t, c)
  ]

  put_present :
      (key : FilePath) (body : List ℕ) (v : World)
      → (put_object key body v).0 ≡ ok tt
      → object_at key (put_object key body v).1.objects ≡ some body
  put_present key body v h = elim (put_object_outcome key body v) [
    | inl (_, _, e) ↦ rw e (object_at-store_object key key body v.objects ∙ rw (path_eq_refl key))
    | inr (x, bad, _, _) ↦ absurd (ground (arith, h, bad))
  ]

  failed-IsPublished :
      (target : String) (s : Snapshot) (os : List RemoteObject) (e : Error) (w : World)
      → IsTruthful Fits target w.db w.objects
      → AreHeld s w.objects
      → IsPublished target s os (err e, w)
  failed-IsPublished target s os e w t c = record {
    truthful = t;
    published = inr (e, refl, inr (complete_lem s w.objects c));
  }

  put_manifest-IsPublished :
      (target : String) (s : Snapshot) (os : List RemoteObject) (w : World)
      → Fits (metadata_key s) (encode_metadata s.metadata)
      → Fits (manifest_key s) (encode (synced s))
      → IsTruthful Fits target w.db w.objects
      → AreHeld s w.objects
      → IsPublished target s os (put_manifest encode_metadata encode s w)
  unfolding put_manifest
  put_manifest-IsPublished target s os w f g t c =
      let put₁ : Exec (Unit {0}) = put_object (metadata_key s) (encode_metadata s.metadata) in
      let put₂ : Exec (Unit {0}) = put_object (manifest_key s) (encode (synced s)) in
      let (t₁, c₁) = after_put target s (metadata_key s) (encode_metadata s.metadata) w f t c in
      let w₁ : World = (put₁ w).1 in
      let (t₂, c₂) = after_put target s (manifest_key s) (encode (synced s)) w₁ g t₁ c₁ in
      let w₂ : World = (put₂ w₁).1 in
      bind_outcome (IsPublished target s os) put₁ (λ _. put₂ >> mark_snapshot_remote s.id "synced")
        w
        (λ _ a.
          bind_outcome (IsPublished target s os) put₂ (λ _. mark_snapshot_remote s.id "synced") w₁
            (λ _ b.
              marking-IsPublished target s os w₂ t₂ c₂
                (put_present (manifest_key s) (encode (synced s)) w₁ b))
            (λ x b. failed-IsPublished target s os x w₂ t₂ c₂))
        (λ x a. failed-IsPublished target s os x w₁ t₁ c₁)

  -- For any notion of which body is right under which key (such as: it decodes to the content with the
  -- hash), and whatever calls fail: if the files that the index names for hashes are right under the
  -- keys of these, the metadata and the manifest are right under theirs, what the index holds for
  -- uploaded to the target is in the remote storage with a right body, and no blob's key is that
  -- of the manifest: then after Upload what the index holds for uploaded is in the storage with a right
  -- body again. If Upload succeeds, the storage holds the manifest, marked as synced, and under
  -- the key of each file's hash and of the registry's a right body, and the snapshot is marked as
  -- synced. If it fails, the manifest's key holds what it held before, or all these bodies are there.
  pub upload-IsPublished :
      (target : String) (s : Snapshot) (w : World)
      → HasSources Fits w.db w.disk
      → Fits (metadata_key s) (encode_metadata s.metadata)
      → Fits (manifest_object s) (encode (record s { remote_state = "synced" }))
      → IsTruthful Fits target w.db w.objects
      → All (λ h. path_eq (blob_key h) (manifest_object s) ≡ false) (hashes s)
      → IsPublished target s w.objects (upload encode_metadata encode target s w)
  unfolding upload manifest_key
  upload-IsPublished target s w sources f g t own =
      let a : Ensured Fits target (distinct [] (hashes s)) w.objects
          (for_each (distinct [] (hashes s)) (ensure_blob target) w) =
        ensuring-Ensured Fits target (distinct [] (hashes s)) w t sources in
      let v : World = (for_each (distinct [] (hashes s)) (ensure_blob target) w).1 in
      bind_outcome (IsPublished target s w.objects)
        (for_each (distinct [] (hashes s)) (ensure_blob target))
        (λ _. put_manifest encode_metadata encode s) w
        (λ _ e. elim a.present [
          | inl (x, bad) ↦ absurd (ground (arith, e, bad))
          | inr all ↦
              put_manifest-IsPublished target s w.objects v f g a.truthful
                (All-of_distinct (λ h. IsHeld Fits (blob_key h) v.objects) (hashes s) all)
        ])
        (λ x e. record {
          truthful = a.truthful;
          published = inr (
            x,
            refl,
            inl (
                a.others (manifest_object s) (
                  distinct-All (λ h. path_eq (blob_key h) (manifest_object s) ≡ false) [] (hashes s)
                    own)),
          );
        })
