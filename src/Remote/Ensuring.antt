-- ===== src/Remote/Ensuring.antt =====
-- What ensuring the blobs of a snapshot leaves in the remote storage, whatever calls fail. What a body
-- must be like to be right under a key is a parameter.
use save_knot.Prelude.{
  ℕ, true, false, some, List, [], ◌∷◌, String, ◌==◌, find, ◌≡◌, refl, ◌∙◌, arith, eq_iff, All,
  Bool-cases, ◌⊎◌, inl, inr,
}
use save_knot.Paths.{FilePath, path_eq}
use save_knot.Io.{Disk, Error, Result, ok, err, World, RemoteObject, for_each}
use save_knot.Io.Laws.{bind_outcome}
use save_knot.Database.Schema.{Database, BlobRow}
use save_knot.Database.Blobs.{path_of}
use save_knot.Remote.{object_at, store_object, blob_key, ensure_blob}
use save_knot.Remote.Uploading.{
  IsSource, is_uploaded, marked_rows, is_uploaded-marked, Ended, known, sent, unsent, unmarked,
  ensure_blob-Ended, object_at-store_object, path_eq_refl, path_eq_sound,
}

-- Marking a blob keeps the paths.
path-marked :
    (target hash h : String) (rows : List BlobRow)
    → path_of (find (λ b. b.hash == h) (marked_rows hash target rows))
      ≡ path_of (find (λ b. b.hash == h) rows)
unfolding find
path-marked target hash h [] = refl
path-marked target hash h (b ∷ rows) = ground (arith, path-marked target hash h rows)

module _ (Fits : FilePath → List ℕ → Type 0) where
  -- The object at the key has a body that is right there.
  abbrev pub IsHeld : FilePath → List RemoteObject → Type 0
  IsHeld key os = (body : List ℕ) × (object_at key os ≡ some body) × Fits key body

  -- What the index holds for uploaded to the target is in the remote storage, with the right body.
  pub record IsTruthful (target : String) (db : Database) (os : List RemoteObject) : Type 0 where
    pub stored : (h : String) → is_uploaded target db h ≡ true → IsHeld (blob_key h) os

  -- The files that the index names for hashes are right under the keys of these.
  pub record HasSources (db : Database) (disk : Disk) : Type 0 where
    pub fits : (h : String) (body : List ℕ) → IsSource db disk h body → Fits (blob_key h) body

  -- Some blobs were ensured: those of the hashes, as far as no error came.
  pub record Ensured (target : String) (hs : List String) (os : List RemoteObject)
      (o : Result (Unit {0}) × World) : Type 0 where
    pub truthful : IsTruthful target o.1.db o.1.objects
    pub sources : HasSources o.1.db o.1.disk
    pub grows : (k : FilePath) → IsHeld k os → IsHeld k o.1.objects
    pub present : ((e : Error) × (o.0 ≡ err e)) ⊎ All (λ h. IsHeld (blob_key h) o.1.objects) hs
    pub others :
        (k : FilePath)
        → All (λ h. path_eq (blob_key h) k ≡ false) hs
        → object_at k o.1.objects ≡ object_at k os

  stored_present :
      (key : FilePath) (body : List ℕ) (os : List RemoteObject)
      → Fits key body
      → IsHeld key (store_object key body os)
  stored_present key body os f =
      (body, object_at-store_object key key body os ∙ rw (path_eq_refl key), f)

  pub IsHeld-store_object :
      (k key : FilePath) (body : List ℕ) (os : List RemoteObject)
      → Fits key body
      → IsHeld k os
      → IsHeld k (store_object key body os)
  IsHeld-store_object k key body os f (b, e, g) = elim (Bool-cases (path_eq key k)) [
    | inl same ↦
        (body, object_at-store_object k key body os ∙ rw same, rw (path_eq_sound key k same) at f)
    | inr other ↦ (b, object_at-store_object k key body os ∙ rw (other, e), g)
  ]

  marked-IsTruthful :
      (target hash : String) (body : List ℕ) (db : Database) (os : List RemoteObject)
      → Fits (blob_key hash) body
      → IsTruthful target db os
      → IsTruthful target
          (record db { blobs = marked_rows hash target db.blobs })
          (store_object (blob_key hash) body os)
  marked-IsTruthful target hash body db os f t = record {
    stored = λ h u. elim (is_uploaded-marked target hash h db.blobs u) [
      | inl same ↦ rw (← (eq_iff hash h).0 same) (stored_present (blob_key hash) body os f)
      | inr old ↦ IsHeld-store_object (blob_key h) (blob_key hash) body os f (t.stored h old)
    ];
  }

  pub stored-IsTruthful :
      (target : String) (key : FilePath) (body : List ℕ) (db : Database) (os : List RemoteObject)
      → Fits key body
      → IsTruthful target db os
      → IsTruthful target db (store_object key body os)
  stored-IsTruthful target key body db os f t = record {
    stored = λ h u. IsHeld-store_object (blob_key h) key body os f (t.stored h u);
  }

  marked-HasSources :
      (target hash : String) (db : Database) (disk : Disk)
      → HasSources db disk
      → HasSources (record db { blobs = marked_rows hash target db.blobs }) disk
  marked-HasSources target hash db disk s = record {
    fits = λ h body (path, node, p, d, c).
        s.fits h body (path, node, rw (path-marked target hash h db.blobs) at p, d, c);
  }

  Ended-Ensured :
      (target hash : String) (db : Database) (disk : Disk) (os : List RemoteObject)
      (o : Result (Unit {0}) × World)
      → IsTruthful target db os
      → HasSources db disk
      → Ended target hash db disk os o
      → Ensured target (hash ∷ []) os o
  Ended-Ensured target hash db disk os o t s (known r d e u k) = record {
    truthful = rw (d, e) t;
    sources = rw (d, k) s;
    grows = λ key h. rw e h;
    present = inr (rw e (t.stored hash u), tt);
    others = λ key h. rw e refl;
  }
  Ended-Ensured target hash db disk os o t s (sent body source r d e k) =
      let f : Fits (blob_key hash) body = s.fits hash body source in
      record {
        truthful = rw (d, e) (marked-IsTruthful target hash body db os f t);
        sources = rw (d, k) (marked-HasSources target hash db disk s);
        grows = λ key h. rw e (IsHeld-store_object key (blob_key hash) body os f h);
        present = inr (rw e (stored_present (blob_key hash) body os f), tt);
        others = λ key h. rw e (object_at-store_object key (blob_key hash) body os ∙ rw (h.0));
      }
  Ended-Ensured target hash db disk os o t s (unsent x r d e k) = record {
    truthful = rw (d, e) t;
    sources = rw (d, k) s;
    grows = λ key h. rw e h;
    present = inl (x, r);
    others = λ key h. rw e refl;
  }
  Ended-Ensured target hash db disk os o t s (unmarked x body source r d e k) =
      let f : Fits (blob_key hash) body = s.fits hash body source in
      record {
        truthful = rw (d, e) (stored-IsTruthful target (blob_key hash) body db os f t);
        sources = rw (d, k) s;
        grows = λ key h. rw e (IsHeld-store_object key (blob_key hash) body os f h);
        present = inl (x, r);
        others = λ key h. rw e (object_at-store_object key (blob_key hash) body os ∙ rw (h.0));
      }

  chained :
      (target hash : String) (hs : List String) (os : List RemoteObject)
      (o p : Result (Unit {0}) × World)
      → Ensured target (hash ∷ []) os o
      → o.0 ≡ ok tt
      → Ensured target hs o.1.objects p
      → Ensured target (hash ∷ hs) os p
  chained target hash hs os o p a e b = record {
    truthful = b.truthful;
    sources = b.sources;
    grows = λ k h. b.grows k (a.grows k h);
    present = elim b.present [
      | inl bad ↦ inl bad
      | inr all ↦ elim a.present [
        | inl (x, bad) ↦ absurd (ground (arith, e, bad))
        | inr here ↦ inr (b.grows (blob_key hash) here.0, all)
      ]
    ];
    others = λ k h. b.others k h.1 ∙ a.others k (h.0, tt);
  }

  pub ensuring-Ensured :
      (target : String) (hs : List String) (w : World)
      → IsTruthful target w.db w.objects
      → HasSources w.db w.disk
      → Ensured target hs w.objects (for_each hs (ensure_blob target) w)
  unfolding for_each
  ensuring-Ensured target [] w t s = record {
    truthful = t;
    sources = s;
    grows = λ k h. h;
    present = inr tt;
    others = λ k h. refl;
  }
  ensuring-Ensured target (hash ∷ hs) w t s =
      let a : Ensured target (hash ∷ []) w.objects (ensure_blob target hash w) =
        Ended-Ensured target hash w.db w.disk w.objects (ensure_blob target hash w) t s
          (ensure_blob-Ended target hash w) in
      let v : World = (ensure_blob target hash w).1 in
      bind_outcome (Ensured target (hash ∷ hs) w.objects) (ensure_blob target hash)
        (λ _. for_each hs (ensure_blob target)) w
        (λ _ e.
          chained target hash hs w.objects (ensure_blob target hash w)
            (for_each hs (ensure_blob target) v) a e
            (ensuring-Ensured target hs v a.truthful a.sources))
        (λ x e. record {
          truthful = a.truthful;
          sources = a.sources;
          grows = a.grows;
          present = inl (x, refl);
          others = λ k h. a.others k (h.0, tt);
        })
