-- ===== src/Remote/Download/Needed.antt =====
-- What NeedsDownload's answer means.
use save_knot.Prelude.{
  ℤ, Bool, false, ◌||◌, Option, none, some, List, [], ◌∷◌, ◌++◌, String, ◌==◌, any, if◌then◌else◌,
  ◌≡◌, refl, sym, ap, ◌∙◌, arith, All, All-mono, All-append, Bool-cases, inl, inr,
}
use save_knot.Core.{Snapshot, SnapshotFile, SnapshotRegistry}
use save_knot.Io.{Result, ok, err, World, Exec, pure, ◌>>=◌}
use save_knot.Io.Laws.{Result-cases}
use save_knot.Io.Reads.{Reads, reads_rules, Reads-if, Reads-bind, Reads-pure}
use save_knot.Database.Blobs.{find_blob, path_of, blob_path}
use save_knot.Registry.{Unicode}
use save_knot.Io.Files.{attempt}
use save_knot.Remote.Download.{
  Codec, verify_compressed_blob, missing_or_invalid, needs_blob, needs_files, needs_registry,
  needs_download,
}
use save_knot.Remote.Download.Verified.{
  IsLocal, verified-IsLocal, blob_path-ok, blob_path-Reads, verify_compressed_blob-Reads,
}

-- The sizes that are checked: of a hash that occurs again, the first.
abbrev pub first_sizes : List String → List SnapshotFile → List (String × ℤ)
first_sizes seen [] = []
first_sizes seen (f ∷ rest) =
    let skip = first_sizes seen rest in
    let go = first_sizes (f.hash ∷ seen) rest in
    if any (λ h. h == f.hash) seen then skip else (f.hash, f.size) ∷ go

abbrev pub registry_size : Option SnapshotRegistry → List (String × ℤ)
registry_size none = []
registry_size (some r) = (r.hash, r.size) ∷ []

module _ (u : Unicode) (codec : Codec) where
  attempt-Reads {ℓ} : {A : Type ℓ} (m : Exec A) → Reads m → Reads (attempt m)
  attempt-Reads m r = record { db = r.db; disk = r.disk; objects = r.objects }

  missing_or_invalid-Reads :
      (hash : String) (size : ℤ) (r : Result String)
      → Reads (missing_or_invalid u codec hash size r)
  missing_or_invalid-Reads hash size (ok path) =
      search (reads_rules, attempt-Reads, verify_compressed_blob-Reads u codec)
  missing_or_invalid-Reads hash size (err e) = search reads_rules

  needs_blob-Reads : (hash : String) (size : ℤ) → Reads (needs_blob u codec hash size)
  unfolding needs_blob
  needs_blob-Reads hash size =
      search (reads_rules, attempt-Reads, blob_path-Reads u codec, missing_or_invalid-Reads)

  moved-IsLocal :
      (hash : String) (size : ℤ) (v w : World)
      → v.db ≡ w.db
      → v.disk ≡ w.disk
      → IsLocal u codec hash size v
      → IsLocal u codec hash size w
  moved-IsLocal hash size v w d e l = record {
    path = l.path;
    node = l.node;
    indexed = ap (λ db. path_of (find_blob hash db)) (sym d) ∙ l.indexed;
    stored = ap (λ disk. disk l.path) (sym e) ∙ l.stored;
    intact = l.intact;
  }

  not_needed-IsLocal :
      (hash : String) (size : ℤ) (r : Result String) (v : World)
      → ((path : String) → r ≡ ok path → path_of (find_blob hash v.db) ≡ some path)
      → (missing_or_invalid u codec hash size r v).0 ≡ ok false
      → IsLocal u codec hash size v
  unfolding ◌>>=◌
  not_needed-IsLocal hash size (err e) v found h = absurd (ground (arith, h))
  not_needed-IsLocal hash size (ok path) v found h =
      elim (Result-cases (verify_compressed_blob u codec path hash size v).0) [
        | inl (_, e) ↦
            moved-IsLocal hash size (verify_compressed_blob u codec path hash size v).1 v
              ((verify_compressed_blob-Reads u codec path hash size).db v)
              ((verify_compressed_blob-Reads u codec path hash size).disk v)
              (verified-IsLocal u codec path hash size v (found path refl) e)
        | inr (x, e) ↦ absurd (ground (arith, e, h))
      ]

  needs_blob-IsLocal :
      (hash : String) (size : ℤ) (w : World)
      → (needs_blob u codec hash size w).0 ≡ ok false
      → IsLocal u codec hash size w
  unfolding needs_blob ◌>>=◌
  needs_blob-IsLocal hash size w h =
      moved-IsLocal hash size (blob_path hash w).1 w ((blob_path-Reads u codec hash).db w)
        ((blob_path-Reads u codec hash).disk w)
        (not_needed-IsLocal hash size (blob_path hash w).0 (blob_path hash w).1
          (λ path e.
            ap (λ db. path_of (find_blob hash db)) ((blob_path-Reads u codec hash).db w)
            ∙ blob_path-ok u codec hash path w e)
          h)

  -- Neither of two checks asks for a download.
  either_ok :
      (m n : Exec Bool) (w : World)
      → ((m >>= (λ a. n >>= (λ b. pure (a || b)))) w).0 ≡ ok false
      → ((m w).0 ≡ ok false) × ((n (m w).1).0 ≡ ok false)
  unfolding ◌>>=◌
  either_ok m n w h = elim (Result-cases (m w).0) [
    | inl (a, e) ↦ elim (Result-cases (n (m w).1).0) [
      | inl (b, f) ↦ (ground (arith, e, f, h), ground (arith, e, f, h))
      | inr (x, f) ↦ absurd (ground (arith, e, f, h))
    ]
    | inr (x, e) ↦ absurd (ground (arith, e, h))
  ]

  AreLocal : World → List (String × ℤ) → Type 0
  AreLocal w = All (λ b. IsLocal u codec b.0 b.1 w)

  moved-AreLocal :
      (v w : World) (bs : List (String × ℤ))
      → v.db ≡ w.db
      → v.disk ≡ w.disk
      → AreLocal v bs
      → AreLocal w bs
  unfolding AreLocal
  moved-AreLocal v w bs d e a =
      All-mono (λ b. IsLocal u codec b.0 b.1 v) (λ b. IsLocal u codec b.0 b.1 w) bs
        (λ b l. moved-IsLocal b.0 b.1 v w d e l) a

  needs_files-Reads :
      (seen : List String) (files : List SnapshotFile) → Reads (needs_files u codec seen files)
  unfolding needs_files
  needs_files-Reads seen [] = search reads_rules
  needs_files-Reads seen (f ∷ rest) =
      Reads-if (any (λ h. h == f.hash) seen) _ _ (needs_files-Reads seen rest) (
        Reads-bind _ _ (needs_blob-Reads f.hash f.size)
          (λ a. Reads-bind _ _ (needs_files-Reads (f.hash ∷ seen) rest) (λ b. Reads-pure (a || b))))

  needs_files-AreLocal :
      (seen : List String) (files : List SnapshotFile) (w : World)
      → (needs_files u codec seen files w).0 ≡ ok false
      → AreLocal w (first_sizes seen files)
  unfolding needs_files AreLocal
  needs_files-AreLocal seen [] w h = tt
  needs_files-AreLocal seen (f ∷ rest) w h = elim (Bool-cases (any (λ h. h == f.hash) seen)) [
    | inl old ↦ rw old (needs_files-AreLocal seen rest w (rw old at h))
    | inr new ↦
        let (here, further) =
          either_ok (needs_blob u codec f.hash f.size) (needs_files u codec (f.hash ∷ seen) rest) w
            (rw new at h) in
        let v : World = (needs_blob u codec f.hash f.size w).1 in
        rw new (
          needs_blob-IsLocal f.hash f.size w here,
          moved-AreLocal v w (first_sizes (f.hash ∷ seen) rest)
              ((needs_blob-Reads f.hash f.size).db w) ((needs_blob-Reads f.hash f.size).disk w)
              (needs_files-AreLocal (f.hash ∷ seen) rest v further),
        )
  ]

  needs_registry-AreLocal :
      (r : Option SnapshotRegistry) (w : World)
      → (needs_registry u codec r w).0 ≡ ok false
      → AreLocal w (registry_size r)
  unfolding AreLocal
  needs_registry-AreLocal none w h = tt
  needs_registry-AreLocal (some r) w h = (needs_blob-IsLocal r.hash r.size w h, tt)

  -- Whatever calls fail: if NeedsDownload answers that nothing is to be downloaded, then for each hash
  -- of the snapshot, with the size of its first file, and for its registry, the index names a
  -- file that decodes, to its end, to as many bytes as the snapshot says, with the digest of the hash
  -- up to case.
  pub needs_download-All :
      (s : Snapshot) (w : World)
      → (needs_download u codec s w).0 ≡ ok false
      → All (λ b. IsLocal u codec b.0 b.1 w) (first_sizes [] s.files ++ registry_size s.registry)
  unfolding needs_download AreLocal
  needs_download-All s w h =
      let (files, registry) =
        either_ok (needs_files u codec [] s.files) (needs_registry u codec s.registry) w h in
      let v : World = (needs_files u codec [] s.files w).1 in
      All-append (λ b. IsLocal u codec b.0 b.1 w) (first_sizes [] s.files)
        (registry_size s.registry) (needs_files-AreLocal [] s.files w files)
        (moved-AreLocal v w (registry_size s.registry) ((needs_files-Reads [] s.files).db w)
          ((needs_files-Reads [] s.files).disk w) (needs_registry-AreLocal s.registry v registry))
