-- ===== src/Remote/Download/Verified.antt =====
-- What EnsureLocal leaves for a content: a file that decodes to it.
use save_knot.Prelude.{
  ℕ, zero, suc, ◌+◌, ℤ, pos, negsuc, ltb, true, false, not, Option, none, some, List, [], ◌∷◌,
  String, ◌==◌, find, length, take, runes, ◌≡◌, refl, sym, ap, ◌∙◌, arith, eq_refl, Bool-cases,
  Option-cases, ◌⊎◌, inl, inr,
}
use save_knot.Io.{
  Result, ok, err, World, FileNode, Exec, ◌>>=◌, ◌>>◌, external, open_file, some_call,
}
use save_knot.Io.Laws.{Result-cases, bind_outcome, bind_after}
use save_knot.Io.Reads.{Reads, reads_rules, Reads-some_call}
use save_knot.Database.Schema.{BlobRow}
use save_knot.Database.Snapshots.{or_no_rows}
use save_knot.Database.Blobs.{find_blob, path_of, blob_path, save_blob, upsert_blob}
use save_knot.Registry.{Unicode, equal_fold}
use save_knot.Remote.{blob_key, is_hash_length}
use save_knot.Io.Files.{lift, create_file, write_file, rename_file, is_file}
use save_knot.Remote.Download.{
  Stream, Codec, Answer, Reader, limited, or_remove, is_no_rows, verify_decoded, verify_content,
  verify_compressed_blob, copied, is_truncated, check, preserve, install_download, destination,
  download, from_index, ensure_local_blob,
}

pub length-take : (n : ℕ) (xs : List ℕ) → ltb (length xs) n ≡ false → length (take n xs) ≡ n
length-take zero xs h = refl
length-take (suc n) [] h = absurd (ground arith)
length-take (suc n) (x ∷ xs) h = omega (arith, length-take n xs (ground arith))

module _ (u : Unicode) (codec : Codec) where
  -- The compressed content decodes, without an error and to its end, to bytes of the given number and
  -- the given digest up to case.
  pub record IsIntact (hash : String) (size : ℤ) (content : List ℕ) : Type 0 where
    pub bytes : List ℕ
    pub decodes : codec.decoded content ≡ record { bytes = bytes; ends = true }
    pub sized : size ≡ pos (length bytes)
    pub hashed : equal_fold u (runes (codec.digest bytes)) (runes hash) ≡ true

  verify_decoded-ok :
      (hash : String) (n : ℕ) (s : Stream)
      → verify_decoded u codec hash n s ≡ ok tt
      → (s.ends ≡ true)
        × (length s.bytes ≡ n)
        × (equal_fold u (runes (codec.digest s.bytes)) (runes hash) ≡ true)
  verify_decoded-ok hash n s h = ground (arith, h)

  pub verify_content-IsIntact :
      (hash : String) (size : ℤ) (content : List ℕ)
      → verify_content u codec hash size content ≡ ok tt
      → IsIntact hash size content
  unfolding verify_content limited
  verify_content-IsIntact hash (negsuc _) content h = absurd (cc)
  verify_content-IsIntact hash (pos n) content h =
      elim (Bool-cases (ltb (length (codec.decoded content).bytes) (n + 1))) [
        | inl short ↦
            let (e, l, d) = verify_decoded-ok hash n (codec.decoded content) (rw short at h) in
            record {
              bytes = (codec.decoded content).bytes;
              decodes = ground (arith, e);
              sized = ground (arith, l);
              hashed = d;
            }
        | inr long ↦
            let (e, l, d) =
              verify_decoded-ok hash n
                (record { bytes = take (n + 1) (codec.decoded content).bytes; ends = true })
                (rw long at h) in
            absurd (omega (arith, l, length-take (n + 1) (codec.decoded content).bytes long))
      ]

  lift-Reads : (r : Result (Unit {0})) → Reads (lift r)
  lift-Reads r = record { db = λ w. refl; disk = λ w. refl; objects = λ w. refl }

  pub verify_compressed_blob-Reads :
      (path hash : String) (size : ℤ) → Reads (verify_compressed_blob u codec path hash size)
  unfolding verify_compressed_blob
  verify_compressed_blob-Reads path hash size = search (reads_rules, lift-Reads)

  -- A verified file is there, with a content that decodes as it should.
  verify_compressed_blob-ok :
      (path hash : String) (size : ℤ) (w : World)
      → (verify_compressed_blob u codec path hash size w).0 ≡ ok tt
      → (node : FileNode) × (w.disk path ≡ some node) × IsIntact hash size node.content
  unfolding verify_compressed_blob open_file some_call ◌>>=◌
  verify_compressed_blob-ok path hash size w h = elim (Option-cases (w.disk path)) [
    | inl missing ↦ absurd (ground (arith, missing, h))
    | inr (node, e) ↦
        (node, e, verify_content-IsIntact hash size node.content (ground (arith, e, h)))
  ]

  -- The index names a file of the content.
  pub record IsLocal (hash : String) (size : ℤ) (w : World) : Type 0 where
    pub path : String
    pub node : FileNode
    pub indexed : path_of (find_blob hash w.db) ≡ some path
    pub stored : w.disk path ≡ some node
    pub intact : IsIntact hash size node.content

  HoldsAt : String → ℤ → String → World → Type 0
  HoldsAt hash size path w =
      (node : FileNode) × (w.disk path ≡ some node) × IsIntact hash size node.content

  preserve-staged :
      (staged destination invalid : String) (w : World)
      → (invalid == staged) ≡ false
      → ((preserve u codec destination invalid w).1.disk staged ≡ w.disk staged)
        ⊎ ((preserve u codec destination invalid w).1.disk staged ≡ none)
  unfolding preserve is_file rename_file ◌>>=◌
  preserve-staged staged destination invalid w ne = ground (arith, ne)

  rename_file-ok :
      (old new : String) (w : World)
      → (rename_file old new w).0 ≡ ok tt
      → (node : FileNode) × (w.disk old ≡ some node)
        × ((rename_file old new w).1.disk new ≡ some node)
  unfolding rename_file
  rename_file-ok old new w h = elim (Option-cases (w.disk old)) [
    | inl missing ↦ absurd (ground (arith, missing, h))
    | inr (node, e) ↦ (node, e, ground (arith, e, h, eq_refl new))
  ]

  abbrev moved : String → String → String → Exec (Unit {0})
  moved staged destination invalid =
      preserve u codec destination invalid >> rename_file staged destination

  moved-HoldsAt :
      (staged destination invalid hash : String) (size : ℤ) (w : World)
      → (invalid == staged) ≡ false
      → HoldsAt hash size staged w
      → (moved staged destination invalid w).0 ≡ ok tt
      → HoldsAt hash size destination (moved staged destination invalid w).1
  unfolding HoldsAt
  moved-HoldsAt staged destination invalid hash size w ne (node, e, intact) =
      bind_outcome (λ o. o.0 ≡ ok tt → HoldsAt hash size destination o.1)
        (preserve u codec destination invalid) (λ _. rename_file staged destination) w
        (λ _ _ h.
          let (node', before, after) =
            rename_file-ok staged destination (preserve u codec destination invalid w).1 h in
          elim (preserve-staged staged destination invalid w ne) [
            | inl same ↦
                let one : some node ≡ some node' = sym e ∙ sym same ∙ before in
                let two : node ≡ node' = ground (arith, one) in (node', after, rw (← two) intact)
            | inr gone ↦ absurd (ground (arith, gone, before))
          ])
        (λ x _ h. absurd (cc))

  abbrev verified : String → String → String → String → ℤ → Exec (Unit {0})
  verified staged destination invalid hash size =
      verify_compressed_blob u codec staged hash size
      >> (some_call >> moved staged destination invalid)

  verified-HoldsAt :
      (staged destination invalid hash : String) (size : ℤ)
      → (invalid == staged) ≡ false
      → (w : World) → (verified staged destination invalid hash size w).0 ≡ ok tt
      → HoldsAt hash size destination (verified staged destination invalid hash size w).1
  verified-HoldsAt staged destination invalid hash size ne w =
      bind_outcome (λ o. o.0 ≡ ok tt → HoldsAt hash size destination o.1)
        (verify_compressed_blob u codec staged hash size)
        (λ _. some_call >> moved staged destination invalid) w
        (λ _ v.
          let w₁ : World = (verify_compressed_blob u codec staged hash size w).1 in
          let (node, e, intact) = verify_compressed_blob-ok staged hash size w v in
          let same : w₁.disk ≡ w.disk = (verify_compressed_blob-Reads staged hash size).disk w in
          bind_outcome (λ o. o.0 ≡ ok tt → HoldsAt hash size destination o.1) some_call
            (λ _. moved staged destination invalid) w₁
            (λ _ _. moved-HoldsAt staged destination invalid hash size (some_call w₁).1 ne (
              unfold HoldsAt in
              (node, ap (λ d. d staged) (Reads-some_call.disk w₁ ∙ same) ∙ e, intact)))
            (λ x _ h. absurd (cc)))
        (λ x _ h. absurd (cc))

  install_download-HoldsAt :
      (staged destination invalid hash : String) (size : ℤ) (answer : Answer)
      → (invalid == staged) ≡ false
      → (w : World)
      → (install_download u codec staged destination invalid hash size answer w).0 ≡ ok tt
      → HoldsAt hash size destination
          (install_download u codec staged destination invalid hash size answer w).1
  unfolding install_download
  install_download-HoldsAt staged destination invalid hash size answer ne =
      bind_after (HoldsAt hash size destination) (write_file staged (copied u codec answer).bytes) _
        λ _.
          bind_after (HoldsAt hash size destination)
            (check u codec (copied u codec answer).ends "download remote blob") _
            λ _. bind_after (HoldsAt hash size destination) some_call _ λ _.
              bind_after (HoldsAt hash size destination)
                (check u codec (not (is_truncated u codec answer)) "remote blob was truncated")
                (λ _. verified staged destination invalid hash size)
                λ _. verified-HoldsAt staged destination invalid hash size ne

  find-upsert_blob :
      (hash path : String) (original stored : ℤ) (rows : List BlobRow)
      → path_of (find (λ b. b.hash == hash) (upsert_blob hash path original stored rows))
        ≡ some path
  unfolding upsert_blob find
  find-upsert_blob hash path original stored [] = ground (arith, eq_refl hash)
  find-upsert_blob hash path original stored (b ∷ rows) =
      ground (arith, find-upsert_blob hash path original stored rows)

  save_blob-IsLocal :
      (hash path : String) (size stored : ℤ) (w : World)
      → HoldsAt hash size path w
      → (save_blob hash path size stored w).0 ≡ ok tt
      → IsLocal hash size (save_blob hash path size stored w).1
  unfolding save_blob HoldsAt
  save_blob-IsLocal hash path size stored w (node, e, intact) h = record {
    path = path;
    node = node;
    indexed = ground (arith, h, find-upsert_blob hash path size stored w.db.blobs);
    stored = ground (arith, h, e);
    intact = intact;
  }

  pub or_remove-ok :
      (path : String) (m : Exec (Unit {0})) (w : World)
      → (or_remove path m w).0 ≡ ok tt
      → ((m w).0 ≡ ok tt) × ((or_remove path m w).1 ≡ (m w).1)
  or_remove-ok path m w h = elim (Result-cases (m w).0) [
    | inl (_, e) ↦ (e, rw e refl)
    | inr (x, e) ↦ absurd (ground (arith, e, h))
  ]

  pub blob_path-ok :
      (hash path : String) (w : World)
      → (blob_path hash w).0 ≡ ok path
      → path_of (find_blob hash w.db) ≡ some path
  unfolding blob_path ◌>>=◌
  blob_path-ok hash path w h = ground (arith, h)

  or_no_rows-Reads : (o : Option String) → Reads (or_no_rows o)
  or_no_rows-Reads none = search reads_rules
  or_no_rows-Reads (some a) = search reads_rules

  pub blob_path-Reads : (hash : String) → Reads (blob_path hash)
  unfolding blob_path
  blob_path-Reads hash = search (reads_rules, or_no_rows-Reads)

  pub verified-IsLocal :
      (path hash : String) (size : ℤ) (v : World)
      → path_of (find_blob hash v.db) ≡ some path
      → (verify_compressed_blob u codec path hash size v).0 ≡ ok tt
      → IsLocal hash size (verify_compressed_blob u codec path hash size v).1
  verified-IsLocal path hash size v found e =
      let (node, there, intact) = verify_compressed_blob-ok path hash size v e in
      record {
        path = path;
        node = node;
        indexed =
            ap (λ db. path_of (find_blob hash db))
              ((verify_compressed_blob-Reads path hash size).db v)
            ∙ found;
        stored = ap (λ d. d path) ((verify_compressed_blob-Reads path hash size).disk v) ∙ there;
        intact = intact;
      }

  module _ (get : Reader) (blob_root : String) (staged invalid : String → String) where
    abbrev stored_and_saved : String → ℤ → Answer → Exec (Unit {0})
    stored_and_saved hash size answer =
        or_remove (staged hash) (
          install_download u codec (staged hash)
            (destination u codec get blob_root staged invalid hash) (invalid hash) hash size answer)
        >> save_blob hash (destination u codec get blob_root staged invalid hash) size
            (pos (length (copied u codec answer).bytes))

    stored_and_saved-IsLocal :
        (hash : String) (size : ℤ) (answer : Answer)
        → (invalid hash == staged hash) ≡ false
        → (w : World) → (stored_and_saved hash size answer w).0 ≡ ok tt
        → IsLocal hash size (stored_and_saved hash size answer w).1
    stored_and_saved-IsLocal hash size answer ne w =
        let path : String = destination u codec get blob_root staged invalid hash in
        let m : Exec (Unit {0}) =
          install_download u codec (staged hash) path (invalid hash) hash size answer in
        bind_outcome (λ o. o.0 ≡ ok tt → IsLocal hash size o.1) (or_remove (staged hash) m)
          (λ _. save_blob hash path size (pos (length (copied u codec answer).bytes))) w
          (λ _ a h.
            let (done, same) = or_remove-ok (staged hash) m w a in
            save_blob-IsLocal hash path size (pos (length (copied u codec answer).bytes))
              (or_remove (staged hash) m w).1
              (rw same (
                install_download-HoldsAt (staged hash) path (invalid hash) hash size answer ne w
                  done))
              h)
          (λ x _ h. absurd (cc))

    download-IsLocal :
        (hash : String) (size : ℤ)
        → (invalid hash == staged hash) ≡ false
        → (w : World) → (download u codec get blob_root staged invalid hash size w).0 ≡ ok tt
        → IsLocal hash size (download u codec get blob_root staged invalid hash size w).1
    unfolding download
    download-IsLocal hash size ne w h = elim (Bool-cases (is_hash_length hash)) [
      | inl good ↦ rw good (
          bind_after (IsLocal hash size) (external (lift (get (blob_key hash)))) _
            (λ answer. bind_after (IsLocal hash size) some_call _ (λ _.
              bind_after (IsLocal hash size) (create_file (staged hash))
                (λ _. stored_and_saved hash size answer)
                (λ _. stored_and_saved-IsLocal hash size answer ne)))
            w (rw good at h))
      | inr bad ↦ absurd (ground (arith, bad, h))
    ]

    from_index-IsLocal :
        (hash : String) (size : ℤ) (r : Result String) (v : World)
        → (invalid hash == staged hash) ≡ false
        → ((path : String) → r ≡ ok path → path_of (find_blob hash v.db) ≡ some path)
        → (from_index u codec get blob_root staged invalid hash size r v).0 ≡ ok tt
        → IsLocal hash size (from_index u codec get blob_root staged invalid hash size r v).1
    unfolding ◌>>=◌
    from_index-IsLocal hash size (err e) v ne found h = elim (Bool-cases (is_no_rows e)) [
      | inl absent ↦ rw absent (download-IsLocal hash size ne v (rw absent at h))
      | inr other ↦ absurd (ground (arith, other, h))
    ]
    from_index-IsLocal hash size (ok path) v ne found h =
        elim (Result-cases (verify_compressed_blob u codec path hash size v).0) [
          | inl (_, e) ↦ rw e (verified-IsLocal path hash size v (found path refl) e)
          | inr (x, e) ↦ rw e (
              download-IsLocal hash size ne (verify_compressed_blob u codec path hash size v).1
                (rw e at h))
        ]

    -- For every remote storage, and whatever calls fail: if the name of a preserved file is not that of
    -- the staged one and ensureLocalBlob succeeds, then the index names a file for the hash, and this
    -- file decodes, to its end, to as many bytes as the snapshot says, with the digest of the hash up to case.
    pub ensure_local_blob-IsLocal :
        (hash : String) (size : ℤ) (w : World)
        → (invalid hash == staged hash) ≡ false
        → (ensure_local_blob u codec get blob_root staged invalid hash size w).0 ≡ ok tt
        → IsLocal hash size (ensure_local_blob u codec get blob_root staged invalid hash size w).1
    unfolding ensure_local_blob
    ensure_local_blob-IsLocal hash size w ne =
        from_index-IsLocal hash size (blob_path hash w).0 (blob_path hash w).1 ne (λ path e.
          ap (λ db. path_of (find_blob hash db)) ((blob_path-Reads hash).db w)
          ∙ blob_path-ok hash path w e)
