-- ===== src/Snapshot/Restore/Staged.antt =====
-- What stageRestoreFile leaves: a file with the content, the mode and the time of the snapshot.
use save_knot.Prelude.{
  ℕ, ◌+◌, ℤ, pos, negsuc, ltb, true, some, List, String, length, runes, ◌≡◌, ap, ◌∙◌, sym, arith,
  eq_refl, inl, inr, Bool-cases,
}
use save_knot.Core.{SnapshotFile}
use save_knot.Io.{ok, World, FileNode, Exec, pure, ◌>>=◌, ◌>>◌, open_file, some_call}
use save_knot.Io.Laws.{bind_outcome, bind_result}
use save_knot.Io.Reads.{Reads-some_call}
use save_knot.Io.Files.{create_file}
use save_knot.Database.Blobs.{find_blob, path_of, blob_path}
use save_knot.Registry.{Unicode, equal_fold}
use save_knot.Remote.Download.{Stream, Codec, limited, or_remove}
use save_knot.Remote.Download.Verified.{
  IsIntact, blob_path-ok, blob_path-Reads, or_remove-ok, length-take,
}
use save_knot.Snapshot.Activation.{StagedRestoreFile}
use save_knot.Snapshot.Restore.{
  write_restored, change_mode, change_times, has_size, decode_limited, check_bytes, fill_staged,
  stage_restore_file,
}

write_restored_lem :
    (path : String) (bytes : List ℕ) (w : World)
    → (write_restored path bytes w).0 ≡ ok tt
    → (write_restored path bytes w).1.disk path
      ≡ some (record { content = bytes; mode = 0o600; modified = 0 })
unfolding write_restored
write_restored_lem path bytes w h = ground (arith, h, eq_refl path)

change_mode_lem :
    (path : String) (mode : ℕ) (node : FileNode) (w : World)
    → w.disk path ≡ some node
    → (change_mode path mode w).0 ≡ ok tt
    → (change_mode path mode w).1.disk path ≡ some (record node { mode = mode })
unfolding change_mode
change_mode_lem path mode node w e h = ground (arith, e, h, eq_refl path)

change_times_lem :
    (path : String) (time : ℕ) (node : FileNode) (w : World)
    → w.disk path ≡ some node
    → (change_times path time w).0 ≡ ok tt
    → (change_times path time w).1.disk path ≡ some (record node { modified = time })
unfolding change_times
change_times_lem path time node w e h = ground (arith, e, h, eq_refl path)

module _ (u : Unicode) (codec : Codec) where
  check_bytes-ok :
      (hash : String) (size : ℤ) (s : Stream) (w : World)
      → (check_bytes u codec hash size s w).0 ≡ ok tt
      → (s.ends ≡ true)
        × (has_size size s.bytes ≡ true)
        × (equal_fold u (runes (codec.digest s.bytes)) (runes hash) ≡ true)
        × ((check_bytes u codec hash size s w).1 ≡ w)
  unfolding ◌>>=◌
  check_bytes-ok hash size s w h = ground (arith, h)

  -- What is read with the limit is all there is, if its size is as expected.
  decode_limited-IsIntact :
      (hash : String) (size : ℤ) (content : List ℕ)
      → (decode_limited u codec size content).ends ≡ true
      → has_size size (decode_limited u codec size content).bytes ≡ true
      → equal_fold u (runes (codec.digest (decode_limited u codec size content).bytes)) (runes hash)
        ≡ true
      → IsIntact u codec hash size content
  unfolding decode_limited limited
  decode_limited-IsIntact hash (negsuc _) content e l d = absurd (cc)
  decode_limited-IsIntact hash (pos n) content e l d =
      elim (Bool-cases (ltb (length (codec.decoded content).bytes) (n + 1))) [
        | inl short ↦
            let s : Stream = codec.decoded content in
            record {
              bytes = s.bytes;
              decodes = ground (arith, e, short);
              sized = ground (arith, l, short);
              hashed = rw short at d;
            }
        | inr long ↦
            absurd (ground (arith, l, long, length-take (n + 1) (codec.decoded content).bytes long))
      ]

  -- The file at the path is the one of the snapshot.
  abbrev pub HasRestored : SnapshotFile → List ℕ → String → World → Type 0
  HasRestored file content path w =
      IsIntact u codec file.hash file.size content
      × (w.disk path
          ≡ some (record {
            content = (decode_limited u codec file.size content).bytes;
            mode = file.mode;
            modified = file.modified;
          }))

  finished :
      (path : String) (file : SnapshotFile) (content : List ℕ) (w : World)
      → w.disk path
        ≡ some (record {
          content = (decode_limited u codec file.size content).bytes;
          mode = 0o600;
          modified = 0;
        })
      → ((check_bytes u codec file.hash file.size (decode_limited u codec file.size content)
            >> (change_mode path file.mode >> change_times path file.modified))
          w).0
        ≡ ok tt
      → HasRestored file content path
          ((check_bytes u codec file.hash file.size (decode_limited u codec file.size content)
              >> (change_mode path file.mode >> change_times path file.modified))
            w).1
  finished path file content w there =
      let s : Stream = decode_limited u codec file.size content in
      bind_outcome (λ o. o.0 ≡ ok tt → HasRestored file content path o.1)
        (check_bytes u codec file.hash file.size s)
        (λ _. change_mode path file.mode >> change_times path file.modified) w
        (λ _ c.
          let (e, l, d, same) = check_bytes-ok file.hash file.size s w c in
          bind_outcome (λ o. o.0 ≡ ok tt → HasRestored file content path o.1)
            (change_mode path file.mode) (λ _. change_times path file.modified)
            (check_bytes u codec file.hash file.size s w).1
            (λ _ m t.
              let moded =
                change_mode_lem path file.mode
                  (record { content = s.bytes; mode = 0o600; modified = 0 })
                  (check_bytes u codec file.hash file.size s w).1
                  (ap (λ v. v.disk path) same ∙ there) m in
              (
                decode_limited-IsIntact file.hash file.size content e l d,
                change_times_lem path file.modified
                    (record { content = s.bytes; mode = file.mode; modified = 0 })
                    (change_mode path file.mode (check_bytes u codec file.hash file.size s w).1).1
                    moded t,
              ))
            (λ x _ h. absurd (cc)))
        (λ x _ h. absurd (cc))

  fill_staged-HasRestored :
      (path : String) (file : SnapshotFile) (content : List ℕ) (w : World)
      → (fill_staged u codec path file content w).0 ≡ ok tt
      → HasRestored file content path (fill_staged u codec path file content w).1
  unfolding fill_staged
  fill_staged-HasRestored path file content w =
      let s : Stream = decode_limited u codec file.size content in
      bind_outcome (λ o. o.0 ≡ ok tt → HasRestored file content path o.1)
        (write_restored path s.bytes) _ w
        (λ _ a.
          let w₁ : World = (write_restored path s.bytes w).1 in
          bind_outcome (λ o. o.0 ≡ ok tt → HasRestored file content path o.1) some_call _ w₁
            (λ _ _.
              finished path file content (some_call w₁).1
                (ap (λ d. d path) (Reads-some_call.disk w₁) ∙ write_restored_lem path s.bytes w a))
            (λ x _ h. absurd (cc)))
        (λ x _ h. absurd (cc))

  -- A staged file, from the blob that the index named for it.
  pub record IsStaged (file : SnapshotFile) (destination temporary : String) (before : World)
      (item : StagedRestoreFile) (after : World) : Type 0 where
    pub path : String
    pub blob : FileNode
    pub indexed : path_of (find_blob file.hash before.db) ≡ some path
    pub stored : before.disk path ≡ some blob
    pub names : item ≡ record { destination = destination; temporary = temporary }
    pub restored : HasRestored file blob.content temporary after

  module _ (temporary : String → String) (destination : String) (file : SnapshotFile)
      (item : StagedRestoreFile) where
    abbrev Restored : List ℕ → World → Type 0
    Restored content w =
        (item ≡ record { destination = destination; temporary = temporary destination })
        × HasRestored file content (temporary destination) w

    abbrev filling : List ℕ → Exec StagedRestoreFile
    filling content =
        or_remove (temporary destination) (fill_staged u codec (temporary destination) file content)
        >> pure (record { destination = destination; temporary = temporary destination })

    filling-Restored :
        (content : List ℕ) (w : World)
        → (filling content w).0 ≡ ok item
        → Restored content (filling content w).1
    filling-Restored content w =
        let m : Exec (Unit {0}) = fill_staged u codec (temporary destination) file content in
        bind_outcome (λ o. o.0 ≡ ok item → Restored content o.1)
          (or_remove (temporary destination) m)
          (λ _. pure (record { destination = destination; temporary = temporary destination })) w
          (λ _ a h.
            let (filled, same) = or_remove-ok u codec (temporary destination) m w a in
            (
              ground (arith, h),
              rw same (fill_staged-HasRestored (temporary destination) file content w filled),
            ))
          (λ x _ h. absurd (cc))

    abbrev staging : FileNode → Exec StagedRestoreFile
    staging node =
        some_call >> (some_call >> (create_file (temporary destination) >> filling node.content))

    staging-Restored :
        (node : FileNode) (w : World)
        → (staging node w).0 ≡ ok item
        → Restored node.content (staging node w).1
    staging-Restored node = bind_result item (Restored node.content) some_call _ λ _.
        bind_result item (Restored node.content) some_call _ λ _.
          bind_result item (Restored node.content) (create_file (temporary destination))
            (λ _. filling node.content) λ _. filling-Restored node.content

    open_file-ok :
        (path : String) (node : FileNode) (w : World)
        → (open_file path w).0 ≡ ok node
        → w.disk path ≡ some node
    unfolding open_file
    open_file-ok path node w h = ground (arith, h)

    -- Whatever calls fail: when stageRestoreFile succeeds, the index named a file for the hash
    -- whose content decodes, to its end, to as many bytes as the snapshot says, with the digest of
    -- the hash up to case; and the staged file, for the given destination, has these bytes, and
    -- the mode and the time of the snapshot.
    pub stage_restore_file-IsStaged :
        (w : World)
        → (stage_restore_file u codec temporary destination file w).0 ≡ ok item
        → IsStaged file destination
            (temporary destination)
            w
            item
            (stage_restore_file u codec temporary destination file w).1
    unfolding stage_restore_file
    stage_restore_file-IsStaged w =
        bind_outcome
          (λ o. o.0 ≡ ok item → IsStaged file destination (temporary destination) w item o.1)
          (blob_path file.hash) (λ path. open_file path >>= staging) w
          (λ path found.
            let w₁ : World = (blob_path file.hash w).1 in
            bind_outcome
              (λ o. o.0 ≡ ok item → IsStaged file destination (temporary destination) w item o.1)
              (open_file path) staging w₁
              (λ node there h.
                let (names, restored) = staging-Restored node (open_file path w₁).1 h in
                record {
                  path = path;
                  blob = node;
                  indexed = blob_path-ok u codec file.hash path w found;
                  stored =
                      sym (ap (λ d. d path) ((blob_path-Reads u codec file.hash).disk w))
                      ∙ open_file-ok path node w₁ there;
                  names = names;
                  restored = restored;
                })
              (λ x _ h. absurd (cc)))
          (λ x _ h. absurd (cc))
