-- ===== src/Remote/Download.antt =====
-- internal/remote/sync.go: EnsureLocal, NeedsDownload and the verification of a stored content. The
-- decoder of zstd, the digest and the answers of the remote storage are parameters: a download may
-- carry anything. So are the name of a staged file and that of a preserved one, by hash.
pub mod Verified
pub mod Needed
mod Tests
use save_knot.Prelude.{
  ℕ, ◌+◌, ℤ, pos, negsuc, ltb, Bool, true, false, not, ◌&&◌, ◌||◌, ◌=?◌, Option, none, some, List,
  [], ◌∷◌, String, ◌==◌, any, length, take, if◌then◌else◌, Dict, put, runes, concat,
}
use save_knot.Core.{Snapshot, SnapshotFile, SnapshotRegistry}
use save_knot.Paths.{FilePath}
use save_knot.Io.{
  Error, Result, ok, err, message, no_rows, not_exist, refused, World, FileNode, Disk, Exec, pure,
  fail, ◌>>=◌, ◌>>◌, external, for_each, open_file, some_call,
}
use save_knot.Io.Files.{
  lift, attempt, is_ok, with_file, create_file, write_file, rename_file, is_file, remove_path,
}
use save_knot.Database.Blobs.{blob_path, save_blob}
use save_knot.Registry.{Unicode, equal_fold}
use save_knot.Remote.{blob_key, first_two, is_hash_length}

-- A stream: what can be read of it, and whether it ends without an error.
pub record Stream : Type 0 where
  pub bytes : List ℕ
  pub ends : Bool

-- The zstd decoder, and the hexadecimal SHA-256 digest
pub record Codec : Type 0 where
  pub decoded : List ℕ → Stream
  pub digest : List ℕ → String

-- An answer to Get: the declared length, and the body
pub record Answer : Type 0 where
  pub declared : ℕ
  pub body : Stream

abbrev pub Reader : Type 0
Reader = FilePath → Result Answer

-- io.LimitReader: it ends without an error where its limit is reached.
unfoldable pub limited : ℕ → Stream → Stream
limited n s = if ltb (length s.bytes) n then s else record { bytes = take n s.bytes; ends = true }

abbrev pub removed {ℓ} : {A : Type ℓ} → String → Result A → Exec A
removed path (ok a) w = (ok a, w)
removed path (err e) w = (err e, (remove_path path w).1)

-- An error takes the staged file with it.
abbrev pub or_remove {ℓ} : {A : Type ℓ} → String → Exec A → Exec A
or_remove path m w = let (r, w') = m w in removed path r w'

abbrev pub is_no_rows : Error → Bool
is_no_rows no_rows = true
is_no_rows _ = false

module _ (u : Unicode) (codec : Codec) where
  -- What is checked of the decoded bytes
  abbrev pub verify_decoded : String → ℕ → Stream → Result (Unit {0})
  verify_decoded hash n s =
      if s.ends
      then if length s.bytes =? n
        then if equal_fold u (runes (codec.digest s.bytes)) (runes hash)
          then ok tt
          else err (message "downloaded blob failed SHA-256 verification")
        else err (message "downloaded blob size did not match the snapshot")
      else err (message "verify downloaded blob")

  -- The content of a compressed file, read up to one byte more than the expected size
  unfoldable pub verify_content : String → ℤ → List ℕ → Result (Unit {0})
  unfolding limited
  verify_content hash (negsuc _) content =
      err (message "compressed blob has an invalid original size")
  verify_content hash (pos n) content =
      verify_decoded hash n (limited (n + 1) (codec.decoded content))

  abbrev pub is_negative : ℤ → Bool
  is_negative (pos _) = false
  is_negative (negsuc _) = true

  -- verifyCompressedBlob
  unfoldable pub verify_compressed_blob : String → String → ℤ → Exec (Unit {0})
  unfolding open_file some_call ◌>>=◌
  verify_compressed_blob path hash size =
      if is_negative size
      then fail (message "compressed blob has an invalid original size")
      else (do
        node ← open_file path
        some_call
        some_call
        lift (verify_content hash size node.content))

  abbrev pub copied : Answer → Stream
  copied answer =
      if ltb 0 answer.declared then limited (answer.declared + 1) answer.body else answer.body

  abbrev pub is_truncated : Answer → Bool
  is_truncated answer =
      ltb 0 answer.declared && not (length (copied answer).bytes =? answer.declared)

  abbrev pub check : Bool → String → Exec (Unit {0})
  check good text = if good then pure tt else fail (message text)

  -- An invalid file at the destination is kept under another name.
  unfoldable pub preserve : String → String → Exec (Unit {0})
  unfolding is_file rename_file ◌>>=◌
  preserve destination invalid =
      is_file destination >>= (λ there. if there then rename_file destination invalid else pure tt)

  -- From the copy of the body to the file at its destination
  unfoldable pub install_download : String → String → String → String → ℤ → Answer → Exec (Unit {0})
  unfolding write_file verify_compressed_blob preserve rename_file some_call ◌>>=◌
  install_download staged destination invalid hash size answer = do
    write_file staged (copied answer).bytes
    check (copied answer).ends "download remote blob"
    some_call
    check (not (is_truncated answer)) "remote blob was truncated"
    verify_compressed_blob staged hash size
    some_call
    preserve destination invalid
    rename_file staged destination

  abbrev pub missing_or_invalid : String → ℤ → Result String → Exec Bool
  missing_or_invalid hash size (ok path) =
      attempt (verify_compressed_blob path hash size) >>= λ v. pure (not (is_ok v))
  missing_or_invalid hash size (err e) = if is_no_rows e then pure true else fail e

  unfoldable pub needs_blob : String → ℤ → Exec Bool
  unfolding blob_path verify_compressed_blob ◌>>=◌
  needs_blob hash size = attempt (blob_path hash) >>= missing_or_invalid hash size

  -- The loop over the files, with the hashes seen before
  unfoldable pub needs_files : List String → List SnapshotFile → Exec Bool
  unfolding needs_blob ◌>>=◌
  needs_files seen [] = pure false
  needs_files seen (f ∷ rest) =
      let skip = needs_files seen rest in
      let go = needs_files (f.hash ∷ seen) rest in
      if any (λ h. h == f.hash) seen
      then skip
      else needs_blob f.hash f.size >>= (λ a. go >>= (λ b. pure (a || b)))

  abbrev pub needs_registry : Option SnapshotRegistry → Exec Bool
  needs_registry none = pure false
  needs_registry (some r) = needs_blob r.hash r.size

  -- NeedsDownload
  unfoldable pub needs_download : Snapshot → Exec Bool
  unfolding needs_files ◌>>=◌
  needs_download s =
      needs_files [] s.files >>= (λ a. needs_registry s.registry >>= (λ b. pure (a || b)))

  module _ (get : Reader) (blob_root : String) (staged invalid : String → String) where
    abbrev pub destination : String → String
    destination hash =
        concat blob_root (concat "/" (concat (first_two hash) (concat "/" (concat hash ".zst"))))

    unfoldable pub download : String → ℤ → Exec (Unit {0})
    unfolding external create_file install_download save_blob some_call ◌>>=◌
    download hash size =
        if is_hash_length hash
        then (do
          answer ← external (lift (get (blob_key hash)))
          some_call
          create_file (staged hash)
          or_remove (staged hash)
              (install_download (staged hash) (destination hash) (invalid hash) hash size answer)
          save_blob hash (destination hash) size (pos (length (copied answer).bytes)))
        else fail (message "invalid remote blob hash")

    abbrev pub unless_intact : String → ℤ → Result (Unit {0}) → Exec (Unit {0})
    unless_intact hash size (ok _) = pure tt
    unless_intact hash size (err _) = download hash size

    abbrev pub from_index : String → ℤ → Result String → Exec (Unit {0})
    from_index hash size (ok path) =
        attempt (verify_compressed_blob path hash size) >>= unless_intact hash size
    from_index hash size (err e) = if is_no_rows e then download hash size else fail e

    -- ensureLocalBlob
    unfoldable pub ensure_local_blob : String → ℤ → Exec (Unit {0})
    unfolding blob_path verify_compressed_blob download ◌>>=◌
    ensure_local_blob hash size = attempt (blob_path hash) >>= from_index hash size

    -- originalSizes: the last size of a hash counts.
    unfoldable pub file_sizes : Dict ℤ → List SnapshotFile → Dict ℤ
    unfolding put
    file_sizes sizes [] = sizes
    file_sizes sizes (f ∷ rest) = file_sizes (put f.hash f.size sizes) rest

    abbrev pub with_registry : Option SnapshotRegistry → Dict ℤ → Dict ℤ
    with_registry none sizes = sizes
    with_registry (some r) sizes = put r.hash r.size sizes

    -- EnsureLocal
    unfoldable pub ensure_local : Snapshot → Exec (Unit {0})
    unfolding file_sizes put ensure_local_blob for_each
    ensure_local s =
        for_each (with_registry s.registry (file_sizes [] s.files)) (λ b. ensure_local_blob b.0 b.1)
