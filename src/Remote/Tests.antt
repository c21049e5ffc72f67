-- ===== src/Remote/Tests.antt =====
-- A concrete upload.
use save_knot.Prelude.{
  List, ℕ, ◌≡◌, ◌⊎◌, inl, inr, false, pos, none, some, [], ◌∷◌, String, refl, arith, find, runes,
  concat,
}
use save_knot.Core.{Snapshot}
use save_knot.Paths.{FilePath, path_eq, clean, clean_onto, clean_part}
use save_knot.Io.{World}
use save_knot.Database.Schema.{empty_database, BlobRow}
use save_knot.Remote.{object_key, first_two, blob_key, metadata_key, upload}
use save_knot.Remote.Ensuring.{IsTruthful, HasSources}
use save_knot.Remote.Publishing.{IsPublished, upload-IsPublished}

abbrev a_hash : String
a_hash = "0123456789abcdef0123456789abcdef0123456789abcdef0123456789abcdef"

abbrev a_snapshot : Snapshot
a_snapshot = record {
  version = pos 1;
  id = "s";
  game_id = "g";
  game_name = "Name";
  device_id = "d";
  created_at = 0;
  files =
      record {
        source_key = "k";
        path = record { rooted = false; parts = "slot" ∷ [] };
        root_file = false;
        hash = a_hash;
        size = pos 1;
        mode = 420;
        modified = 0;
      }
      ∷ [];
  registry = none;
  metadata = record { display_name = "Name"; notes = ""; image = "" };
  original_size = pos 1;
  stored_size = pos 1;
  remote_state = "local";
}

abbrev a_row : BlobRow
a_row = record {
  hash = a_hash;
  local_path = "/blobs/a";
  original_size = pos 1;
  stored_size = pos 1;
  uploaded_to = "";
}

abbrev a_world : World
a_world = record {
  db = record empty_database { blobs = a_row ∷ [] };
  disk = λ p. some (record { content = 7 ∷ []; mode = 420; modified = 0 });
  objects = [];
  faults = [];
  ids = [];
}

-- Under the key of the blob stands the content of its file.
abbrev Fits : FilePath → List ℕ → Type 0
Fits key body = (path_eq (blob_key a_hash) key ≡ false) ⊎ (body ≡ 7 ∷ [])

a_world-HasSources : HasSources Fits a_world.db a_world.disk
unfolding find
a_world-HasSources = record { fits = λ h body (path, node, p, d, c). inr (ground (arith, d, c)) }

a_world-IsTruthful : IsTruthful Fits "account" a_world.db a_world.objects
unfolding find
a_world-IsTruthful = record { stored = λ h u. absurd (ground arith) }

upload-IsPublished_example :
    IsPublished Fits
      (λ m. [])
      (λ s. runes s.id)
      "account"
      a_snapshot
      a_world.objects
      (upload (λ m. []) (λ s. runes s.id) "account" a_snapshot a_world)
unfolding blob_key metadata_key object_key first_two concat clean clean_onto clean_part
upload-IsPublished_example =
    upload-IsPublished Fits (λ m. []) (λ s. runes s.id) "account" a_snapshot a_world
      a_world-HasSources (inl refl) (inl refl) a_world-IsTruthful (refl, tt)
