-- ===== src/Remote/Download/Tests.antt =====
-- A concrete content, held locally, and the download of another.
use save_knot.Prelude.{
  pos, true, false, none, some, [], ◌∷◌, ◌++◌, String, refl, any, find, All, concat,
}
use save_knot.Core.{Snapshot, SnapshotFile}
use save_knot.Io.{ok, World, ◌>>=◌, external, query, statement, open_file, some_call}
use save_knot.Database.Schema.{empty_database}
use save_knot.Database.Blobs.{blob_path, save_blob, upsert_blob}
use save_knot.Registry.{equal_fold}
use save_knot.Registry.Tests.{ascii, lower_letter}
use save_knot.Remote.{first_two}
use save_knot.Io.Files.{create_file, write_file, rename_file, is_file}
use save_knot.Remote.Download.{
  Codec, Reader, limited, verify_content, verify_compressed_blob, preserve, install_download,
  download, ensure_local_blob, needs_blob, needs_files, needs_download,
}
use save_knot.Remote.Download.Verified.{IsLocal, ensure_local_blob-IsLocal}
use save_knot.Remote.Download.Needed.{first_sizes, registry_size, needs_download-All}

abbrev a_hash : String
a_hash = "0123456789abcdef0123456789abcdef0123456789abcdef0123456789abcdef"

-- A codec that stores bytes as they are, and knows one digest
abbrev plain : Codec
plain = record { decoded = λ s. record { bytes = s; ends = true }; digest = λ s. a_hash }

abbrev one_byte : Reader
one_byte key = ok (record { declared = 1; body = record { bytes = 7 ∷ []; ends = true } })

abbrev bare_world : World
bare_world = record { db = empty_database; disk = λ p. none; objects = []; faults = []; ids = [] }

ensure_local_blob-IsLocal_example :
    IsLocal ascii plain a_hash
      (pos 1)
      (ensure_local_blob ascii plain one_byte "/b"
        (λ h. "/b/.staging/x.zst")
        (λ h. "/b/01/x.invalid")
        a_hash
        (pos 1)
        bare_world).1
unfolding ensure_local_blob blob_path download create_file write_file rename_file is_file
    verify_content limited verify_compressed_blob preserve install_download save_blob upsert_blob
    equal_fold lower_letter first_two concat find open_file some_call query statement external ◌>>=◌
ensure_local_blob-IsLocal_example =
    ensure_local_blob-IsLocal ascii plain one_byte "/b" (λ h. "/b/.staging/x.zst")
      (λ h. "/b/01/x.invalid") a_hash (pos 1) bare_world refl refl

abbrev a_file : SnapshotFile
a_file = record {
  source_key = "k";
  path = record { rooted = false; parts = "slot" ∷ [] };
  root_file = false;
  hash = a_hash;
  size = pos 1;
  mode = 420;
  modified = 0;
}

abbrev a_snapshot : Snapshot
a_snapshot = record {
  version = pos 1;
  id = "s";
  game_id = "g";
  game_name = "Name";
  device_id = "d";
  created_at = 0;
  files = a_file ∷ a_file ∷ [];
  registry = none;
  metadata = record { display_name = "Name"; notes = ""; image = "" };
  original_size = pos 1;
  stored_size = pos 1;
  remote_state = "synced";
}

abbrev full_world : World
full_world = record bare_world {
  db = record empty_database {
    blobs =
        record {
          hash = a_hash;
          local_path = "/b/a";
          original_size = pos 1;
          stored_size = pos 1;
          uploaded_to = "";
        }
        ∷ [];
  };
  disk = λ p. some (record { content = 7 ∷ []; mode = 420; modified = 0 });
}

needs_download-All_example :
    All
      (λ b. IsLocal ascii plain b.0 b.1 full_world)
      (first_sizes [] a_snapshot.files ++ registry_size a_snapshot.registry)
unfolding needs_download needs_files needs_blob blob_path verify_content limited
    verify_compressed_blob equal_fold lower_letter find any open_file some_call query external ◌>>=◌
needs_download-All_example = needs_download-All ascii plain a_snapshot full_world refl
