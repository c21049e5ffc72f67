-- ===== src/Snapshot/Restore/Tests.antt =====
-- A concrete staged file, and a restore whose registry cannot be restored.
use save_knot.Prelude.{
  pos, true, false, none, some, ◌==◌, ◌||◌, if◌then◌else◌, List, [], ◌∷◌, String, refl, any, find,
  concat,
}
use save_knot.Core.{Snapshot, SnapshotFile}
use save_knot.Io.{World, FileNode, ◌>>=◌, external, query, open_file, some_call}
use save_knot.Io.Files.{create_file}
use save_knot.Database.Schema.{empty_database}
use save_knot.Database.Blobs.{blob_path}
use save_knot.Registry.{equal_fold}
use save_knot.Registry.Tests.{ascii, lower_letter}
use save_knot.Remote.Download.{Codec, limited}
use save_knot.Snapshot.Activation.{StagedRestoreFile}
use save_knot.Snapshot.Activation.Moving.{EndsUndoable}
use save_knot.Snapshot.Restore.{
  decode_limited, fill_staged, stage_restore_file, write_restored, change_mode, change_times,
  activate_and_restore,
}
use save_knot.Snapshot.Restore.Staged.{IsStaged, stage_restore_file-IsStaged}
use save_knot.Snapshot.Restore.Undone.{activate_and_restore-EndsUndoable}

-- A codec that stores bytes as they are, and knows one digest
abbrev plain : Codec
plain = record { decoded = λ s. record { bytes = s; ends = true }; digest = λ s. "ab" }

abbrev a_file : SnapshotFile
a_file = record {
  source_key = "k";
  path = record { rooted = false; parts = "slot" ∷ [] };
  root_file = false;
  hash = "AB";
  size = pos 1;
  mode = 420;
  modified = 9;
}

abbrev node : FileNode
node = record { content = 7 ∷ []; mode = 420; modified = 0 }

abbrev a_world : World
a_world = record {
  db = record empty_database {
    blobs =
        record {
          hash = "AB";
          local_path = "/b/a";
          original_size = pos 1;
          stored_size = pos 1;
          uploaded_to = "";
        }
        ∷ [];
  };
  disk = λ p. if p == "/b/a" then some node else none;
  objects = [];
  faults = [];
  ids = [];
}

abbrev temporary : String → String
temporary destination = "/s/.saveknot-restore-1"

abbrev an_item : StagedRestoreFile
an_item = record { destination = "/s/slot"; temporary = "/s/.saveknot-restore-1" }

stage_restore_file-IsStaged_example :
    IsStaged ascii plain a_file "/s/slot"
      (temporary "/s/slot")
      a_world
      an_item
      (stage_restore_file ascii plain temporary "/s/slot" a_file a_world).1
unfolding stage_restore_file blob_path create_file fill_staged write_restored change_mode
    change_times decode_limited limited equal_fold lower_letter find open_file some_call query
    external ◌>>=◌
stage_restore_file-IsStaged_example =
    stage_restore_file-IsStaged ascii plain temporary "/s/slot" a_file an_item a_world refl

abbrev a_snapshot : Snapshot
a_snapshot = record {
  version = pos 1;
  id = "s";
  game_id = "g";
  game_name = "Name";
  device_id = "d";
  created_at = 0;
  files = [];
  registry = none;
  metadata = record { display_name = "Name"; notes = ""; image = "" };
  original_size = pos 1;
  stored_size = pos 1;
  remote_state = "local";
}

-- The registry's call is the one that fails.
abbrev staged_world : World
staged_world = record a_world {
  disk = λ p. if p == "/s/slot" || p == "/s/.saveknot-restore-1" then some node else none;
  faults = false ∷ false ∷ false ∷ true ∷ [];
  ids = "1" ∷ [];
}

abbrev staged_files : List String
staged_files = "/s/.saveknot-restore-1" ∷ []

activate_and_restore-EndsUndoable_example :
    EndsUndoable staged_files staged_world.disk
      (activate_and_restore ascii plain true a_snapshot (an_item ∷ []) staged_world).0
      (activate_and_restore ascii plain true a_snapshot (an_item ∷ []) staged_world).1.disk
unfolding concat any
activate_and_restore-EndsUndoable_example =
    activate_and_restore-EndsUndoable ascii plain staged_files true a_snapshot (an_item ∷ [])
      staged_world
      (
        record {
          absent = refl;
          unused = refl;
          other = refl;
          named = refl;
          outside = refl;
          destination = refl;
          temporary = refl;
        },
        tt,
      )
