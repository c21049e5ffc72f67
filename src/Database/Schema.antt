-- ===== src/Database/Schema.antt =====
-- The tables of `initialize`. A column that holds a JSON text is the value that it encodes, an
-- INTEGER that stands for a bool is a `Bool`, and a time in a column is a count of milliseconds.
use save_knot.Prelude.{ℕ, ℤ, List, [], String, ◌/◌}
use save_knot.Core.{Game, GamePath, RegistryPath, GameExclusion, BackupPolicy, Snapshot}

pub record SnapshotRow : Type 0 where
  pub id : String
  pub game_id : String
  pub device_id : String
  pub created_at : ℕ
  pub file_count : ℕ
  pub original_size : ℤ
  pub stored_size : ℤ
  pub remote_state : String
  pub manifest : Snapshot

pub record PolicyRow : Type 0 where
  pub game_id : String
  pub policy : BackupPolicy

pub record BlobReference : Type 0 where
  pub snapshot_id : String
  pub hash : String

pub record BlobRow : Type 0 where
  pub hash : String
  pub local_path : String
  pub original_size : ℤ
  pub stored_size : ℤ
  pub uploaded_to : String

pub record Database : Type 0 where
  pub games : List Game
  pub game_paths : List GamePath
  pub snapshots : List SnapshotRow
  pub game_registry : List RegistryPath
  pub game_exclusions : List GameExclusion
  pub game_policies : List PolicyRow
  pub snapshot_blobs : List BlobReference
  pub blobs : List BlobRow

abbrev pub empty_database : Database
empty_database = record {
  games = [];
  game_paths = [];
  snapshots = [];
  game_registry = [];
  game_exclusions = [];
  game_policies = [];
  snapshot_blobs = [];
  blobs = [];
}

-- t.UnixMilli(), from the zero time
unfoldable pub unix_milli : ℕ → ℕ
unix_milli t = t / 1000000
