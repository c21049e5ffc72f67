-- ===== src/Core.antt =====
-- internal/core/types.go: the types that the components exchange. A `time.Time` is the number of
-- nanoseconds since the zero time, a Go `int` or `int64` that may be negative is a `ℤ`, and a
-- nil pointer is `none`.
use save_knot.Prelude.{ℕ, ℤ, pos, Bool, Option, List, String}
use save_knot.Paths.{FilePath}

pub record BackupPolicy : Type 0 where
  pub quiet_seconds : ℤ
  pub min_gap_seconds : ℤ
  pub max_dirty_seconds : ℤ

abbrev pub default_backup_policy : BackupPolicy
default_backup_policy = record {
  quiet_seconds = pos 10;
  min_gap_seconds = pos 300;
  max_dirty_seconds = pos 900;
}

-- Without the counters that `ListGames` fills in from other tables.
pub record Game : Type 0 where
  pub id : String
  pub catalog_id : String
  pub catalog_name : String
  pub display_name : String
  pub store : String
  pub store_id : String
  pub install_path : String
  pub image : String
  pub notes : String
  pub enabled : Bool
  pub sync_enabled : Bool
  pub hidden : Bool
  pub last_seen : Option ℕ
  pub last_change : Option ℕ
  pub last_backup : Option ℕ

pub record GamePath : Type 0 where
  pub id : String
  pub game_id : String
  pub source : String
  pub template : String
  pub resolved : FilePath
  pub enabled : Bool

pub record RegistryPath : Type 0 where
  pub id : String
  pub game_id : String
  pub source : String
  pub path : String
  pub enabled : Bool

pub record GameExclusion : Type 0 where
  pub id : String
  pub game_id : String
  pub pattern : String

pub record PortableGameMetadata : Type 0 where
  pub display_name : String
  pub notes : String
  pub image : String

pub record SnapshotRegistry : Type 0 where
  pub keys : List String
  pub hash : String
  pub size : ℤ

pub record SnapshotFile : Type 0 where
  pub source_key : String
  pub path : FilePath
  pub root_file : Bool
  pub hash : String
  pub size : ℤ
  pub mode : ℕ
  pub modified : ℕ

pub record Snapshot : Type 0 where
  pub version : ℤ
  pub id : String
  pub game_id : String
  pub game_name : String
  pub device_id : String
  pub created_at : ℕ
  pub files : List SnapshotFile
  pub registry : Option SnapshotRegistry
  pub metadata : PortableGameMetadata
  pub original_size : ℤ
  pub stored_size : ℤ
  pub remote_state : String

pub record GameUpdate : Type 0 where
  pub display_name : Option String
  pub image : Option String
  pub notes : Option String
  pub enabled : Option Bool
  pub sync_enabled : Option Bool
