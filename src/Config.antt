-- ===== src/Config.antt =====
-- internal/config/config.go: the settings file. A path in it is the split of its text, without the
-- surrounding spaces; a source of manifests is split too, unless catalog.IsManifestURL takes it.
use save_knot.Prelude.{
  ℕ, ℤ, pos, leb, ltb_ℤ, Bool, true, false, not, ◌&&◌, ◌||◌, ◌=?◌, Option, none, some, List, [],
  String, ◌==◌, if◌then◌else◌,
}
use Prim.Native.Char.{Char, code}
use save_knot.Paths.{FilePath}
use save_knot.Io.{Result, ok, err, message}

pub data ManifestSource : Type 0 where
  blank : ManifestSource
  url : String → ManifestSource
  file : FilePath → ManifestSource

pub record Automation : Type 0 where
  pub periodic_sync_enabled : Bool
  pub sync_interval_minutes : ℤ
  pub periodic_discovery_enabled : Bool
  pub discovery_interval_minutes : ℤ

abbrev pub default_automation : Automation
default_automation = record {
  periodic_sync_enabled = true;
  sync_interval_minutes = pos 5;
  periodic_discovery_enabled = false;
  discovery_interval_minutes = pos 60;
}

pub record R2 : Type 0 where
  pub account_id : String
  pub bucket : String
  pub prefix : String
  pub access_key_id : String
  pub credential_id : String
  pub last_synced_at : Option ℕ
  pub last_verified_at : Option ℕ
  pub last_failure_at : Option ℕ
  pub last_error : String

-- R2{Prefix: "saveknot"}
abbrev pub default_r2 : R2
default_r2 = record {
  account_id = "";
  bucket = "";
  prefix = "saveknot";
  access_key_id = "";
  credential_id = "";
  last_synced_at = none;
  last_verified_at = none;
  last_failure_at = none;
  last_error = "";
}

pub record Local : Type 0 where
  pub local_backup_dir : FilePath
  pub steam_roots : List FilePath
  pub epic_manifests : List FilePath
  pub gog_roots : List FilePath
  pub custom_manifests : List ManifestSource

pub record Config : Type 0 where
  pub listen : String
  pub manifest_url : String
  pub steam_roots : List FilePath
  pub epic_manifests : List FilePath
  pub gog_roots : List FilePath
  pub custom_manifests : List ManifestSource
  pub local_backup_dir : FilePath
  pub launch_at_login : Bool
  pub retention_keep : ℤ
  pub automation : Automation
  pub device_id : String
  pub r2 : R2

abbrev pub default_manifest_url : String
default_manifest_url =
    "https://raw.githubusercontent.com/mtkennerly/ludusavi-manifest/master/data/manifest.yaml"

abbrev pub default_listen : String
default_listen = "127.0.0.1:32147"

-- What Load returns where there is no file.
abbrev pub default_config : Config
default_config = record {
  listen = default_listen;
  manifest_url = default_manifest_url;
  steam_roots = [];
  epic_manifests = [];
  gog_roots = [];
  custom_manifests = [];
  local_backup_dir = record { rooted = false; parts = [] };
  launch_at_login = false;
  retention_keep = pos 50;
  automation = default_automation;
  device_id = "";
  r2 = default_r2;
}

abbrev pub is_zero : ℤ → Bool
is_zero z = not (ltb_ℤ z (pos 0)) && not (ltb_ℤ (pos 0) z)

abbrev pub or_default : String → String → String
or_default s default = if s == "" then default else s

-- The zero values of a decoded file, replaced.
unfoldable pub with_defaults : Config → Config
with_defaults c = record c {
  listen = or_default c.listen default_listen;
  manifest_url = or_default c.manifest_url default_manifest_url;
  r2 = record c.r2 { prefix = or_default c.r2.prefix "saveknot" };
  retention_keep = if is_zero c.retention_keep then pos 50 else c.retention_keep;
  automation =
      if is_zero c.automation.sync_interval_minutes
        && is_zero c.automation.discovery_interval_minutes
      then default_automation
      else c.automation;
}

-- Load of a file that can be read, by the value that it encodes
unfoldable pub loaded : Option Config → Config
unfolding with_defaults
loaded none = default_config
loaded (some c) = with_defaults c

-- Automation.Validate
unfoldable pub validate_automation : Automation → Result (Unit {0})
validate_automation a =
    if ltb_ℤ a.sync_interval_minutes (pos 1) || ltb_ℤ (pos 10080) a.sync_interval_minutes
    then err (message "sync interval must be between 1 minute and 7 days")
    else if ltb_ℤ a.discovery_interval_minutes (pos 5)
        || ltb_ℤ (pos 43200) a.discovery_interval_minutes
    then err (message "game search interval must be between 5 minutes and 30 days")
    else ok tt

-- unicode.IsSpace
unfoldable pub is_space : Char → Bool
is_space c =
    let n = code c in
    (leb 9 n && leb n 13)
    || (n =? 32
        || (n =? 133
            || (n =? 160
                || (n =? 5760
                    || ((leb 8192 n && leb n 8202)
                        || (n =? 8232
                            || (n =? 8233 || (n =? 8239 || (n =? 8287 || n =? 12288)))))))))

abbrev pub is_slash : Char → Bool
is_slash c = code c =? 47

unfoldable pub trim_left : (Char → Bool) → String → String
trim_left cut String.[] = ""
trim_left cut (String.◌∷◌ c s) =
    let rest = trim_left cut s in if cut c then rest else String.◌∷◌ c s

unfoldable pub trim_right : (Char → Bool) → String → String
trim_right cut String.[] = ""
trim_right cut (String.◌∷◌ c s) =
    let rest = trim_right cut s in if cut c && rest == "" then "" else String.◌∷◌ c rest

-- strings.Trim and strings.TrimSpace
abbrev pub trim : (Char → Bool) → String → String
trim cut s = trim_right cut (trim_left cut s)

-- strings.ContainsAny(s, "/\\")
unfoldable pub has_separator : String → Bool
has_separator String.[] = false
has_separator (String.◌∷◌ c s) = code c =? 47 || (code c =? 92 || has_separator s)

-- R2.ObjectPrefix
unfoldable pub object_prefix : R2 → String
unfolding trim_left trim_right is_space
object_prefix r = trim is_slash (trim is_space r.prefix)

-- R2.Validate
unfoldable pub validate_r2 : R2 → Result (Unit {0})
unfolding trim_left trim_right is_space has_separator
validate_r2 r =
    if trim is_space r.account_id == ""
    then err (message "account ID is required")
    else if trim is_space r.bucket == ""
    then err (message "bucket is required")
    else if trim is_space r.access_key_id == ""
    then err (message "access key ID is required")
    else if has_separator r.bucket
    then err (message "bucket must be a bucket name, not a path")
    else ok tt
