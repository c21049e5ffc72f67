-- ===== src/Coordinator/Pruning.antt =====
-- applyRetention and retentionRemote in internal/app/coordinator.go: after a sync, the snapshots beyond
-- the configured number are deleted, the synced ones in the remote storage first. The upload state and
-- the events, which change no table and no object, are left out.
pub mod Withdrawn
pub mod Retired
use save_knot.Prelude.{
  ℤ, Bool, true, false, not, ◌&&◌, Option, none, List, [], ◌∷◌, String, ◌==◌, ◌≡◌, refl, sym, ap,
  ◌∙◌, any, keep, All, Some, arith, eq_refl, eq_iff, ◌⊎◌, inl, inr, Bool-cases, if◌then◌else◌,
}
use save_knot.Paths.{FilePath, path_eq}
use save_knot.Core.{Snapshot}
use save_knot.Io.{
  Error, Result, ok, err, World, RemoteObject, Exec, pure, ◌>>=◌, ◌>>◌, external, some_call,
  for_each,
}
use save_knot.Io.Laws.{bind_outcome, Result-cases}
use save_knot.Io.Reads.{Reads, Reads-bind, Reads-if, Reads-pure, Reads-some_call}
use save_knot.Database.Schema.{Database}
use save_knot.Database.Snapshots.{snapshots_beyond, find_snapshot}
use save_knot.Database.Blobs.{delete_snapshot}
use save_knot.Database.Blobs.Objects.{delete_snapshot-KeepsObjects}
use save_knot.Database.Views.{View, view, Updates, delete_snapshot-IsStep}
use save_knot.Remote.{has_object, manifest_key}
use save_knot.Coordinator.{retention_limit}
use save_knot.Coordinator.Retaining.{deleted, gone, snapshots_beyond-Reads}

-- R2.Delete
unfoldable pub delete_object : FilePath → Exec (Unit {0})
unfolding external
delete_object key =
    external (λ w. (ok tt, record w { objects = keep (λ o. not (path_eq o.key key)) w.objects }))

abbrev pub is_synced : Snapshot → Bool
is_synced s = s.remote_state == "synced"

-- Manager.R2, where false stands for ErrR2NotConfigured: reading the vault and making the client may fail.
unfoldable pub load_client : Bool → Exec Bool
unfolding some_call ◌>>=◌
load_client configured = if configured then some_call >> (some_call >> pure true) else pure false

-- retentionRemote, where false stands for no client
unfoldable pub retention_remote : Bool → List Snapshot → Exec Bool
unfolding load_client
retention_remote configured [] = pure false
retention_remote configured (s ∷ rest) =
    let further = retention_remote configured rest in
    if is_synced s then load_client configured else further

abbrev pub withdraw : Snapshot → Exec (Unit {0})
withdraw s = if is_synced s then delete_object (manifest_key s) else pure tt

-- One round of the loop
unfoldable pub retire : Bool → Snapshot → Exec (Unit {0})
unfolding delete_object delete_snapshot ◌>>=◌
retire remote s =
    if is_synced s && not remote then pure tt else (withdraw s >> delete_snapshot s.id)

unfoldable pub apply_retention : Bool → ℤ → String → Exec (Unit {0})
unfolding snapshots_beyond retention_remote retire for_each ◌>>=◌
apply_retention configured limit game_id =
    snapshots_beyond game_id (retention_limit limit) >>= (λ excess.
      retention_remote configured excess >>= (λ remote. for_each excess (retire remote)))
