-- ===== src/Lib.antt =====
-- SaveKnot backs up the save files of games. A watcher turns file-system events into backup jobs;
-- the snapshot service stores the files as content-addressed blobs and restores them; the database
-- holds the games, their save paths and policies, the snapshots, and the index of blobs; the settings
-- manager holds the configuration and the secret of the remote storage; the remote package copies
-- snapshots to an object store and back; the registry backup reads and writes registry keys within the
-- configured roots; the event bus tells the other parts what happened. The coordinator of internal/app
-- calls all of them.
--
-- Prelude passes on the library names that the other modules share, with Boolean tests, signed
-- integers with the wrap-around of an int64, list searches and association lists for Go's maps.
-- Paths is path/filepath on paths that are split at the separators. Core has the types of
-- internal/core/types.go.
--
-- Watcher: internal/watcher/watcher.go. `Manager` is what the loop `run` keeps, with the update
-- channel and the channel of jobs (of capacity 32, as in New). `handle_event`, `flush_pending`,
-- `receive_update`, `reconcile` and `take_job` are the branches of its select and of the worker, and
-- `step` takes one of them at a time, so a list of actions is an interleaving. A time is the number
-- of nanoseconds since the zero time. The directory watches themselves are not part of the state.
--
-- Io: a Go function with an error is a function of a `World`: the tables, the files, the objects of the
-- remote storage, the texts that core.NewID returns, and `faults`, the list of which coming calls are
-- refused, with no refusal after its end. A theorem about every world covers every pattern of failing
-- calls. `transaction` undoes the tables if its body or the commit fails. Io/Files has the calls on
-- files; Io/Moves and Io/Reads say what an operation may change.
-- Io/Refines relates an operation to a function on the tables.
--
-- Database: internal/database/store.go. Schema has the tables of `initialize`; Snapshots the
-- snapshots and their references, Blobs the index of blobs and DeleteSnapshot, Games the games and
-- policies, Locations the save paths, registry keys and exclusions, Backfill the migration of
-- references and the pending snapshots. Views has the abstract view of the snapshots, a function
-- from an ID. A column with a JSON text is the value that it encodes. SQLite
-- is modelled by what each statement says: rows in the order of insertion, the primary keys, the unique
-- indexes, the foreign keys, and the cascade. The queries that sort texts, the relocation of blobs and
-- the opening of the database are not modelled.
--
-- Config: internal/config/config.go. Settings: internal/settings/manager.go, one action for each
-- method, in a state with the running configuration, the settings file, the vault and `faults`. A
-- Save is its three calls; only the last one, the rename, changes the settings file. The calls of
-- the network change nothing here. Clean and IsAbs are those of a system with `/`.
--
-- Registry: internal/registrybackup/registry.go, the validation of documents and of their roots. A path
-- is the list of its code points, and lower-casing and folding of code points are a parameter, `Unicode`,
-- with the facts of it that a theorem needs as its hypotheses. The calls of the Windows registry
-- (internal/registrybackup/registry_windows.go) are not modelled.
--
-- Remote: internal/remote/sync.go and internal/remote/reconcile.go, with Upload in Remote, EnsureLocal and
-- NeedsDownload in Remote/Download, and Reconcile in Remote/Reconcile. Remote/Uploading is one blob,
-- Remote/Ensuring all of a snapshot, and Remote/Publishing the manifest behind them, with `Fits`, a
-- notion of which body is right under which key. Parameters: `Codec`, what zstd and
-- SHA-256 make of bytes; the encoding and the decoding of a manifest; what the storage answers to a get and
-- to a listing; and the names that CreateTemp finds for a staged and for a preserved file. A put is a call
-- that may fail, and then it has changed nothing. The requests of internal/remote/r2.go are not modelled.
--
-- Snapshot: internal/snapshot/service.go, restoreDestination and the comparison of files in
-- sameContents. Snapshot/Scope is ValidateRestoreScope. Snapshot/Activation has activateRestoredFiles and
-- rollbackRestoredFiles, and Snapshot/Restore the staging of one file and activateAndRestore; the calls of
-- the Windows registry in it may fail, and change no file. Create, storeStableFile and the loop of
-- Restore over the files are not modelled.
--
-- Coordinator: internal/app/coordinator.go, the queue of automatic syncs, a step relation in which the
-- critical section of queueAutomaticSync and its send are two steps, any number of calls of it may
-- be under way, and the worker takes the games in any order; and applyLocalRetention.
-- Coordinator/Excess says which snapshots a retention is about, and Coordinator/Pruning is
-- applyRetention. The rest of the coordinator is not modelled.
--
-- Events: internal/events/bus.go with internal/database/activity.go. A channel is the list of the
-- events in it, and sending to a full channel drops the event.
--
-- No recursion here needs fuel: all of it is on a list, a path or a text. The catalog, discovery, the
-- relocation of blobs, the HTTP API and the platform code are not modelled.
pub mod Prelude
pub mod Paths
pub mod Core
pub mod Watcher
pub mod Database
pub mod Io
pub mod Config
pub mod Settings
pub mod Registry
pub mod Remote
pub mod Snapshot
pub mod Events
pub mod Coordinator
