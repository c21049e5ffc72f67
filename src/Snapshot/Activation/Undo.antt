-- ===== src/Snapshot/Activation/Undo.antt =====
-- What a rollback does to the files, as a function of them.
use save_knot.Prelude.{
  Bool, true, false, Option, none, some, List, [], ◌∷◌, String, ◌==◌, any, if◌then◌else◌, ◌≡◌, refl,
  ap, ◌∙◌, arith, eq_iff, All, Bool-cases, Option-cases, ◌⊎◌, inl, inr,
}
use save_knot.Io.{ok, World, FileNode, Disk, Exec, pure}
use save_knot.Io.Laws.{Result-cases}
use save_knot.Io.Files.{with_file, without_file, remove_path, rename_file, rename_if_there, both}
use save_knot.Snapshot.Activation.{RestoreBackup, rollback_one, rollback}

abbrev pub cleared : Bool → String → Disk → Disk
cleared activated destination disk = if activated then without_file disk destination else disk

abbrev pub moved_back : String → String → Option FileNode → Disk → Disk
moved_back backup destination none disk = disk
moved_back backup destination (some node) disk =
    with_file (without_file disk backup) destination node

abbrev pub put_back : String → String → Disk → Disk
put_back backup destination disk =
    if backup == "" then disk else moved_back backup destination (disk backup) disk

-- The staged file is removed, and the backup takes its place again.
unfoldable pub undo_one : RestoreBackup → Disk → Disk
undo_one b disk = put_back b.backup b.destination (cleared b.activated b.destination disk)

unfoldable pub undo : List RestoreBackup → Disk → Disk
undo [] disk = disk
undo (b ∷ rest) disk = undo rest (undo_one b disk)

pub both-ok :
    (m n : Exec (Unit {0})) (w : World)
    → (both m n w).0 ≡ ok tt
    → ((m w).0 ≡ ok tt) × ((n (m w).1).0 ≡ ok tt) × ((both m n w).1 ≡ (n (m w).1).1)
unfolding both
both-ok m n w h = elim (Result-cases (m w).0) [
  | inl (_, e) ↦ (e, ground (arith, e, h), refl)
  | inr (x, e) ↦ absurd (ground (arith, e, h))
]

cleared_lem :
    (activated : Bool) (destination : String) (w : World)
    → ((if activated then remove_path destination else pure tt) w).0 ≡ ok tt
    → ((if activated then remove_path destination else pure tt) w).1.disk
      ≡ cleared activated destination w.disk
unfolding remove_path
cleared_lem true destination w h = ground (arith, h)
cleared_lem false destination w h = refl

rename_if_there_lem :
    (old new : String) (w : World)
    → (rename_if_there old new w).0 ≡ ok tt
    → (rename_if_there old new w).1.disk ≡ moved_back old new (w.disk old) w.disk
unfolding rename_if_there rename_file
rename_if_there_lem old new w h = elim (Option-cases (w.disk old)) [
  | inl missing ↦ ground (arith, missing, h)
  | inr (node, e) ↦ ground (arith, e, h)
]

put_back_lem :
    (backup destination : String) (w : World)
    → ((if backup == "" then pure tt else rename_if_there backup destination) w).0 ≡ ok tt
    → ((if backup == "" then pure tt else rename_if_there backup destination) w).1.disk
      ≡ put_back backup destination w.disk
put_back_lem backup destination w h = elim (Bool-cases (backup == "")) [
  | inl none_kept ↦ rw none_kept refl
  | inr kept ↦ rw kept (rename_if_there_lem backup destination w (rw kept at h))
]

rollback_one_lem :
    (b : RestoreBackup) (w : World)
    → (rollback_one b w).0 ≡ ok tt
    → (rollback_one b w).1.disk ≡ undo_one b w.disk
unfolding rollback_one undo_one
rollback_one_lem b w h =
    let m : Exec (Unit {0}) = if b.activated then remove_path b.destination else pure tt in
    let n : Exec (Unit {0}) =
      if b.backup == "" then pure tt else rename_if_there b.backup b.destination in
    let (first, second, last) = both-ok m n w h in
    ap (λ v. v.disk) last
    ∙ put_back_lem b.backup b.destination (m w).1 second
    ∙ ap (put_back b.backup b.destination) (cleared_lem b.activated b.destination w first)

-- A rollback that reports no error has undone every backup.
pub rollback_lem :
    (backups : List RestoreBackup) (w : World)
    → (rollback backups w).0 ≡ ok tt
    → (rollback backups w).1.disk ≡ undo backups w.disk
unfolding rollback undo
rollback_lem [] w h = refl
rollback_lem (b ∷ rest) w h =
    let (first, second, last) = both-ok (rollback_one b) (rollback rest) w h in
    ap (λ v. v.disk) last
    ∙ rollback_lem rest (rollback_one b w).1 second
    ∙ ap (undo rest) (rollback_one_lem b w first)

-- The path is none of the staged files.
abbrev pub IsOutside : List String → String → Type 0
IsOutside staged path = any (λ t. t == path) staged ≡ false

abbrev pub has : List String → String → Bool
has paths path = any (λ p. p == path) paths

-- What is known of a backup: its names are not those of staged files, and are among those used.
pub record IsTracked (staged used : List String) (b : RestoreBackup) : Type 0 where
  pub destination : IsOutside staged b.destination
  pub used_destination : has used b.destination ≡ true
  pub backup : ((b.backup == "") ≡ true) ⊎ (IsOutside staged b.backup × (has used b.backup ≡ true))

-- The same files, but for the staged ones.
abbrev pub Same : List String → Disk → Disk → Type 0
Same staged d e = (p : String) → IsOutside staged p → d p ≡ e p

undo_one-Same :
    (staged used : List String) (b : RestoreBackup) (d e : Disk)
    → IsTracked staged used b
    → Same staged d e
    → Same staged (undo_one b d) (undo_one b e)
unfolding undo_one
undo_one-Same staged used b d e t s p o = elim t.backup [
  | inl none_kept ↦ ground (arith, none_kept, s p o)
  | inr (outside, _) ↦ ground (arith, s p o, s b.backup outside)
]

pub undo-Same :
    (staged used : List String) (bs : List RestoreBackup) (d e : Disk)
    → All (IsTracked staged used) bs
    → Same staged d e
    → Same staged (undo bs d) (undo bs e)
unfolding undo
undo-Same staged used [] d e t s = s
undo-Same staged used (b ∷ bs) d e t s =
    undo-Same staged used bs (undo_one b d) (undo_one b e) t.1
      (undo_one-Same staged used b d e t.0 s)

different :
    (used : List String) (q p : String) → has used q ≡ true → has used p ≡ false → (q == p) ≡ false
different used q p h k = elim (Bool-cases (q == p)) [
  | inl same ↦
      let e : has used p ≡ true = (rw ((eq_iff q p).0 same) at h) in absurd (ground (arith, e, k))
  | inr other ↦ other
]

undo_one_unused :
    (staged used : List String) (b : RestoreBackup) (d : Disk) (p : String)
    → IsTracked staged used b
    → has used p ≡ false
    → undo_one b d p ≡ d p
unfolding undo_one
undo_one_unused staged used b d p t h = elim t.backup [
  | inl none_kept ↦ ground (arith, none_kept, different used b.destination p t.used_destination h)
  | inr (_, k) ↦
      ground
        (arith, different used b.destination p t.used_destination h, different used b.backup p k h)
]

-- An unused path is left alone.
pub undo_unused :
    (staged used : List String) (bs : List RestoreBackup) (d : Disk) (p : String)
    → All (IsTracked staged used) bs
    → has used p ≡ false
    → undo bs d p ≡ d p
unfolding undo
undo_unused staged used [] d p t h = refl
undo_unused staged used (b ∷ bs) d p t h =
    undo_unused staged used bs (undo_one b d) p t.1 h ∙ undo_one_unused staged used b d p t.0 h
