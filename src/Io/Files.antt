-- ===== src/Io/Files.antt =====
-- The calls on files, and what a caller does with the error of a call.
use save_knot.Prelude.{Bool, true, false, none, some, List, [], ℕ, String, ◌==◌, if◌then◌else◌}
use save_knot.Io.{Result, ok, err, refused, not_exist, message, FileNode, Disk, Exec, external}

abbrev pub lift {ℓ} : {A : Type ℓ} → Result A → Exec A
lift r w = (r, w)

-- What went wrong is a value, and the chain goes on.
abbrev pub attempt {ℓ} : {A : Type ℓ} → Exec A → Exec (Result A)
attempt m w = (ok (m w).0, (m w).1)

abbrev pub with_file : Disk → String → FileNode → Disk
with_file disk path node p = if path == p then some node else disk p

abbrev pub is_ok {ℓ} : {A : Type ℓ} → Result A → Bool
is_ok (ok _) = true
is_ok (err _) = false

abbrev pub without_file : Disk → String → Disk
without_file disk path p = if path == p then none else disk p

-- os.CreateTemp with a name that it found free
unfoldable pub create_file : String → Exec (Unit {0})
unfolding external
create_file path = external λ w. elim (w.disk path) [
  | none ↦ (
    ok tt,
    record w { disk = with_file w.disk path (record { content = []; mode = 0o600; modified = 0 }) },
  )
  | some node ↦ (err refused, w)
]

unfoldable pub write_file : String → List ℕ → Exec (Unit {0})
unfolding external
write_file path bytes = external λ w. (
  ok tt,
  record w {
    disk = with_file w.disk path (record { content = bytes; mode = 0o600; modified = 0 });
  },
)

unfoldable pub rename_file : String → String → Exec (Unit {0})
unfolding external
rename_file old new = external λ w. elim (w.disk old) [
  | none ↦ (err not_exist, w)
  | some node ↦ (ok tt, record w { disk = with_file (without_file w.disk old) new node })
]

-- os.Stat, where a missing file is no error
unfoldable pub is_file : String → Exec Bool
unfolding external
is_file path = external λ w. elim (w.disk path) [ none ↦ (ok false, w) | some node ↦ (ok true, w) ]

-- os.Remove, where a missing file is no error
unfoldable pub remove_path : String → Exec (Unit {0})
unfolding external
remove_path path = external (λ w. (ok tt, record w { disk = without_file w.disk path }))

abbrev pub unless_missing : Result (Unit {0}) → Result (Unit {0})
unless_missing (err not_exist) = ok tt
unless_missing r = r

-- A missing file is no error.
unfoldable pub rename_if_there : String → String → Exec (Unit {0})
unfolding rename_file
rename_if_there old new w = let (r, w') = rename_file old new w in (unless_missing r, w')

-- errors.Join keeps an error if there is one.
abbrev pub join_results : Result (Unit {0}) → Result (Unit {0}) → Result (Unit {0})
join_results (ok _) r = r
join_results (err e) r = err e

-- Both calls are made, whatever the first returns.
unfoldable pub both : Exec (Unit {0}) → Exec (Unit {0}) → Exec (Unit {0})
both m n w = let (r, w') = m w in let (s, w₂) = n w' in (join_results r s, w₂)

-- An error unless the test holds
abbrev pub ensure : Bool → String → Exec (Unit {0})
ensure true text w = (ok tt, w)
ensure false text w = (err (message text), w)
