-- ===== src/Io.antt =====
-- Go functions that return an error beside their result, and the outside world that they call: the
-- database, the file system, the remote storage and the supply of new IDs. `faults` says of each coming call whether the
-- world refuses it, whatever the reason (a full disk, a locked database, a cancelled context); a
-- refused call has no effect. A theorem for every `faults` covers every pattern of failures.
pub mod Laws
pub mod Refines
pub mod Moves
pub mod Reads
pub mod Files
use save_knot.Prelude.{
  ℕ, Bool, true, false, Option, none, some, List, [], ◌∷◌, String, ◌==◌, if◌then◌else◌,
}
use save_knot.Paths.{FilePath}
use save_knot.Database.Schema.{Database}

pub data Error : Type 0 where
  refused : Error
  no_rows constraint not_exist : Error
  game_not_found no_files unchanged file_changed not_configured sync_in_progress : Error
  message : String → Error

pub data Result {ℓ} (A : Type ℓ) : Type ℓ where
  ok : A → Result A
  err : Error → Result A

pub record FileNode : Type 0 where
  pub content : List ℕ
  pub mode : ℕ
  pub modified : ℕ

-- The regular files, by their cleaned absolute paths.
abbrev pub Disk : Type 0
Disk = String → Option FileNode

-- An object of the remote storage, by its key below the prefix of this library.
pub record RemoteObject : Type 0 where
  pub key : FilePath
  pub body : List ℕ

pub record World : Type 0 where
  pub db : Database
  pub disk : Disk
  pub objects : List RemoteObject
  pub faults : List Bool
  pub ids : List String

-- What was written before an error stays written, so the world comes back beside the error too.
abbrev pub Exec {ℓ} : Type ℓ → Type ℓ
Exec A = World → Result A × World

module _ {ℓ} {A : Type ℓ} where
  abbrev pub pure : A → Exec A
  pure a w = (ok a, w)

  abbrev pub fail : Error → Exec A
  fail e w = (err e, w)

module _ {ℓ κ} {A : Type ℓ} {B : Type κ} where
  abbrev pub continue : Result A → (A → Exec B) → Exec B
  continue (ok a) f w = f a w
  continue (err e) f w = (err e, w)

  infixl 5 ◌>>=◌
  unfoldable pub ◌>>=◌ : Exec A → (A → Exec B) → Exec B
  ◌>>=◌ m f w = let (r, w') = m w in continue r f w'

infixl 5 ◌>>◌
abbrev pub ◌>>◌ {ℓ} : {B : Type ℓ} → Exec (Unit {0}) → Exec B → Exec B
m >> n = m >>= λ _. n

-- A call that the world may refuse.
unfoldable pub external {ℓ} : {A : Type ℓ} → Exec A → Exec A
external m w = elim w.faults [
  | [] ↦ m w
  | refuse ∷ later ↦
      if refuse then (err refused, record w { faults = later }) else m (record w { faults = later })
]

abbrev pub apply_statement {ℓ} : {A : Type ℓ} → Result (A × Database) → Exec A
apply_statement (ok (a, db)) w = (ok a, record w { db = db })
apply_statement (err e) w = (err e, w)

-- One SQL statement: its effect on the tables, or the constraint that it breaks, with no effect.
unfoldable pub statement {ℓ} : {A : Type ℓ} → (Database → Result (A × Database)) → Exec A
unfolding external
statement f = external (λ w. apply_statement (f w.db) w)

-- A statement that only reads.
unfoldable pub query {ℓ} : {A : Type ℓ} → (Database → A) → Exec A
unfolding external
query f = external (λ w. (ok (f w.db), w))

abbrev pub commit_or_roll_back {ℓ} : {A : Type ℓ} → Database → Result A → Exec A
commit_or_roll_back before (ok a) w =
    let (r, w') = external (pure a) w in
    elim r [ ok b ↦ (ok b, w') | err e ↦ (err e, record w' { db = before }) ]
commit_or_roll_back before (err e) w = (err e, record w { db = before })

-- A body whose effect on the tables is undone if it or the Commit fails.
unfoldable pub committed {ℓ} : {A : Type ℓ} → Exec A → Exec A
unfolding external
committed m w = let (r, w') = m w in commit_or_roll_back w.db r w'

-- BeginTx, a body, and Commit, with the deferred Rollback of what does not commit.
unfoldable pub transaction {ℓ} : {A : Type ℓ} → Exec A → Exec A
unfolding ◌>>=◌ committed external
transaction m = external (pure tt) >> committed m

-- A loop that stops at its first error.
unfoldable pub for_each {ℓ} : {A : Type ℓ} → List A → (A → Exec (Unit {0})) → Exec (Unit {0})
unfolding ◌>>=◌
for_each [] f = pure tt
for_each (a ∷ rest) f = f a >> for_each rest f

-- core.NewID (internal/core/id.go): a fresh text, or the failure of the random source.
unfoldable pub new_id : Exec String
new_id w = elim w.ids [ [] ↦ (err refused, w) | id ∷ rest ↦ (ok id, record w { ids = rest }) ]

-- os.Open of a file that is read whole afterwards
abbrev pub file_at : Option FileNode → Exec FileNode
file_at none = fail not_exist
file_at (some node) = pure node

unfoldable pub open_file : String → Exec FileNode
unfolding external
open_file path = external (λ w. file_at (w.disk path) w)

-- A call whose effect the model does not show: a Close, a Stat of an open file, a MkdirAll.
unfoldable pub some_call : Exec (Unit {0})
unfolding external
some_call = external (pure tt)
