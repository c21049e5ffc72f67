-- ===== src/Settings.antt =====
-- internal/settings/manager.go: the settings manager. Each of its methods is a sequence of calls of
-- the outside world and of changes of its own fields; `faults` says of each coming call whether the
-- world refuses it. One method is taken at a time; in the source the mutex is held for the save and the
-- change of the configuration, and the vault, the network and the start-up entry are called outside it.
pub mod Sound
pub mod Methods
pub mod Agreement
pub mod Disconnecting
mod Tests
use save_knot.Prelude.{
  concat, ℕ, ℤ, pos, ltb_ℤ, Bool, true, false, not, ◌&&◌, ◌||◌, Option, none, some, List, [], ◌∷◌,
  ◌++◌, map, String, ◌==◌, any, Dict, get, put, remove, if◌then◌else◌,
}
use save_knot.Paths.{FilePath, clean, path_eq}
use save_knot.Config.{
  Config, R2, Automation, Local, ManifestSource, blank, url, file, default_r2, loaded,
  validate_automation, validate_r2, object_prefix,
}
use save_knot.Io.{Error, refused, not_configured, message, Result, ok, err}

-- `saved` is the settings file, and `temporary` the file that Save writes before it renames it.
pub record State : Type 0 where
  pub config : Config
  pub has_upload_state : Bool
  pub saved : Option Config
  pub temporary : Option Config
  pub vault : Dict String
  pub invalidated : List String
  pub autostart : Bool
  pub now : ℕ
  pub faults : List Bool
  pub ids : List String

abbrev pub Action {ℓ} : Type ℓ → Type ℓ
Action A = State → Result A × State

module _ {ℓ} {A : Type ℓ} where
  abbrev pub pure : A → Action A
  pure a s = (ok a, s)

  abbrev pub fail : Error → Action A
  fail e s = (err e, s)

module _ {ℓ κ} {A : Type ℓ} {B : Type κ} where
  abbrev pub continue : Result A → (A → Action B) → Action B
  continue (ok a) f s = f a s
  continue (err e) f s = (err e, s)

  infixl 5 ◌>>=◌
  abbrev pub ◌>>=◌ : Action A → (A → Action B) → Action B
  (m >>= f) s = let (r, t) = m s in continue r f t

infixl 5 ◌>>◌
abbrev pub ◌>>◌ {ℓ} : {B : Type ℓ} → Action (Unit {0}) → Action B → Action B
m >> n = m >>= λ _. n

abbrev pub call_on : (State → State) → List Bool → Action (Unit {0})
call_on f [] s = (ok tt, f s)
call_on f (true ∷ later) s = (err refused, record s { faults = later })
call_on f (false ∷ later) s = (ok tt, f (record s { faults = later }))

-- A call of the outside world with an effect, which the world may refuse
unfoldable pub call : (State → State) → Action (Unit {0})
call f s = call_on f s.faults s

-- config.Save: MkdirAll, WriteFile of the temporary file, and Rename, which replaces the file at once
unfoldable pub save : Config → Action (Unit {0})
unfolding call
save c =
    call (λ s. s)
    >> (call (λ s. record s { temporary = some c })
        >> call (λ s. record s { saved = some c; temporary = none }))

-- A copy of the settings is changed and saved, and then takes their place.
unfoldable pub install : (Config → Config) → Action (Unit {0})
unfolding save
install f s =
    let updated = f s.config in (save updated >> λ t. (ok tt, record t { config = updated })) s

-- New, of the settings that Load gave
unfoldable pub new : Config → Action (Unit {0})
unfolding save
new c s =
    if c.device_id == ""
    then elim s.ids [
      | [] ↦ (err refused, s)
      | id ∷ rest ↦
          (save (record c { device_id = id }) >> λ t.
          (ok tt, record t { config = record c { device_id = id } }))
            (record s { ids = rest })
    ]
    else (ok tt, record s { config = c })

unfoldable pub configure_autostart : Bool → Action (Unit {0})
unfolding call install
configure_autostart enabled =
    call (λ s. record s { autostart = enabled })
    >> install (λ c. record c { launch_at_login = enabled })

unfoldable pub configure_retention : ℤ → Action (Unit {0})
unfolding install
configure_retention count =
    if ltb_ℤ count (pos 1) || ltb_ℤ (pos 10000) count
    then fail (message "snapshot retention must be between 1 and 10000")
    else install (λ c. record c { retention_keep = count })

unfoldable pub configure_automation : Automation → Action (Unit {0})
unfolding validate_automation install
configure_automation automation s = elim (validate_automation automation) [
  | err e ↦ (err e, s)
  | ok _ ↦ install (λ c. record c { automation = automation }) s
]

-- The cleaned text is ".".
abbrev pub is_dot : FilePath → Bool
is_dot p = path_eq p (record { rooted = false; parts = [] })

-- cleanRoots: blank entries and repetitions are dropped, a relative path is an error.
unfoldable pub clean_roots : List FilePath → List FilePath → Result (List FilePath)
unfolding clean
clean_roots seen [] = ok []
clean_roots seen (r ∷ rest) =
    let root = clean r in
    let skipped = clean_roots seen rest in
    let further = clean_roots (root ∷ seen) rest in
    if is_dot root
    then skipped
    else if not root.rooted
    then err (message "path must be absolute")
    else if any (path_eq root) seen
    then skipped
    else elim further [ err e ↦ err e | ok roots ↦ ok (root ∷ roots) ]

abbrev pub source_eq : ManifestSource → ManifestSource → Bool
source_eq blank blank = true
source_eq (url s) (url t) = s == t
source_eq (file p) (file q) = path_eq p q
source_eq _ _ = false

unfoldable pub clean_manifest_sources :
    List ManifestSource → List ManifestSource → Result (List ManifestSource)
unfolding clean
clean_manifest_sources seen [] = ok []
clean_manifest_sources seen (blank ∷ rest) = clean_manifest_sources seen rest
clean_manifest_sources seen (url s ∷ rest) =
    let skipped = clean_manifest_sources seen rest in
    let further = clean_manifest_sources (url s ∷ seen) rest in
    if any (source_eq (url s)) seen
    then skipped
    else elim further [ err e ↦ err e | ok sources ↦ ok (url s ∷ sources) ]
clean_manifest_sources seen (file p ∷ rest) =
    let skipped = clean_manifest_sources seen rest in
    let further = clean_manifest_sources (file (clean p) ∷ seen) rest in
    if not (clean p).rooted
    then err (message "custom manifest must be an absolute file path or an http(s) URL")
    else if any (source_eq (file (clean p))) seen
    then skipped
    else elim further [ err e ↦ err e | ok sources ↦ ok (file (clean p) ∷ sources) ]

abbrev pub then_clean {ℓ κ} : {A : Type ℓ} {B : Type κ} → Result A → (A → Action B) → Action B
then_clean (ok a) f = f a
then_clean (err e) f = fail e

unfoldable pub configure_local : Local → Action (Unit {0})
unfolding clean clean_roots clean_manifest_sources install
configure_local places =
    let dir = clean places.local_backup_dir in
    if not dir.rooted
    then fail (message "local backup location must be an absolute path")
    else then_clean (clean_roots [] places.steam_roots) λ steam.
      then_clean (clean_roots [] places.epic_manifests) λ epic.
        then_clean (clean_roots [] places.gog_roots) λ gog.
          then_clean (clean_manifest_sources [] places.custom_manifests) λ custom. install λ c.
            record c {
              local_backup_dir = dir;
              steam_roots = steam;
              epic_manifests = epic;
              gog_roots = gog;
              custom_manifests = custom;
            }

unfoldable pub set_upload_state_invalidator : Action (Unit {0})
set_upload_state_invalidator s = (ok tt, record s { has_upload_state = true })

abbrev pub credential : String
credential = "r2-default"

-- strings.Join of the account, the bucket and the prefix, which names the target of the uploads
unfoldable pub identity : R2 → String
unfolding object_prefix concat
identity r = concat r.account_id (concat "/" (concat r.bucket (concat "/" (object_prefix r))))

unfoldable pub invalidate_uploads : R2 → Action (Unit {0})
unfolding call identity
invalidate_uploads r s =
    if s.has_upload_state
    then call (λ t. record t { invalidated = t.invalidated ++ identity r ∷ [] }) s
    else (ok tt, s)

-- The settings that ConfigureR2 stores, of those that it verified
abbrev pub verified : R2 → ℕ → R2
verified r time = record r {
  credential_id = credential;
  last_verified_at = some time;
  last_failure_at = none;
  last_error = "";
}

-- NewR2 and Test are calls of the network that change nothing here.
unfoldable pub connect_r2 : R2 → String → Action (Unit {0})
unfolding validate_r2 call invalidate_uploads install
connect_r2 r secret s = elim (validate_r2 r) [
  | err e ↦ (err e, s)
  | ok _ ↦
      (call (λ t. t)
          >> (call (λ t. t)
              >> (invalidate_uploads r
                  >> (call (λ t. record t { vault = put credential secret t.vault }) >> λ t.
                      install (λ c. record c { r2 = verified r t.now }) t))))
        s
]

unfoldable pub configure_r2 : R2 → String → Action (Unit {0})
unfolding object_prefix connect_r2
configure_r2 r secret = connect_r2 (record r { prefix = object_prefix r }) secret

-- The secret, or the empty text if the vault does not give it
abbrev pub secret_or_blank : Result (Unit {0}) → Option String → String
secret_or_blank (ok _) (some secret) = secret
secret_or_blank _ _ = ""

-- The error of the Save stays the result whatever becomes of the secret.
unfoldable pub restore_secret : String → String → Action (Unit {0})
unfolding call
restore_secret id secret s =
    if secret == ""
    then (err refused, s)
    else (let (_, t) = call (λ t. record t { vault = put id secret t.vault }) s in (err refused, t))

abbrev pub or_restore : String → String → Result (Unit {0}) → Action (Unit {0})
or_restore id secret (ok _) s = (ok tt, s)
or_restore id secret (err _) s = restore_secret id secret s

abbrev pub clear_r2 : String → String → Action (Unit {0})
clear_r2 id secret s =
    let (r, t) = install (λ c. record c { r2 = default_r2 }) s in or_restore id secret r t

unfoldable pub disconnect_r2 : Action (Unit {0})
unfolding call install restore_secret
disconnect_r2 s =
    let id = s.config.r2.credential_id in
    let (got, s₁) = call (λ t. t) s in
    let secret = secret_or_blank got (get id s₁.vault) in
    if id == ""
    then (ok tt, s)
    else (call (λ t. record t { vault = remove id t.vault }) >> clear_r2 id secret) s₁

-- A failed Save is logged only.
abbrev pub logged : Result (Unit {0}) × State → Result (Unit {0}) × State
logged (r, s) = (ok tt, s)

abbrev pub synced_at : ℕ → R2 → R2
synced_at time r = record r {
  last_synced_at = some time;
  last_verified_at = some time;
  last_failure_at = none;
  last_error = "";
}

unfoldable pub record_r2_sync : Action (Unit {0})
unfolding install
record_r2_sync s =
    if s.config.r2.credential_id == ""
    then (ok tt, s)
    else logged (install (λ c. record c { r2 = synced_at s.now c.r2 }) s)

-- recordR2Health of the text of an error, if there is one
abbrev pub health : Option String → ℕ → R2 → R2
health none time r = record r {
  last_verified_at = some time;
  last_failure_at = none;
  last_error = "";
}
health (some text) time r = record r { last_failure_at = some time; last_error = text }

unfoldable pub record_r2_health : Option String → Action (Unit {0})
unfolding install
record_r2_health error s =
    if s.config.r2.credential_id == ""
    then (ok tt, s)
    else logged (install (λ c. record c { r2 = health error s.now c.r2 }) s)

-- RecordR2Failure passes on every error but ErrR2NotConfigured.
unfoldable pub record_r2_failure : Option Error → (Error → String) → Action (Unit {0})
unfolding record_r2_health
record_r2_failure none text = pure tt
record_r2_failure (some not_configured) text = pure tt
record_r2_failure (some e) text = record_r2_health (some (text e))
