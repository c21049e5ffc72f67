-- ===== src/Settings/Methods.antt =====
-- Each method of the settings manager, under failing calls.
use save_knot.Prelude.{
  ℕ, ℤ, pos, negsuc, put, remove, get, ◌++◌, ltb_ℤ, Bool, true, false, not, ◌||◌, Option, none,
  some, [], ◌∷◌, String, ◌==◌, ◌≡◌, refl, arith, Bool-cases, inl, inr,
}
use save_knot.Config.{
  Config, R2, Automation, Local, default_r2, is_zero, validate_automation, validate_r2,
}
use save_knot.Io.{Error, Result, ok, err}
use save_knot.Io.Laws.{Result-cases}
use save_knot.Paths.{clean}
use save_knot.Settings.{
  identity, credential, State, Action, ◌>>◌, call, clear_r2, install, configure_autostart,
  configure_retention, configure_automation, configure_local, then_clean, clean_roots,
  clean_manifest_sources, connect_r2, invalidate_uploads, disconnect_r2, restore_secret,
  secret_or_blank, record_r2_sync, record_r2_health, synced_at, verified, health, logged,
}
use save_knot.Settings.Sound.{
  is_normal, Agrees, Stays, install_lem, IsSound, install-IsSound, fail-IsSound, pure-IsSound,
  Stays-trans, Stays-Agrees, call-Stays, then-IsSound,
}

pub autostart-IsSound : (b : Bool) (s : State) → IsSound (configure_autostart b) s
unfolding configure_autostart
autostart-IsSound b s =
    then-IsSound (call (λ t. record t { autostart = b }))
      (install (λ c. record c { launch_at_login = b })) s
      (call-Stays (λ t. record t { autostart = b }) s (λ t. (refl, refl)))
      (λ t. install-IsSound (λ c. record c { launch_at_login = b }) t (λ c n. n))

pub retention_normal :
    (n : ℤ) (c : Config)
    → (ltb_ℤ n (pos 1) || ltb_ℤ (pos 10000) n) ≡ false
    → is_normal c ≡ true
    → is_normal (record c { retention_keep = n }) ≡ true
retention_normal (pos n) c h k = ground (arith, h, k)
retention_normal (negsuc n) c h k = ground (arith, h)

pub retention-IsSound : (n : ℤ) (s : State) → IsSound (configure_retention n) s
unfolding configure_retention
retention-IsSound n s = elim (Bool-cases (ltb_ℤ n (pos 1) || ltb_ℤ (pos 10000) n)) [
  | inl e ↦ rw e (fail-IsSound _ s)
  | inr e ↦
      rw e
        (install-IsSound (λ c. record c { retention_keep = n }) s (λ c k. retention_normal n c e k))
]

pub positive_normal : (n : ℤ) → ltb_ℤ n (pos 1) ≡ false → is_zero n ≡ false
positive_normal (pos n) h = ground (arith, h)
positive_normal (negsuc n) h = ground (arith, h)

pub automation_normal :
    (a : Automation) (c : Config)
    → validate_automation a ≡ ok tt
    → is_normal c ≡ true
    → is_normal (record c { automation = a }) ≡ true
unfolding validate_automation
automation_normal a c h k = ground (arith, h, k, positive_normal a.sync_interval_minutes)

pub automation-IsSound : (a : Automation) (s : State) → IsSound (configure_automation a) s
unfolding configure_automation
automation-IsSound a s = elim (Result-cases (validate_automation a)) [
  | inl (u, e) ↦
      rw (e, configure_automation)
        (install-IsSound (λ c. record c { automation = a }) s (λ c k. automation_normal a c e k))
  | inr (x, e) ↦ rw (e, configure_automation) (fail-IsSound x s)
]

pub then_clean-IsSound {ℓ} :
    {A : Type ℓ} (r : Result A) (f : A → Action (Unit {0})) (s : State)
    → ((a : A) → IsSound (f a) s)
    → IsSound (then_clean r f) s
then_clean-IsSound (ok a) f s h = h a
then_clean-IsSound (err e) f s h = fail-IsSound e s

pub places-IsSound : (p : Local) (s : State) → IsSound (configure_local p) s
unfolding configure_local
places-IsSound p s = elim (Bool-cases (not (clean p.local_backup_dir).rooted)) [
  | inl e ↦ rw e (fail-IsSound _ s)
  | inr e ↦ rw e (
      then_clean-IsSound (clean_roots [] p.steam_roots) _ s λ steam.
        then_clean-IsSound (clean_roots [] p.epic_manifests) _ s λ epic.
          then_clean-IsSound (clean_roots [] p.gog_roots) _ s λ gog.
            then_clean-IsSound (clean_manifest_sources [] p.custom_manifests) _ s λ custom.
              install-IsSound
                (λ c. record c {
                  local_backup_dir = clean p.local_backup_dir;
                  steam_roots = steam;
                  epic_manifests = epic;
                  gog_roots = gog;
                  custom_manifests = custom;
                })
                s (λ c n. n))
]

pub invalidate_uploads-Stays : (r : R2) (s : State) → Stays s (invalidate_uploads r s).1
unfolding invalidate_uploads
invalidate_uploads-Stays r s = ground (
  arith,
  call-Stays (λ t. record t { invalidated = t.invalidated ++ identity r ∷ [] }) s
      (λ t. (refl, refl)),
)

pub prefix_normal :
    (r : R2) (time : ℕ) (c : Config)
    → (r.prefix == "") ≡ false
    → is_normal c ≡ true
    → is_normal (record c { r2 = verified r time }) ≡ true
prefix_normal r time c h k = ground (arith, h, k)

abbrev stored_secret : String → State → State
stored_secret secret t = record t { vault = put credential secret t.vault }

pub connect-IsSound :
    (r : R2) (secret : String) (s : State)
    → (r.prefix == "") ≡ false
    → IsSound (connect_r2 r secret) s
unfolding connect_r2
connect-IsSound r secret s p = elim (Result-cases (validate_r2 r)) [
  | inr (x, e) ↦ rw (e, connect_r2) (fail-IsSound x s)
  | inl (u, e) ↦
      rw (e, connect_r2)
        (then-IsSound (call (λ t. t)) _ s (call-Stays (λ t. t) s (λ t. (refl, refl))) λ s₁.
          then-IsSound (call (λ t. t)) _ s₁ (call-Stays (λ t. t) s₁ (λ t. (refl, refl))) λ s₂.
            then-IsSound (invalidate_uploads r) _ s₂ (invalidate_uploads-Stays r s₂) λ s₃.
              then-IsSound (call (stored_secret secret)) _ s₃
                (call-Stays (stored_secret secret) s₃ (λ t. (refl, refl)))
                λ t.
                  install-IsSound (λ c. record c { r2 = verified r t.now }) t
                    (λ c k. prefix_normal r t.now c p k))
]

pub logged-IsSound :
    (f : Config → Config) (s : State)
    → ((c : Config) → is_normal c ≡ true → is_normal (f c) ≡ true)
    → IsSound (λ t. logged (install f t)) s
logged-IsSound f s n = (λ e h. ground (arith, h), (install-IsSound f s n).1)

pub synced-IsSound : (s : State) → IsSound record_r2_sync s
unfolding record_r2_sync
synced-IsSound s = elim (Bool-cases (s.config.r2.credential_id == "")) [
  | inl e ↦ simp (e, record_r2_sync) (pure-IsSound s)
  | inr e ↦
      simp (e, record_r2_sync)
        (logged-IsSound (λ c. record c { r2 = synced_at s.now c.r2 }) s (λ c n. n))
]

pub restore_secret-Stays : (id secret : String) (s : State) → Stays s (restore_secret id secret s).1
unfolding restore_secret
restore_secret-Stays id secret s =
    ground
      (arith, call-Stays (λ t. record t { vault = put id secret t.vault }) s (λ t. (refl, refl)))

pub restored-IsSound :
    (id secret : String) (s t : State)
    → Stays s t
    → ((e : Error)
        → (restore_secret id secret t).0 ≡ err e
        → Stays s (restore_secret id secret t).1)
      × (Agrees s → Agrees (restore_secret id secret t).1)
restored-IsSound id secret s t k =
    let r : Stays s (restore_secret id secret t).1 =
      Stays-trans s t (restore_secret id secret t).1 k (restore_secret-Stays id secret t) in
    (λ e h. r, Stays-Agrees s (restore_secret id secret t).1 r)

clear_r2-IsSound : (id secret : String) (s : State) → IsSound (clear_r2 id secret) s
clear_r2-IsSound id secret s = elim (install_lem (λ c. record c { r2 = default_r2 }) s) [
  | inl (a, b, c) ↦ rw a (
    λ e h. ground (arith, h),
    (install-IsSound (λ c. record c { r2 = default_r2 }) s (λ c n. ground (arith, n))).1,
  )
  | inr (a, k) ↦
      rw a (restored-IsSound id secret s (install (λ c. record c { r2 = default_r2 }) s).1 k)
]

pub shift-IsSound :
    (m : Action (Unit {0})) (s t : State)
    → Stays s t
    → IsSound m t
    → ((e : Error) → (m t).0 ≡ err e → Stays s (m t).1) × (Agrees s → Agrees (m t).1)
shift-IsSound m s t k h =
    (λ e r. Stays-trans s t (m t).1 k (h.0 e r), λ g. h.1 (Stays-Agrees s t k g))

abbrev removed_secret : String → State → State
removed_secret id t = record t { vault = remove id t.vault }

pub disconnect-IsSound : (s : State) → IsSound disconnect_r2 s
unfolding disconnect_r2
disconnect-IsSound s =
    let id = s.config.r2.credential_id in
    let s₁ = (call (λ t. t) s).1 in
    let secret = secret_or_blank (call (λ t. t) s).0 (get id s₁.vault) in
    elim (Bool-cases (id == "")) [
      | inl e ↦ simp e (pure-IsSound s)
      | inr e ↦ simp e (
          shift-IsSound (call (removed_secret id) >> clear_r2 id secret) s s₁
            (call-Stays (λ t. t) s (λ t. (refl, refl)))
            (then-IsSound (call (removed_secret id)) (clear_r2 id secret) s₁
              (call-Stays (removed_secret id) s₁ (λ t. (refl, refl)))
              (λ t. clear_r2-IsSound id secret t)))
    ]

pub health_normal :
    (e : Option String) (time : ℕ) (c : Config)
    → is_normal c ≡ true
    → is_normal (record c { r2 = health e time c.r2 }) ≡ true
health_normal none time c n = n
health_normal (some text) time c n = n

pub health-IsSound : (e : Option String) (s : State) → IsSound (record_r2_health e) s
unfolding record_r2_health
health-IsSound e s = elim (Bool-cases (s.config.r2.credential_id == "")) [
  | inl h ↦ simp (h, record_r2_health) (pure-IsSound s)
  | inr h ↦
      simp (h, record_r2_health)
        (logged-IsSound (λ c. record c { r2 = health e s.now c.r2 }) s (health_normal e s.now))
]
