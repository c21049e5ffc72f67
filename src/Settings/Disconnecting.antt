-- ===== src/Settings/Disconnecting.antt =====
-- Connecting and disconnecting the remote storage: the secret in the vault, and the prefix.
use save_knot.Prelude.{
  Bool, true, false, some, List, [], ◌∷◌, String, ◌==◌, ◌≡◌, refl, ap, ◌∙◌, sym, inl, inr, get, put,
  get-put_self,
}
use save_knot.Config.{Config, R2, loaded, with_defaults, validate_r2, object_prefix}
use save_knot.Io.{refused, ok, err}
use save_knot.Io.Laws.{Result-cases}
use save_knot.Settings.{
  credential, State, Action, ◌>>◌, call, save, install, connect_r2, configure_r2,
  invalidate_uploads, disconnect_r2, restore_secret, verified,
}
use save_knot.Settings.Sound.{install_lem}

-- Where the Save of DisconnectR2 fails.
pub data FailingCall : Type 0 where
  making_directory writing renaming : FailingCall

-- The loading and the deletion of the secret succeed, and the Save fails at the call.
abbrev pub faults_of : FailingCall → List Bool
faults_of making_directory = false ∷ false ∷ true ∷ []
faults_of writing = false ∷ false ∷ false ∷ true ∷ []
faults_of renaming = false ∷ false ∷ false ∷ false ∷ true ∷ []

-- If DisconnectR2 loads a secret from the vault and deletes it, and a call of the Save that follows
-- fails, but no call after that, then it returns the error, the vault gives the same secret again and
-- the configuration is unchanged.
pub disconnect_r2_restores :
    (s : State) (at : FailingCall) (secret : String)
    → (s.config.r2.credential_id == "") ≡ false
    → get s.config.r2.credential_id s.vault ≡ some secret
    → (secret == "") ≡ false
    → (let s₁ = record s { faults = faults_of at } in
        ((disconnect_r2 s₁).0 ≡ err refused)
        × (get s.config.r2.credential_id (disconnect_r2 s₁).1.vault ≡ some secret)
        × ((disconnect_r2 s₁).1.config ≡ s.config))
unfolding disconnect_r2 call install save restore_secret
disconnect_r2_restores s making_directory secret c g n =
    simp (c, g, n, get-put_self) (refl, refl, refl)
disconnect_r2_restores s writing secret c g n = simp (c, g, n, get-put_self) (refl, refl, refl)
disconnect_r2_restores s renaming secret c g n = simp (c, g, n, get-put_self) (refl, refl, refl)

-- What holds if the action returns no error.
abbrev Ends : (State → Type 0) → Action (Unit {0}) → State → Type 0
Ends P m s = (m s).0 ≡ ok tt → P (m s).1

then-Ends :
    (P : State → Type 0) (m n : Action (Unit {0})) (s : State)
    → ((t : State) → Ends P n t)
    → Ends P (m >> n) s
then-Ends P m n s h = elim (Result-cases (m s).0) [
  | inl (a, e) ↦ rw e (h (m s).1)
  | inr (x, e) ↦ λ r. (let bad : err x ≡ ok tt = (rw e at r) in cc)
]

abbrev SavedPrefix : String → State → Type 0
SavedPrefix p t = (t.saved ≡ some t.config) × (t.config.r2.prefix ≡ p)

install-Ends :
    (f : Config → Config) (p : String) (s : State)
    → ((c : Config) → (f c).r2.prefix ≡ p)
    → Ends (SavedPrefix p) (install f) s
install-Ends f p s h = elim (install_lem f s) [
  | inl (a, b, c) ↦ λ r. (b ∙ ap some (sym c), ap (λ x. x.r2.prefix) c ∙ h s.config)
  | inr (a, k) ↦ λ r. (let bad : err refused ≡ ok tt = (rw a at r) in cc)
]

connect-Ends :
    (r : R2) (secret : String) (s : State) → Ends (SavedPrefix r.prefix) (connect_r2 r secret) s
unfolding connect_r2
connect-Ends r secret s = elim (Result-cases (validate_r2 r)) [
  | inr (x, e) ↦ rw (e, connect_r2) (λ h. (let bad : err x ≡ ok tt = h in cc))
  | inl (u, e) ↦
      rw (e, connect_r2)
        (then-Ends (SavedPrefix r.prefix) (call (λ t. t)) _ s λ s₁.
          then-Ends (SavedPrefix r.prefix) (call (λ t. t)) _ s₁ λ s₂.
            then-Ends (SavedPrefix r.prefix) (invalidate_uploads r) _ s₂ λ s₃.
              then-Ends (SavedPrefix r.prefix)
                (call (λ t. record t { vault = put credential secret t.vault })) _ s₃
                λ t. install-Ends (λ c. record c { r2 = verified r t.now }) r.prefix t (λ c. refl))
]

-- If ConfigureR2 succeeds with a prefix that is empty once it is trimmed, it stores its objects under
-- the empty prefix until the program is started again: then Load makes the prefix "saveknot".
pub configure_r2_empty_prefix :
    (r : R2) (secret : String) (s : State)
    → object_prefix r ≡ ""
    → (configure_r2 r secret s).0 ≡ ok tt
    → ((configure_r2 r secret s).1.config.r2.prefix ≡ "")
      × ((loaded (configure_r2 r secret s).1.saved).r2.prefix ≡ "saveknot")
unfolding configure_r2 loaded with_defaults
configure_r2_empty_prefix r secret s e h =
    let (f, p) = connect-Ends (record r { prefix = object_prefix r }) secret s h in
    (p ∙ e, rw (f, p, e) refl)
