-- ===== src/Settings/Sound.antt =====
-- Configurations that a restart keeps, and what a failing Save leaves of the settings.
use save_knot.Prelude.{
  Bool, true, false, not, ◌&&◌, Option, none, some, List, [], ◌∷◌, String, ◌==◌, ◌≡◌, refl, ap, ◌∙◌,
  sym, arith, ◌⊎◌, inl, inr,
}
use save_knot.Config.{
  Config, default_listen, default_manifest_url, or_default, loaded, with_defaults, is_zero,
}
use save_knot.Io.{Error, refused, ok, err}
use save_knot.Io.Laws.{Result-cases}
use save_knot.Settings.{State, Action, fail, ◌>>◌, call, call_on, save, install}

-- A configuration that Load leaves as it is.
abbrev pub is_normal : Config → Bool
is_normal c =
    not (c.listen == "")
    && (not (c.manifest_url == "")
        && (not (c.r2.prefix == "")
            && (not (is_zero c.retention_keep)
                && not (
                    is_zero c.automation.sync_interval_minutes
                    && is_zero c.automation.discovery_interval_minutes))))

pub or_default-IsFilled : (s d : String) → (d == "") ≡ false → not (or_default s d == "") ≡ true
or_default-IsFilled s d h = ground (arith, h)

pub with_defaults-IsNormal : (c : Config) → is_normal (with_defaults c) ≡ true
unfolding with_defaults
with_defaults-IsNormal c = ground (
  arith,
  or_default-IsFilled c.listen default_listen refl,
  or_default-IsFilled c.manifest_url default_manifest_url refl,
  or_default-IsFilled c.r2.prefix "saveknot" refl,
)

pub with_defaults_normal : (c : Config) → is_normal c ≡ true → with_defaults c ≡ c
unfolding with_defaults
with_defaults_normal c h = ground (arith, h)

-- Load gives a normal configuration whatever the file holds, and gives a normal configuration that
-- was saved back unchanged.
pub loaded-IsNormal :
    (f : Option Config) (c : Config)
    → is_normal c ≡ true
    → (is_normal (loaded f) ≡ true) × (loaded (some c) ≡ c)
unfolding loaded
loaded-IsNormal none c h = (refl, with_defaults_normal c h)
loaded-IsNormal (some d) c h = (with_defaults-IsNormal d, with_defaults_normal c h)

-- The file holds the running configuration, which is normal.
abbrev pub Agrees : State → Type 0
Agrees s = (s.saved ≡ some s.config) × (is_normal s.config ≡ true)

-- Neither the running configuration nor the file changes.
abbrev pub Stays : State → State → Type 0
Stays s t = (t.config ≡ s.config) × (t.saved ≡ s.saved)

pub save_lem :
    (c : Config) (s : State)
    → (((save c s).0 ≡ ok tt) × ((save c s).1.saved ≡ some c) × ((save c s).1.config ≡ s.config))
      ⊎ (((save c s).0 ≡ err refused) × Stays s (save c s).1)
unfolding save call
save_lem c s = ground arith

pub install_lem :
    (f : Config → Config) (s : State)
    → (((install f s).0 ≡ ok tt)
        × ((install f s).1.saved ≡ some (f s.config))
        × ((install f s).1.config ≡ f s.config))
      ⊎ (((install f s).0 ≡ err refused) × Stays s (install f s).1)
unfolding install
install_lem f s = ground (arith, save_lem (f s.config) s)

-- An operation that returns an error changes neither the running configuration nor the file; one
-- that does not leaves a file that agrees, if the file agreed before.
abbrev pub IsSound : Action (Unit {0}) → State → Type 0
IsSound m s = ((e : Error) → (m s).0 ≡ err e → Stays s (m s).1) × (Agrees s → Agrees (m s).1)

pub install-IsSound :
    (f : Config → Config) (s : State)
    → ((c : Config) → is_normal c ≡ true → is_normal (f c) ≡ true)
    → IsSound (install f) s
install-IsSound f s n = elim (install_lem f s) [
  | inl (a, b, c) ↦
      (λ e h. ground (arith, a, h), λ g. (b ∙ ap some (sym c), ap is_normal c ∙ n s.config g.1))
  | inr (a, k) ↦ (λ e h. k, λ g. (k.1 ∙ g.0 ∙ ap some (sym k.0), ap is_normal k.0 ∙ g.1))
]

pub fail-IsSound : (e : Error) (s : State) → IsSound (fail e) s
fail-IsSound e s = (λ x h. (refl, refl), λ g. g)

pub pure-IsSound : (s : State) → IsSound (λ t. (ok tt, t)) s
pure-IsSound s = (λ x h. (refl, refl), λ g. g)

pub Stays-trans : (s t u : State) → Stays s t → Stays t u → Stays s u
Stays-trans s t u k l = (l.0 ∙ k.0, l.1 ∙ k.1)

pub Stays-Agrees : (s t : State) → Stays s t → Agrees s → Agrees t
Stays-Agrees s t k g = (k.1 ∙ g.0 ∙ ap some (sym k.0), ap is_normal k.0 ∙ g.1)

pub call_on-Stays :
    (f : State → State) (faults : List Bool) (s : State)
    → ((t : State) → Stays t (f t))
    → Stays s (call_on f faults s).1
call_on-Stays f [] s k = k s
call_on-Stays f (true ∷ later) s k = (refl, refl)
call_on-Stays f (false ∷ later) s k = k (record s { faults = later })

pub call-Stays :
    (f : State → State) (s : State) → ((t : State) → Stays t (f t)) → Stays s (call f s).1
unfolding call
call-Stays f s k = call_on-Stays f s.faults s k

-- After an action that touches neither.
pub then-IsSound :
    (m n : Action (Unit {0})) (s : State)
    → Stays s (m s).1
    → ((t : State) → IsSound n t)
    → IsSound (m >> n) s
then-IsSound m n s k h =
    let (still, again) = h (m s).1 in
    elim (Result-cases (m s).0) [
      | inl (a, e) ↦ rw e (
        λ x r. ((still x r).0 ∙ k.0, (still x r).1 ∙ k.1),
        λ g. again (Stays-Agrees s (m s).1 k g),
      )
      | inr (x, e) ↦ rw e (λ _ _. k, Stays-Agrees s (m s).1 k)
    ]
