-- ===== src/Settings/Agreement.antt =====
-- The settings in memory and the settings file, whatever calls fail.
use save_knot.Prelude.{
  ℤ, Bool, true, false, Option, none, some, List, [], ◌∷◌, String, ◌==◌, ◌≡◌, ap, ◌∙◌, All,
}
use save_knot.Config.{R2, Automation, Local, loaded, object_prefix}
use save_knot.Io.{Error, err}
use save_knot.Settings.{
  State, Action, configure_autostart, configure_retention, configure_automation, configure_local,
  configure_r2, disconnect_r2, record_r2_sync, record_r2_health,
}
use save_knot.Settings.Sound.{is_normal, loaded-IsNormal, Agrees, IsSound}
use save_knot.Settings.Methods.{
  autostart-IsSound, retention-IsSound, automation-IsSound, places-IsSound, connect-IsSound,
  synced-IsSound, disconnect-IsSound, health-IsSound,
}

-- The methods of the manager that may change its settings.
pub data Operation : Type 0 where
  autostart : Bool → Operation
  retention : ℤ → Operation
  automation : Automation → Operation
  places : Local → Operation
  connect : R2 → String → Operation
  disconnect synced : Operation
  health_of : Option String → Operation

unfoldable pub perform : Operation → Action (Unit {0})
perform (autostart b) = configure_autostart b
perform (retention n) = configure_retention n
perform (automation a) = configure_automation a
perform (places p) = configure_local p
perform (connect r secret) = configure_r2 r secret
perform disconnect = disconnect_r2
perform synced = record_r2_sync
perform (health_of e) = record_r2_health e

-- Every operation, whether it fails or not
unfoldable pub perform_all : List Operation → State → State
perform_all [] s = s
perform_all (op ∷ ops) s = perform_all ops (perform op s).1

-- ConfigureR2 is given a prefix that is not empty once it is trimmed.
abbrev pub HasPrefix : Operation → Type 0
HasPrefix (connect r _) = (object_prefix r == "") ≡ false
HasPrefix _ = Unit {0}

perform-IsSound : (op : Operation) (s : State) → HasPrefix op → IsSound (perform op) s
unfolding perform configure_r2 object_prefix
perform-IsSound (autostart b) s h = autostart-IsSound b s
perform-IsSound (retention n) s h = retention-IsSound n s
perform-IsSound (automation a) s h = automation-IsSound a s
perform-IsSound (places p) s h = places-IsSound p s
perform-IsSound (connect r secret) s h =
    connect-IsSound (record r { prefix = object_prefix r }) secret s h
perform-IsSound disconnect s h = disconnect-IsSound s
perform-IsSound synced s h = synced-IsSound s
perform-IsSound (health_of e) s h = health-IsSound e s

-- A method of the settings manager that returns an error leaves the running configuration and the
-- settings file as they were, whatever calls fail on the way; ConfigureR2 is given a prefix that is
-- not empty once it is trimmed.
pub perform_failed :
    (op : Operation) (s : State) (e : Error)
    → HasPrefix op
    → (perform op s).0 ≡ err e
    → ((perform op s).1.config ≡ s.config) × ((perform op s).1.saved ≡ s.saved)
perform_failed op s e p h = (perform-IsSound op s p).0 e h

perform_all-Agrees :
    (ops : List Operation) (s : State) → All HasPrefix ops → Agrees s → Agrees (perform_all ops s)
unfolding perform_all
perform_all-Agrees [] s h g = g
perform_all-Agrees (op ∷ ops) s h g =
    perform_all-Agrees ops (perform op s).1 h.1 ((perform-IsSound op s h.0).1 g)

-- After any methods of the manager and any failures, a restart loads the configuration that ran
-- before it, if the file held the running configuration at first and Load changed nothing in it, and
-- if each ConfigureR2 is given a prefix that is not empty once it is trimmed.
pub restart_lem :
    (ops : List Operation) (s : State)
    → All HasPrefix ops
    → s.saved ≡ some s.config
    → is_normal s.config ≡ true
    → loaded (perform_all ops s).saved ≡ (perform_all ops s).config
restart_lem ops s h f n =
    let g : Agrees (perform_all ops s) = perform_all-Agrees ops s h (f, n) in
    ap loaded g.0 ∙ (loaded-IsNormal none (perform_all ops s).config g.1).1
