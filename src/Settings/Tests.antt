-- ===== src/Settings/Tests.antt =====
-- Concrete runs of the settings manager.
use save_knot.Prelude.{
  concat, pos, Bool, true, false, none, some, List, [], ◌∷◌, String, ◌≡◌, refl, get,
}
use save_knot.Config.{
  Config, R2, default_r2, default_config, loaded, object_prefix, validate_r2, is_space, trim_left,
  trim_right, has_separator,
}
use save_knot.Io.{refused, err}
use save_knot.Settings.{
  State, call, save, install, configure_retention, configure_r2, connect_r2, invalidate_uploads,
  identity, disconnect_r2,
}
use save_knot.Settings.Agreement.{
  retention, disconnect, connect, perform, perform_all, perform_failed, restart_lem,
}
use save_knot.Settings.Disconnecting.{
  writing, faults_of, disconnect_r2_restores, configure_r2_empty_prefix,
}

abbrev connected : R2
connected = record default_r2 {
  account_id = "account";
  bucket = "saves";
  access_key_id = "key";
  credential_id = "r2-default";
}

abbrev running : Config
running = record default_config { device_id = "device"; r2 = connected }

abbrev state : List Bool → State
state faults = record {
  config = running;
  has_upload_state = true;
  saved = some running;
  temporary = none;
  vault = ("r2-default", "secret") ∷ [];
  invalidated = [];
  autostart = false;
  now = 7;
  faults = faults;
  ids = [];
}

abbrev other_r2 : String → R2
other_r2 prefix = record connected { prefix = prefix; bucket = "games" }

restart_lem_example :
    loaded
      (perform_all
        (retention (pos 20) ∷ connect (other_r2 " /games/ ") "new" ∷ disconnect ∷ [])
        (state (false ∷ true ∷ []))).saved
    ≡ (perform_all
        (retention (pos 20) ∷ connect (other_r2 " /games/ ") "new" ∷ disconnect ∷ [])
        (state (false ∷ true ∷ []))).config
unfolding object_prefix trim_left trim_right is_space
restart_lem_example =
    restart_lem (retention (pos 20) ∷ connect (other_r2 " /games/ ") "new" ∷ disconnect ∷ [])
      (state (false ∷ true ∷ [])) (tt, (refl, (tt, tt))) refl refl

perform_failed_example :
    ((perform (retention (pos 20)) (state (false ∷ false ∷ true ∷ []))).1.config ≡ running)
    × ((perform (retention (pos 20)) (state (false ∷ false ∷ true ∷ []))).1.saved ≡ some running)
unfolding perform configure_retention install save call
perform_failed_example =
    perform_failed (retention (pos 20)) (state (false ∷ false ∷ true ∷ [])) refused tt refl

disconnect_r2_restores_example :
    ((disconnect_r2 (state (faults_of writing))).0 ≡ err refused)
    × (get "r2-default" (disconnect_r2 (state (faults_of writing))).1.vault ≡ some "secret")
    × ((disconnect_r2 (state (faults_of writing))).1.config ≡ running)
unfolding get
disconnect_r2_restores_example = disconnect_r2_restores (state []) writing "secret" refl refl refl

configure_r2_empty_prefix_example :
    ((configure_r2 (other_r2 " / ") "new" (state [])).1.config.r2.prefix ≡ "")
    × ((loaded (configure_r2 (other_r2 " / ") "new" (state [])).1.saved).r2.prefix ≡ "saveknot")
unfolding configure_r2 connect_r2 validate_r2 object_prefix trim_left trim_right is_space
    has_separator call invalidate_uploads identity concat install save
configure_r2_empty_prefix_example =
    configure_r2_empty_prefix (other_r2 " / ") "new" (state []) refl refl
