-- ===== src/Orchestra/Launch/Samples.antt =====
-- Launches on a driver that counts them, and the theorems on them at concrete inputs.
use atomyx.Prelude.{
  ℕ, suc, ◌≡◌, ◌≢◌, ◌≤◌, ◌↔◌, refl, [], ◌∷◌, none, some, true, false, ◌&&◌, ◌||◌, inr, Text, codes,
  text_eq, length, All,
}
use atomyx.Orchestra.AppId.{validate_app_id, max_app_id_length, IsAppIdRune, validate_app_id_iff}
use atomyx.Orchestra.Launch.{LaunchArgs, Driver, Orchestra, not_installed, is_launched, launch_app}
use atomyx.Orchestra.Launch.Tracking.{succeeded, launch_app-tracks}

abbrev notes : Text
notes = codes "com.example.notes"

abbrev counting : Driver ℕ Text
counting = record {
  list_apps = λ d. (inr (notes ∷ []), d);
  launch_app = λ app args d. (none, suc d);
}

abbrev by_default : LaunchArgs
by_default = record { args = []; environment = []; no_reset = none }

abbrev idle : Orchestra ℕ
idle = record { driver = 0; maybe_keyboard_open = true; launched_apps = [] }

launches_once :
    launch_app counting notes by_default (launch_app counting notes by_default idle).1
    ≡ (none, record { driver = 1; maybe_keyboard_open = false; launched_apps = notes ∷ [] })
unfolding launch_app
launches_once = refl

missing_app :
    launch_app counting (codes "com.example.mail") by_default idle
    ≡ (some (not_installed (codes "com.example.mail")), idle)
unfolding launch_app
missing_app = refl

launch_app-tracks_example :
    is_launched notes (((launch_app counting notes by_default idle).1).launched_apps) ≡ (
      is_launched notes idle.launched_apps
      || (succeeded (launch_app counting notes by_default idle).0 && text_eq notes notes))
launch_app-tracks_example = launch_app-tracks counting notes by_default idle notes

validate_app_id_iff_example : (validate_app_id (codes "a;b") ≡ none) ↔ (
    (codes "a;b" ≢ []) × (length (codes "a;b") ≤ max_app_id_length) × All IsAppIdRune (codes "a;b"))
validate_app_id_iff_example = validate_app_id_iff (codes "a;b")
