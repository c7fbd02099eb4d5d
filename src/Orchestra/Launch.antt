-- ===== src/Orchestra/Launch.antt =====
-- core/internal/orchestra/orchestra.go: `LaunchApp` and the apps launched in the current flow. The
-- driver is a parameter, with its own state; each call is one step.
pub mod Tracking
mod Samples
use atomyx.Prelude.{
  ◌≡◌, List, [], ◌∷◌, Option, none, some, Bool, true, false, not, ◌||◌, ◌⊎◌, inl, inr, Text,
  text_eq, if◌then◌else◌,
}
use atomyx.Wire.{Attributes}
use atomyx.Orchestra.AppId.{AppIdError, validate_app_id}

pub record LaunchArgs : Type 0 where
  pub args : List Text
  pub environment : Attributes
  pub no_reset : Option Bool

-- `ListApps`, reduced to the bundle ids, and `LaunchApp` of a driver; `none` is no error.
pub record Driver (D E : Type 0) : Type 0 where
  pub list_apps : D → (E ⊎ List Text) × D
  pub launch_app : Text → LaunchArgs → D → Option E × D

pub data LaunchError (E : Type 0) : Type 0 where
  invalid_app_id : AppIdError → LaunchError E
  not_installed : Text → LaunchError E
  driver_error : E → LaunchError E

-- The fields of `Orchestra` that a launch reads or writes; the map's keys are a list.
pub record Orchestra (D : Type 0) : Type 0 where
  pub driver : D
  pub maybe_keyboard_open : Bool
  pub launched_apps : List Text

unfoldable pub is_launched : Text → List Text → Bool
unfolding text_eq
is_launched app [] = false
is_launched app (a ∷ apps) = text_eq app a || is_launched app apps

unfoldable pub claim_launch : Text → List Text → Bool × List Text
unfolding is_launched
claim_launch app apps = if is_launched app apps then (true, apps) else (false, app ∷ apps)

unfoldable pub release_launch_claim : Text → List Text → List Text
unfolding text_eq
release_launch_claim app [] = []
release_launch_claim app (a ∷ apps) =
    let rest = release_launch_claim app apps in if text_eq app a then rest else a ∷ rest

unfoldable pub record_launch : Text → List Text → List Text
record_launch app apps = app ∷ apps

unfoldable pub reset_launched_apps : {D : Type 0} → Orchestra D → Orchestra D
reset_launched_apps o = record o { launched_apps = [] }

unfoldable pub dedup : LaunchArgs → Bool
dedup args = elim args.no_reset [ none ↦ true | some b ↦ b ]

-- The claim is undone where a call that made one fails.
unfoldable pub released : Bool → Text → List Text → List Text
unfolding release_launch_claim
released true app apps = release_launch_claim app apps
released false app apps = apps

unfoldable pub recorded : Bool → Text → List Text → List Text
unfolding record_launch
recorded true app apps = apps
recorded false app apps = record_launch app apps

unfoldable pub installed : Text → List Text → Bool
unfolding text_eq
installed app [] = false
installed app (a ∷ apps) = if text_eq a app then true else installed app apps

module _ {D E : Type 0} (driver : Driver D E) where
  abbrev pub Launch : Type 0
  Launch = Option (LaunchError E) × Orchestra D

  unfoldable pub failed : Bool → Text → LaunchError E → Orchestra D → Launch
  unfolding released
  failed claimed app e o =
      (some e, record o { launched_apps = released claimed app o.launched_apps })

  -- What follows the driver's `LaunchApp`.
  unfoldable pub after_launch : Bool → Text → Option E → Orchestra D → Launch
  unfolding failed recorded
  after_launch claimed app (some e) o = failed claimed app (driver_error e) o
  after_launch claimed app none o = (
    none,
    record o { maybe_keyboard_open = false; launched_apps = recorded claimed app o.launched_apps },
  )

  unfoldable pub after_list : Text → LaunchArgs → (E ⊎ List Text) → Orchestra D → Launch
  unfolding failed dedup installed after_launch
  after_list app args (inl e) o = failed (dedup args) app (driver_error e) o
  after_list app args (inr apps) o =
      let out = driver.launch_app app args o.driver in
      if installed app apps
      then after_launch (dedup args) app out.0 (record o { driver = out.1 })
      else failed (dedup args) app (not_installed app) o

  unfoldable pub attempt : Text → LaunchArgs → Orchestra D → Launch
  unfolding after_list
  attempt app args o =
      let out = driver.list_apps o.driver in after_list app args out.0 (record o { driver = out.1 })

  unfoldable pub launch_valid : Text → LaunchArgs → Orchestra D → Launch
  unfolding claim_launch attempt dedup
  launch_valid app args o =
      let claim = claim_launch app o.launched_apps in
      let claimed : Orchestra D = record o { launched_apps = claim.1 } in
      if dedup args
      then (if claim.0 then (none, claimed) else attempt app args claimed)
      else attempt app args o

  unfoldable pub launch_app : Text → LaunchArgs → Orchestra D → Launch
  unfolding validate_app_id launch_valid
  launch_app app args o = elim (validate_app_id app) [
    | none ↦ launch_valid app args o
    | some e ↦ (some (invalid_app_id e), o)
  ]
