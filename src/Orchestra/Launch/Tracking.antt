-- ===== src/Orchestra/Launch/Tracking.antt =====
-- Which apps count as launched after a call of `LaunchApp`.
use atomyx.Prelude.{
  ◌≡◌, refl, ap, ◌∙◌, sym, subst, List, [], ◌∷◌, Option, none, some, Option-cases, Bool, true,
  false, ◌⊎◌, ◌&&◌, ◌||◌, inl, inr, Text, text_eq, text_eq_refl, text_eq_iff, Bool-cases, arith,
}
use atomyx.Orchestra.AppId.{validate_app_id}
use atomyx.Orchestra.Launch.{
  LaunchArgs, Driver, LaunchError, invalid_app_id, not_installed, driver_error, Orchestra,
  is_launched, claim_launch, release_launch_claim, record_launch, dedup, released, recorded,
  installed, Launch, failed, after_launch, after_list, attempt, launch_valid, launch_app,
}

unfoldable pub succeeded {ℓ} : {E : Type ℓ} → Option E → Bool
succeeded none = true
succeeded (some e) = false

release-absent :
    (app : Text) (apps : List Text)
    → is_launched app apps ≡ false
    → release_launch_claim app apps ≡ apps
unfolding is_launched release_launch_claim
release-absent app [] h = refl
release-absent app (a ∷ apps) h = elim (Bool-cases (text_eq app a)) [
  | inl e ↦ grind (arith, (rw e at h))
  | inr e ↦ rw (e, release_launch_claim) (ap (λ l. a ∷ l) (release-absent app apps (rw e at h)))
]

-- The list while a call holds its claim, if it made one.
unfoldable pub held : Bool → Text → List Text → List Text
held true app apps = app ∷ apps
held false app apps = apps

released-held :
    (claimed : Bool) (app : Text) (apps : List Text)
    → (claimed ≡ true → is_launched app apps ≡ false)
    → released claimed app (held claimed app apps) ≡ apps
unfolding released held release_launch_claim
released-held true app apps h = rw (text_eq_refl app) (release-absent app apps (h refl))
released-held false app apps h = refl

recorded-held :
    (claimed : Bool) (app : Text) (apps : List Text)
    → recorded claimed app (held claimed app apps) ≡ app ∷ apps
unfolding recorded held record_launch
recorded-held true app apps = refl
recorded-held false app apps = refl

or-swap : (a b : Bool) → (a || b) ≡ (b || (true && a))
or-swap true true = refl
or-swap true false = refl
or-swap false true = refl
or-swap false false = refl

or-false : (a b : Bool) → a ≡ (a || (false && b))
or-false true b = refl
or-false false b = refl

module _ {D E : Type 0} (driver : Driver D E) (app : Text) (apps : List Text) where
  -- After a call, the apps launched are those before, and its own if it succeeded.
  abbrev pub Tracks : Launch driver → Type 0
  Tracks out =
      (a : Text)
      → is_launched a ((out.1).launched_apps)
        ≡ (is_launched a apps || (succeeded out.0 && text_eq a app))

  failed-Tracks :
      (claimed : Bool) (e : LaunchError E) (o : Orchestra D)
      → (claimed ≡ true → is_launched app apps ≡ false)
      → o.launched_apps ≡ held claimed app apps
      → Tracks (failed driver claimed app e o)
  unfolding failed succeeded
  failed-Tracks claimed e o h g a =
      rw (g, released-held claimed app apps h) (or-false (is_launched a apps) (text_eq a app))

  after_launch-Tracks :
      (claimed : Bool) (r : Option E) (o : Orchestra D)
      → (claimed ≡ true → is_launched app apps ≡ false)
      → o.launched_apps ≡ held claimed app apps
      → Tracks (after_launch driver claimed app r o)
  unfolding after_launch succeeded is_launched
  after_launch-Tracks claimed (some e) o h g a = failed-Tracks claimed (driver_error e) o h g a
  after_launch-Tracks claimed none o h g a =
      rw (g, recorded-held claimed app apps) (or-swap (text_eq a app) (is_launched a apps))

  after_list-Tracks :
      (args : LaunchArgs) (r : E ⊎ List Text) (o : Orchestra D)
      → (dedup args ≡ true → is_launched app apps ≡ false)
      → o.launched_apps ≡ held (dedup args) app apps
      → Tracks (after_list driver app args r o)
  unfolding after_list
  after_list-Tracks args (inl e) o h g a = failed-Tracks (dedup args) (driver_error e) o h g a
  after_list-Tracks args (inr found) o h g a = elim (Bool-cases (installed app found)) [
    | inl e ↦
        rw (e, after_list)
          (after_launch-Tracks (dedup args) (driver.launch_app app args o.driver).0
            (record o { driver = (driver.launch_app app args o.driver).1 }) h g a)
    | inr e ↦ rw (e, after_list) (failed-Tracks (dedup args) (not_installed app) o h g a)
  ]

  attempt-Tracks :
      (args : LaunchArgs) (o : Orchestra D)
      → (dedup args ≡ true → is_launched app apps ≡ false)
      → o.launched_apps ≡ held (dedup args) app apps
      → Tracks (attempt driver app args o)
  unfolding attempt
  attempt-Tracks args o h g =
      after_list-Tracks args (driver.list_apps o.driver).0
        (record o { driver = (driver.list_apps o.driver).1 }) h g

or-implied : (a b : Bool) → (b ≡ true → a ≡ true) → a ≡ (a || (true && b))
or-implied true b h = refl
or-implied false true h = h refl
or-implied false false h = refl

module _ {D E : Type 0} (driver : Driver D E) (app : Text) (args : LaunchArgs)
    (o : Orchestra D) where
  launch_valid-again :
      dedup args ≡ true
      → is_launched app o.launched_apps ≡ true
      → launch_valid driver app args o ≡ (none, o)
  unfolding launch_valid claim_launch
  launch_valid-again d l = rw (d, l) refl

  launch_valid-first :
      dedup args ≡ true
      → is_launched app o.launched_apps ≡ false
      → launch_valid driver app args o
        ≡ attempt driver app args (record o { launched_apps = app ∷ o.launched_apps })
  unfolding launch_valid claim_launch
  launch_valid-first d l = rw (d, l) refl

  launch_valid-fresh :
      dedup args ≡ false → launch_valid driver app args o ≡ attempt driver app args o
  unfolding launch_valid
  launch_valid-fresh d = rw d refl

  again-Tracks :
      is_launched app o.launched_apps ≡ true → Tracks driver app o.launched_apps (none, o)
  unfolding succeeded
  again-Tracks l a =
      or-implied (is_launched a o.launched_apps) (text_eq a app)
        λ e. let same : a ≡ app = (text_eq_iff a app).0 e in rw same l

  claim-Tracks :
      (d : Bool)
      → dedup args ≡ d
      → (d ≡ true → is_launched app o.launched_apps ≡ false)
      → Tracks driver app o.launched_apps
          (attempt driver app args (record o { launched_apps = held d app o.launched_apps }))
  claim-Tracks d e h =
      attempt-Tracks driver app o.launched_apps args
        (record o { launched_apps = held d app o.launched_apps }) (λ k. h (sym e ∙ k))
        (ap (λ b. held b app o.launched_apps) (sym e))

  launch_valid-Tracks : Tracks driver app o.launched_apps (launch_valid driver app args o)
  unfolding held
  launch_valid-Tracks = elim (Bool-cases (dedup args)) [
    | inl d ↦ (elim (Bool-cases (is_launched app o.launched_apps)) [
      | inl l ↦
          subst (Tracks driver app o.launched_apps) (sym (launch_valid-again d l)) (again-Tracks l)
      | inr l ↦
          subst (Tracks driver app o.launched_apps) (sym (launch_valid-first d l))
            (claim-Tracks true d (λ _. l))
    ])
    | inr d ↦
        subst (Tracks driver app o.launched_apps) (sym (launch_valid-fresh d))
          (claim-Tracks false d (λ k. grind arith))
  ]

-- After a call of `LaunchApp`, an app counts as launched exactly if it did before, or if it is the
-- app of the call and the call succeeded: a failure leaves no claim behind, and takes nothing away.
pub launch_app-tracks :
    {D E : Type 0} (driver : Driver D E) (app : Text) (args : LaunchArgs) (o : Orchestra D)
    (a : Text)
    → let out : Launch driver = launch_app driver app args o in
      is_launched a ((out.1).launched_apps)
      ≡ (is_launched a o.launched_apps || (succeeded out.0 && text_eq a app))
unfolding launch_app succeeded
launch_app-tracks driver app args o a = elim (Option-cases (validate_app_id app)) [
  | inl e ↦ rw (e, launch_app) (launch_valid-Tracks driver app args o a)
  | inr (e, h) ↦ rw (h, launch_app) (or-false (is_launched a o.launched_apps) (text_eq a app))
]

or-true : (a : Bool) → (a || true) ≡ true
or-true true = refl
or-true false = refl

launch_app-launched :
    {D E : Type 0} (driver : Driver D E) (app : Text) (args : LaunchArgs) (o : Orchestra D)
    → (launch_app driver app args o).0 ≡ none
    → is_launched app (((launch_app driver app args o).1).launched_apps) ≡ true
unfolding succeeded
launch_app-launched driver app args o h =
    launch_app-tracks driver app args o app
    ∙ ap (λ r. is_launched app o.launched_apps || (succeeded r && text_eq app app)) h
    ∙ ap (λ b. is_launched app o.launched_apps || b) (text_eq_refl app)
    ∙ or-true (is_launched app o.launched_apps)

launch_app-valid :
    {D E : Type 0} (driver : Driver D E) (app : Text) (args : LaunchArgs) (o : Orchestra D)
    → validate_app_id app ≡ none
    → launch_app driver app args o ≡ launch_valid driver app args o
unfolding launch_app
launch_app-valid driver app args o h = rw (h, launch_app) refl

launch_app-accepted :
    {D E : Type 0} (driver : Driver D E) (app : Text) (args : LaunchArgs) (o : Orchestra D)
    → (launch_app driver app args o).0 ≡ none
    → validate_app_id app ≡ none
unfolding launch_app
launch_app-accepted driver app args o h = elim (Option-cases (validate_app_id app)) [
  | inl e ↦ e
  | inr (e, k) ↦
      let refused : launch_app driver app args o ≡ (some (invalid_app_id e), o) =
        rw (k, launch_app) refl in
      grind (arith, refused, h)
]

-- Once an app has been launched, a later call that does not ask for a fresh launch succeeds without
-- calling the driver and without any other change.
pub launch_app-once :
    {D E : Type 0} (driver : Driver D E) (app : Text) (args again : LaunchArgs) (o : Orchestra D)
    → (launch_app driver app args o).0 ≡ none
    → dedup again ≡ true
    → launch_app driver app again (launch_app driver app args o).1
      ≡ (none, (launch_app driver app args o).1)
launch_app-once driver app args again o h d =
    let after = (launch_app driver app args o).1 in
    launch_app-valid driver app again after (launch_app-accepted driver app args o h)
    ∙ launch_valid-again driver app again after d (launch_app-launched driver app args o h)
