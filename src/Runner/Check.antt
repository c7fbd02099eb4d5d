-- ===== src/Runner/Check.antt =====
-- Precondition checks of core/internal/runner/runner.go, through the selectors of orchestra.
use atomyx.Prelude.{
  Option, none, some, Bool, true, false, Text, text_eq, codes, ◌⊎◌, inl, inr, if◌then◌else◌,
}
use atomyx.Orchestra.Cursor.Walk.{Cursor}
use atomyx.Orchestra.Pattern.{Pattern, literal}
use atomyx.Orchestra.Selector.Compile.{Selector, given}
use atomyx.Orchestra.Finder.{find_on_screen}
use atomyx.Runner.Types.{ScriptSelector, StringOrSelector, PreconditionCheck}
use atomyx.Runner.Host.{Host}

-- A bare text matches both text and label.
unfoldable pub to_script_selector : StringOrSelector → ScriptSelector
to_script_selector v = elim v.str [
  | some s ↦ record {
    text = some s;
    id = none;
    label = some s;
    hint = none;
    role = none;
    nth = none;
  }
  | none ↦ elim v.selector [
    | some selector ↦ selector
    | none ↦ record { text = none; id = none; label = none; hint = none; role = none; nth = none }
  ]
]

unfoldable pub literal_of : Option Text → Option Pattern
literal_of none = none
literal_of (some s) = some (literal s)

unfoldable pub compile_script_selector : ScriptSelector → Selector
unfolding literal_of
compile_script_selector sel = record {
  id = literal_of sel.id;
  text = literal_of sel.text;
  label = literal_of sel.label;
  hint = literal_of sel.hint;
  value = none;
  role = sel.role;
  enabled = none;
  clickable = none;
  focused = none;
  nth = sel.nth;
}

unfoldable pub holds_if : Bool → (Text ⊎ Option Cursor) → Text ⊎ Bool
unfolding given
holds_if wanted (inl e) = inl e
holds_if true (inr found) = inr (given found)
holds_if false (inr found) = inr (if given found then false else true)

module _ {W Step : Type 0} (host : Host W Step) where
  unfoldable pub looks_for : Bool → StringOrSelector → W → (Text ⊎ Bool) × W
  unfolding find_on_screen to_script_selector compile_script_selector holds_if
  looks_for wanted v w =
      let found =
        find_on_screen host.hierarchy (compile_script_selector (to_script_selector v)) w in
      (holds_if wanted found.0, found.1)

  unfoldable pub evaluate_check : PreconditionCheck → W → (Text ⊎ Bool) × W
  unfolding looks_for
  evaluate_check check w = elim check.visible [
    | some v ↦ looks_for true v w
    | none ↦ elim check.not_visible [ some v ↦ looks_for false v w | none ↦ (inr false, w) ]
  ]

-- The run's override wins over the precondition's own policy.
unfoldable pub resolve_effective_policy : Text → Option Text → Text
unfolding text_eq
resolve_effective_policy override own =
    if text_eq override (codes "skip")
    then codes "skip"
    else if text_eq override (codes "force")
    then codes "always"
    else elim own [ some policy ↦ policy | none ↦ codes "ensure" ]
