-- ===== src/Runner/Outcome.antt =====
-- core/internal/runner/runner.go: what a run reports, and the texts and counts in it.
use atomyx.Prelude.{
  count_if, ℕ, List, [], ◌∷◌, ◌++◌, Option, none, some, Bool, false, not, ◌&&◌, ◌||◌, Text, codes,
  text_eq, trim_space, trim_right_func, ltb, ◌==◌, if◌then◌else◌, get_elem?,
}
use atomyx.Runner.Types.{Detail, text, ScriptDefinition, RunAbort, StepResult, ScriptResult}

-- What `Run` returns as a Go error.
pub data RunError : Type 0 where
  canceled : Text → RunError
  sleep_failed : Text → RunError
  required_flow : Text → Text → RunError

-- How the loop over the steps ends: by an error, or with the results, the index of the step that
-- failed, and the reason beyond it.
pub data LoopEnd : Type 0 where
  interrupted : RunError → LoopEnd
  ended : List StepResult → Option ℕ → Option RunAbort → LoopEnd

pub data RunOutcome : Type 0 where
  run_error : RunError → RunOutcome
  finished : ScriptResult → RunOutcome

pub data Required : Type 0 where
  satisfied : Required
  failed : Detail → Required
  load_error : RunError → Required

-- An empty text for a missing detail.
unfoldable pub detail_or_empty : Option Detail → Detail
detail_or_empty none = text []
detail_or_empty (some d) = d

unfoldable pub line_for_step : {Step : Type 0} → ScriptDefinition Step → ℕ → Option ℕ
line_for_step def i = elim (get_elem? def.step_lines i) [
  | none ↦ none
  | some line ↦ if line == 0 then none else some line
]

unfoldable pub is_sentence_end : ℕ → Bool
is_sentence_end c = c == b'.' || c == b'!' || c == b'?'

unfoldable pub device_lost_detail : RunAbort → Text
unfolding trim_space is_sentence_end trim_right_func
device_lost_detail abort = elim abort.remedy [
  | [] ↦ abort.message
  | c ∷ s ↦ trim_right_func is_sentence_end (trim_space abort.message) ++ codes ". " ++ abort.remedy
]

unfoldable pub count_ok : List StepResult → ℕ
unfolding count_if
count_ok ss = count_if (λ s. s.ok) ss

-- A result in front of those of the steps that follow.
unfoldable pub prepend : StepResult → LoopEnd → LoopEnd
prepend s (interrupted e) = interrupted e
prepend s (ended ss at abort) = ended (s ∷ ss) at abort

-- Only `message` and `remedy` of the abort reach the detail of the step that failed.
unfoldable pub neutral_detail : Option RunAbort → Option Detail → Option Detail
unfolding device_lost_detail
neutral_detail none d = d
neutral_detail (some abort) d = some (text (device_lost_detail abort))

unfoldable pub paces : {Step : Type 0} → ScriptDefinition Step → ℕ → Text → Bool
unfolding text_eq
paces def i command = elim def.step_delay [
  | none ↦ false
  | some delay ↦ ltb 0 i && delay.positive && not (text_eq command (codes "sleep"))
]
