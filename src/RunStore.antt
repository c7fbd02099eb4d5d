-- ===== src/RunStore.antt =====
-- core/internal/storage/runstore.go: the one test run in flight. A returned pointer is given as the
-- record at that moment; what the clock reads is an argument of the operation that reads it.
mod Samples
pub mod History
pub mod Ids
use atomyx.Prelude.{
  ℕ, suc, ◌+◌, List, [], ◌∷◌, ◌++◌, Option, none, some, Text, codes, text_eq, if◌then◌else◌, length,
  ℤ, pos, negsuc,
}
use atomyx.Expression.Decimal.{itoa}

-- RunStatus is a string type; these are its constants.
abbrev pub run_status_running : Text
run_status_running = codes "running"

abbrev pub run_status_passed : Text
run_status_passed = codes "passed"

abbrev pub run_status_failed : Text
run_status_failed = codes "failed"

abbrev pub run_status_error : Text
run_status_error = codes "error"

pub record RunBugReport : Type 0 where
  pub id : Text
  pub title : Text
  pub description : Text
  pub screenshot_path : Text
  pub timestamp : ℤ

pub record RunRecord : Type 0 where
  pub id : Text
  pub name : Text
  pub source : Text
  pub started_at : ℤ
  pub finished_at : Option ℤ
  pub status : Text
  pub action_count : ℕ
  pub findings : List RunBugReport

pub record StartRunResult : Type 0 where
  pub run : RunRecord
  pub errored_predecessor : Option RunRecord

pub record StartOptions : Type 0 where
  pub name : Text
  pub source : Option Text

pub record RecordBugOptions : Type 0 where
  pub title : Text
  pub description : Text
  pub screenshot_path : Option Text

pub record RunStore : Type 0 where
  pub active : Option RunRecord
  pub next_id : ℕ

unfoldable pub new_run_store : RunStore
new_run_store = record { active = none; next_id = 1 }

-- Sprintf's verb %d
unfoldable pub decimal : ℤ → Text
unfolding itoa
decimal (pos n) = itoa n
decimal (negsuc n) = b'-' ∷ itoa (suc n)

unfoldable pub run_id : ℤ → ℕ → Text
unfolding decimal itoa
run_id started_at n = codes "run-" ++ decimal started_at ++ codes "-" ++ itoa n

unfoldable pub bug_id : Text → ℕ → Text
unfolding itoa
bug_id run n = (run ++ codes "-bug-") ++ itoa n

-- The string that a pointer gives, or the default for a nil one.
unfoldable pub text_or : Text → Option Text → Text
text_or default none = default
text_or default (some s) = s

unfoldable pub errored_predecessor : ℤ → Option RunRecord → Option RunRecord
unfolding text_eq
errored_predecessor now none = none
errored_predecessor now (some r) =
    if text_eq r.status run_status_running
    then some (record r { status = run_status_error; finished_at = some now })
    else none

-- `Start`, with what the clock reads for the predecessor and for the new run.
unfoldable pub start : StartOptions → ℤ → ℤ → RunStore → StartRunResult × RunStore
unfolding errored_predecessor text_or run_id
start opts finished_at started_at r =
    let run : RunRecord = record {
      id = run_id started_at r.next_id;
      name = opts.name;
      source = text_or (codes "unknown") opts.source;
      started_at = started_at;
      finished_at = none;
      status = run_status_running;
      action_count = 0;
      findings = [];
    } in
    (
      record { run = run; errored_predecessor = errored_predecessor finished_at r.active },
      record { active = some run; next_id = r.next_id + 1 },
    )

unfoldable pub verdict : Text → Text
verdict [] = run_status_passed
verdict (c ∷ s) = c ∷ s

unfoldable pub finish_run : Text → ℤ → RunRecord → RunRecord
unfolding verdict
finish_run status now run = record run { status = verdict status; finished_at = some now }

unfoldable pub finish : Text → ℤ → RunStore → Option RunRecord × RunStore
unfolding finish_run
finish status now r = elim r.active [
  | none ↦ (none, r)
  | some run ↦ (some (finish_run status now run), record r { active = none })
]

unfoldable pub current : RunStore → Option RunRecord
current r = r.active

unfoldable pub increment_actions : RunStore → RunStore
increment_actions r = elim r.active [
  | none ↦ r
  | some run ↦ record r { active = some (record run { action_count = run.action_count + 1 }) }
]

unfoldable pub new_bug : RecordBugOptions → ℤ → RunRecord → RunBugReport
unfolding bug_id text_or
new_bug opts now run = record {
  id = bug_id run.id (length run.findings + 1);
  title = opts.title;
  description = opts.description;
  screenshot_path = text_or [] opts.screenshot_path;
  timestamp = now;
}

-- `none` is ErrNoActiveRun.
unfoldable pub record_bug : RecordBugOptions → ℤ → RunStore → Option RunBugReport × RunStore
unfolding new_bug
record_bug opts now r = elim r.active [
  | none ↦ (none, r)
  | some run ↦ (
    some (new_bug opts now run),
    record r {
      active = some (record run { findings = run.findings ++ new_bug opts now run ∷ [] });
    },
  )
]
