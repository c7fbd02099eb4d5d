-- ===== src/Scenario/SuiteReport/Run.antt =====
-- core/internal/scenario/suite.go: what `Run` reports of a suite.
use atomyx.Prelude.{Counts, Bool, ℕ, ◌+◌, ◌≡◌, ◌↔◌, List, Option, true, All, length}
use atomyx.Scenario.SuiteTypes.{
  SuiteEntry, entry_failed, SuiteEntryResult, SuiteResult, SuiteRunOptions, SuiteDeps, SuiteOutcome,
  suite_canceled, suite_done,
}
use atomyx.Scenario.Suite.{is_passed, suite_name_of}
use atomyx.Scenario.SuiteReport.{IsPassed, Recorded}

abbrev pub IsFailed : SuiteEntryResult → Type 0
IsFailed r = r.status ≡ entry_failed

-- A suite's result: the results of its entries, and what they add up to.
pub record Reports {W Step D : Type 0} (deps : SuiteDeps W Step D)
    (options : Option SuiteRunOptions) (entries : List SuiteEntry) (r : SuiteResult) : Type 0 where
  pub name_kept : r.suite_name ≡ suite_name_of deps 0 options
  pub entries_recorded : Recorded deps options entries r.entries
  pub counted : r.total ≡ length entries
  pub passed_counted : Counts IsPassed r.entries r.passed
  pub failed_counted : Counts IsFailed r.entries r.failed
  pub passed_or_failed : r.passed + r.failed ≡ r.total
  pub ok_all : (r.ok ≡ true) ↔ All IsPassed r.entries
  pub ok_none_failed : (r.ok ≡ true) ↔ (r.failed ≡ 0)

passes : SuiteEntryResult → Bool
passes r = is_passed r.status

module _ {W Step D : Type 0} (deps : SuiteDeps W Step D) (fuel : ℕ)
    (options : Option SuiteRunOptions) (entries : List SuiteEntry) where
  ReportsOutcome : SuiteOutcome × W → Type 0
  ReportsOutcome x = elim x.0 [
    | suite_canceled e ↦ Unit
    | suite_done r ↦ Reports deps options entries r
  ]
