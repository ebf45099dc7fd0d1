-- ===== src/Checklist/Checks.antt =====
-- The verdicts of office_connect/core/checklist/checks.py, without their messages and details.
use office_connect.Base.{Bool, true, false, Option, List, String, any, if◌then◌else◌}
use office_connect.Base.Attempts.{Attempt}
use office_connect.Json.{Json, Fields}
use office_connect.Checklist.Values.{Exception}

pub data CheckOutcome : Type 0 where
  passed flagged skipped : CheckOutcome

pub record CheckResult : Type 0 where
  pub check_type : String
  pub outcome : CheckOutcome
  pub reason : String
  pub remedy : Option String

abbrev pub is_flagged : CheckResult → Bool
is_flagged r = elim r.outcome [ CheckOutcome.flagged ↦ true | _ ↦ false ]

abbrev pub is_passed : CheckResult → Bool
is_passed r = elim r.outcome [ CheckOutcome.passed ↦ true | _ ↦ false ]

pub checks_outcome : List CheckResult → CheckOutcome
checks_outcome results =
    if any is_flagged results
    then CheckOutcome.flagged
    else if any is_passed results
    then CheckOutcome.passed
    else CheckOutcome.skipped

-- `run_auto_checks`
abbrev pub Runner : Type 0
Runner = Json → Fields → Attempt Exception (List CheckResult)
