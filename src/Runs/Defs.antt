-- ===== src/Runs/Defs.antt =====
-- Rows of the table `runs` (src/cells/user-cell.ts and `triageColumns`), the inputs of src/runs/triage-args.ts.
use kody_celld.Prelude.{ℕ, Bool, true, false, Option, List, Text}

pub data RunStatus : Type 0 where
  running success error : RunStatus

abbrev pub is_error : RunStatus → Bool
is_error error = true
is_error _ = false

pub data RunErrorTriage : Type 0 where
  ignored resolved : RunErrorTriage

abbrev pub same_triage : RunErrorTriage → RunErrorTriage → Bool
same_triage ignored ignored = true
same_triage resolved resolved = true
same_triage _ _ = false

-- `'ignored' | 'resolved' | 'open'`
pub data RunTriageUpdate : Type 0 where
  set : RunErrorTriage → RunTriageUpdate
  reopen : RunTriageUpdate

-- `'ignored' | 'resolved' | 'open' | 'all'`
pub data ErrorTriageFilter : Type 0 where
  triaged_as : RunErrorTriage → ErrorTriageFilter
  only_open : ErrorTriageFilter
  all_triage : ErrorTriageFilter

-- `error_name` and `error_message` are what json_extract reads of `error_json`.
pub record RunRow : Type 0 where
  pub id : Text
  pub kind : Text
  pub package_name : Option Text
  pub job_id : Option Text
  pub status : RunStatus
  pub created_at : ℕ
  pub error_name : Option Text
  pub error_message : Option Text
  pub error_triage : Option RunErrorTriage
  pub triage_note : Option Text
  pub triaged_at : Option ℕ
  pub triaged_by : Option Text

pub record BulkFilter : Type 0 where
  pub kind : Option Text
  pub package_name : Option Text
  pub job_id : Option Text
  pub error_name : Option Text
  pub error_message : Option Text
  pub error_triage : ErrorTriageFilter

-- `RunTriageBulkInput & { by: string }`
pub record BulkInput : Type 0 where
  pub run_ids : Option (List Text)
  pub filter : Option BulkFilter
  pub triage : RunTriageUpdate
  pub note : Option Text
  pub limit : ℕ
  pub dry_run : Bool
  pub by : Text
