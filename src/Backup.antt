-- ===== src/Backup.antt =====
-- Backup and restore jobs: their status, the calls that the controllers of pkg/controllers/br make, and
-- the server that answers them. The types are those of api/core/v1alpha1/br_types.go.
pub mod Text
pub mod Command
pub mod Job
pub mod Restore
pub mod Life
mod Tests
use matrixone_operator.Base.{
  ltb, if◌then◌else◌, ℕ, ◌+◌, ◌-◌, String, Bool, true, false, not, Option, none, some, List, ◌∷◌,
}
use matrixone_operator.Base.Run.{
  ignore_missing, ApiError, not_found, conflict, refused, api, Answer, ok, err, done, M, ◌>>◌, pure,
  throw, answer,
}
use matrixone_operator.Api.LogSet.{S3Provider, or_default}

abbrev pub phase_pending : String
phase_pending = "Pending"

abbrev pub phase_running : String
phase_running = "Running"

abbrev pub phase_completed : String
phase_completed = "Completed"

abbrev pub phase_failed : String
phase_failed = "Failed"

-- `1 * time.Hour`
abbrev pub default_ttl : ℕ
default_ttl = 3600

pub record BackupSource : Type 0 where
  pub cluster_ref : Option String
  pub cn_set_ref : Option String
  pub secret_ref : Option String

-- BackupJob without its status. The target is S3 storage, the only one that the code reads.
pub record BackupJob : Type 0 where
  pub namespace : String
  pub name : String
  pub ttl : Option ℕ
  pub source : BackupSource
  pub target : S3Provider

-- GetTTL
abbrev pub get_ttl : Option ℕ → ℕ
get_ttl ttl = or_default default_ttl ttl

-- Backup and its meta data, without the times.
pub record Backup : Type 0 where
  pub backup_name : String
  pub location : S3Provider
  pub id : String
  pub source_ref : String
  pub raw : String

-- The condition Ended.
pub record Ended : Type 0 where
  pub holds : Bool
  pub reason : String
  pub message : String

-- The status of a job. A restore job has no backup.
pub record JobStatus : Type 0 where
  pub phase : String
  pub ended : Option Ended
  pub backup : String

pub data EnvVar : Type 0 where
  value : String → String → EnvVar
  of_secret : String → String → String → EnvVar

-- What a batch job runs.
pub record BatchJob : Type 0 where
  pub command : String
  pub env : List EnvVar

-- The status that the job's container reports.
pub record CmdStatus : Type 0 where
  pub completed : Bool
  pub stdout : String
  pub stderr : String
  pub exit_code : ℕ

-- The status of a CNSet or of a cluster: where to connect, and the secret of its credential.
pub record Endpoint : Type 0 where
  pub host : String
  pub port : ℕ
  pub credential : Option String

pub data BrCall : Type 0 where
  list_backups read_job read_cmd_status delete_job create_service : BrCall
  create_backup : Backup → BrCall
  read_cn_set read_cluster read_backup : String → BrCall
  create_job : BatchJob → BrCall
  update_status : JobStatus → BrCall

-- What a request to create answers.
pub data Creation : Type 0 where
  created already_exists : Creation
  rejected : ApiError → Creation

-- The API server, the job's container, and util.UpsertByKey.
pub record BrServer : Type 0 where
  pub backups : List BrCall → Answer (List Backup)
  -- how many pods of the job failed
  pub job : List BrCall → Answer ℕ
  pub cmd_status : List BrCall → Option CmdStatus
  pub backup_created : List BrCall → Backup → Creation
  pub job_deleted : List BrCall → Answer (Unit {0})
  pub cn_set : List BrCall → String → Answer Endpoint
  pub cluster : List BrCall → String → Answer Endpoint
  pub backup : List BrCall → String → Answer Backup
  pub job_created : List BrCall → BatchJob → Creation
  pub service_created : List BrCall → Creation
  pub status_updated : List BrCall → JobStatus → Answer (Unit {0})
  pub upsert_env : List EnvVar → EnvVar → List EnvVar

-- A run changes the status in memory, and makes calls, the latest first.
pub record BrState : Type 0 where
  pub status : JobStatus
  pub calls : List BrCall

abbrev pub tell : BrCall → BrState → BrState
tell c s = record s { calls = c ∷ s.calls }

abbrev pub call {ℓ} : {A : Type ℓ} → BrCall → (List BrCall → Answer A) → M BrState A
call c f s = answer (f s.calls) (tell c s)

-- `util.Ignore(apierrors.IsAlreadyExists, …)`
abbrev pub ignore_existing : Creation → M BrState (Unit {0})
ignore_existing created = pure tt
ignore_existing already_exists = pure tt
ignore_existing (rejected e) = throw (api e)

abbrev pub ensure : BrCall → (List BrCall → Creation) → M BrState (Unit {0})
ensure c f s = ignore_existing (f s.calls) (tell c s)

abbrev pub set_status : (JobStatus → JobStatus) → M BrState (Unit {0})
set_status f s = done tt (record s { status = f s.status })

abbrev pub set_phase : String → M BrState (Unit {0})
set_phase p = set_status (λ st. record st { phase = p })

-- meta.SetStatusCondition
abbrev pub set_ended : Bool → String → String → M BrState (Unit {0})
set_ended b r m =
    set_status (λ st. record st { ended = some (record { holds = b; reason = r; message = m }) })

abbrev pub holds_ended : Option Ended → Bool
holds_ended none = false
holds_ended (some c) = c.holds

module _ (k : BrServer) where
  -- ctx.UpdateStatus
  abbrev pub send_status : M BrState (Unit {0})
  send_status s = call (update_status s.status) (λ cs. k.status_updated cs s.status) s

  -- failBackup and failRestore
  unfoldable pub fail_job : String → M BrState (Unit {0})
  fail_job message = set_phase phase_failed >> set_ended true "JobFailed" message >> send_status

  abbrev pub delete_batch_job : M BrState (Unit {0})
  delete_batch_job s = ignore_missing (k.job_deleted s.calls) (tell delete_job s)

  -- Finalize of both: the job is gone only when the server says so.
  abbrev finalize_answer : Answer (Unit {0}) → M BrState Bool
  finalize_answer (ok a) = pure false
  finalize_answer (err not_found) = pure true
  finalize_answer (err conflict) = throw (api conflict)
  finalize_answer (err refused) = throw (api refused)

  unfoldable pub finalize : M BrState Bool
  finalize s = finalize_answer (k.job_deleted s.calls) (tell delete_job s)

-- What the garbage collector does with a job.
pub data GcAction : Type 0 where
  keep remove : GcAction
  wait : ℕ → GcAction

-- Observe of gc_controller.go: from the condition Ended, and the time of its last change.
unfoldable pub gc : Option Ended → ℕ → ℕ → Option ℕ → GcAction
gc ended since now ttl =
    if not (holds_ended ended)
    then keep
    else if ltb (since + get_ttl ttl) now
    then remove
    else wait (since + get_ttl ttl - now)
