-- ===== src/Backup/Restore.antt =====
-- The controller of restore jobs: pkg/controllers/br/restore_controller.go.
pub mod Sound
use matrixone_operator.Base.{
  ltb, ◌==◌, ◌=s◌, if◌then◌else◌, ℕ, String, true, not, ◌||◌, Option, none, some, List, [], ◌∷◌,
}
use matrixone_operator.Base.Run.{
  not_found, conflict, refused, api, resync, failed, Answer, ok, err, M, ◌>>=◌, ◌>>◌, pure, throw,
}
use matrixone_operator.Api.LogSet.{S3Provider}
use matrixone_operator.Backup.{
  Backup, JobStatus, EnvVar, value, of_secret, BatchJob, CmdStatus, read_job, read_cmd_status,
  read_backup, create_job, create_service, BrServer, BrState, tell, call, ensure, set_status,
  set_phase, set_ended, send_status, fail_job, delete_batch_job, phase_pending, phase_running,
  phase_completed, phase_failed,
}
use matrixone_operator.Backup.Command.{s3_of, restore_command, is_some}
use matrixone_operator.Backup.Job.{JobAction, nothing, wait_job, sync_job, upsert_all}

-- RestoreJob without its status.
pub record RestoreJob : Type 0 where
  pub backup_name : String
  pub ttl : Option ℕ
  pub target : S3Provider

abbrev source_env : Option String → List EnvVar
source_env none = []
source_env (some s) =
    of_secret "AWS_ACCESS_KEY_ID" s "AWS_ACCESS_KEY_ID"
    ∷ of_secret "AWS_SECRET_ACCESS_KEY" s "AWS_SECRET_ACCESS_KEY"
    ∷ []

-- The variables of the target, which refer to the source's secret; `none` where that is nil.
unfoldable pub target_env : Option String → Option String → Option (List EnvVar)
target_env none source = some []
target_env (some t) none = none
target_env (some t) (some s) = some (
    of_secret "RESTORE_ACCESS_KEY_ID" s "AWS_ACCESS_KEY_ID"
    ∷ of_secret "RESTORE_SECRET_ACCESS_KEY" s "AWS_SECRET_ACCESS_KEY"
    ∷ [])

module _ (k : BrServer) where
  -- successRestore
  unfoldable pub success_restore : M BrState (Unit {0})
  success_restore =
      delete_batch_job k
      >> set_phase phase_completed
      >> set_ended true "JobComplete" ""
      >> send_status k

  unfoldable pub on_cmd_status : Option CmdStatus → M BrState (Unit {0})
  on_cmd_status none = throw failed
  on_cmd_status (some st) =
      if not st.completed
      then throw (resync 15)
      else if st.exit_code == 0
      then success_restore
      else fail_job k st.stderr

  abbrev pub ask_cmd_status : M BrState (Unit {0})
  ask_cmd_status s = on_cmd_status (k.cmd_status s.calls) (tell read_cmd_status s)

  unfoldable pub on_job : Answer ℕ → M BrState (Unit {0})
  on_job (err not_found) = fail_job k "job is cleaned externally"
  on_job (err conflict) = throw (api conflict)
  on_job (err refused) = throw (api refused)
  on_job (ok pods_failed) =
      if ltb 0 pods_failed then fail_job k "backup job is failed" else ask_cmd_status

  -- waitJob
  unfoldable pub wait_for_job : M BrState (Unit {0})
  wait_for_job s = on_job (k.job s.calls) (tell read_job s)

  unfoldable pub start_job : BatchJob → M BrState (Unit {0})
  start_job job =
      ensure (create_job job) (λ cs. k.job_created cs job)
      >> ensure create_service (λ cs. k.service_created cs)
      >> set_phase phase_running
      >> send_status k

  unfoldable pub with_target : RestoreJob → Backup → Option (List EnvVar) → M BrState (Unit {0})
  with_target j b none = throw failed
  with_target j b (some env) = start_job (record {
    command = restore_command b.id (is_some b.location.secret) (s3_of j.target);
    env =
        upsert_all k (upsert_all k (value "RAW_META" b.raw ∷ []) (source_env b.location.secret))
          env;
  })

  abbrev pub from_backup : RestoreJob → Backup → M BrState (Unit {0})
  from_backup j b = with_target j b (target_env j.target.secret b.location.secret)

  -- syncJob
  unfoldable pub sync_restore_job : RestoreJob → M BrState (Unit {0})
  sync_restore_job j =
      set_status (λ st. if st.phase =s "" then record st { phase = phase_pending } else st)
      >> call (read_backup j.backup_name) (λ cs. k.backup cs j.backup_name)
      >>= from_backup j

  -- Observe
  unfoldable pub observe : JobStatus → JobAction
  observe st =
      if st.phase =s phase_failed || st.phase =s phase_completed
      then nothing
      else if st.phase =s phase_running
      then wait_job
      else sync_job

  abbrev pub act : RestoreJob → JobAction → M BrState (Unit {0})
  act j nothing = pure tt
  act j wait_job = wait_for_job
  act j sync_job = sync_restore_job j

  unfoldable pub reconcile : RestoreJob → M BrState (Unit {0})
  reconcile j s = act j (observe s.status) s
