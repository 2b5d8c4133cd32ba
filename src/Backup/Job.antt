-- ===== src/Backup/Job.antt =====
-- The controller of backup jobs: pkg/controllers/br/backup_controller.go.
use matrixone_operator.Base.{
  ltb, ◌==◌, ◌=s◌, if◌then◌else◌, ℕ, String, true, false, not, Option, none, some, List, [], ◌∷◌,
}
use matrixone_operator.Base.Run.{
  not_found, conflict, refused, api, resync, failed, Answer, ok, err, M, ◌>>=◌, ◌>>◌, pure, throw,
}
use Prim.Native.String.{◌++◌ as join}
use matrixone_operator.Backup.{
  BackupJob, Backup, JobStatus, EnvVar, of_secret, BatchJob, CmdStatus, Endpoint, list_backups,
  read_job, read_cmd_status, create_backup, read_cn_set, read_cluster, create_job, create_service,
  BrServer, BrState, tell, call, ensure, set_status, set_phase, set_ended, holds_ended, send_status,
  fail_job, delete_batch_job, phase_pending, phase_running, phase_completed,
}
use matrixone_operator.Backup.Text.{split_once, second_of_two, trim, prefix}
use matrixone_operator.Backup.Command.{s3_of, backup_command, meta_delimiter}

pub data JobAction : Type 0 where
  nothing wait_job sync_job : JobAction

-- GetSourceRef
abbrev pub get_source_ref : BackupJob → String
get_source_ref j = elim j.source.cluster_ref [
  | some c ↦ join "matrixonecluster/" (join j.namespace (join "/" c))
  | none ↦ (elim j.source.cn_set_ref [
    | some c ↦ join "cnset/" (join j.namespace (join "/" c))
    | none ↦ ""
  ])
]

-- The text that follows the delimiter in the output; a space is 32 and a line feed 10.
unfoldable pub raw_meta : String → Option String
raw_meta stdout = elim (second_of_two meta_delimiter stdout) [
  | none ↦ none
  | some p ↦ some (trim 10 (trim 32 p))
]

abbrev pub id_of : String → String
id_of raw = (split_once "," raw).0

abbrev pub backup_of : BackupJob → String → String → Backup
backup_of j raw short = record {
  backup_name = join j.name (join "-" short);
  location = j.target;
  id = id_of raw;
  source_ref = get_source_ref j;
  raw = raw;
}

abbrev secret_env : Option String → List EnvVar
secret_env none = []
secret_env (some s) =
    of_secret "AWS_ACCESS_KEY_ID" s "AWS_ACCESS_KEY_ID"
    ∷ of_secret "AWS_SECRET_ACCESS_KEY" s "AWS_SECRET_ACCESS_KEY"
    ∷ []

module _ (k : BrServer) where
  abbrev pub upsert_all : List EnvVar → List EnvVar → List EnvVar
  upsert_all env [] = env
  upsert_all env (e ∷ es) = upsert_all (k.upsert_env env e) es

  -- completeBackup
  unfoldable pub complete_backup : Backup → M BrState (Unit {0})
  complete_backup b =
      delete_batch_job k
      >> set_status (λ st. record st { backup = b.backup_name })
      >> set_phase phase_completed
      >> set_ended true "JobComplete" ""
      >> send_status k

  -- `id[:5]` panics where the id is shorter, and the run ends.
  abbrev pub ensure_backup : BackupJob → String → Option String → M BrState (Unit {0})
  ensure_backup j raw none = throw failed
  ensure_backup j raw (some short) =
      ensure (create_backup (backup_of j raw short))
        (λ cs. k.backup_created cs (backup_of j raw short))
      >> complete_backup (backup_of j raw short)

  abbrev pub succeed : BackupJob → Option String → M BrState (Unit {0})
  succeed j none = throw failed
  succeed j (some raw) = ensure_backup j raw (prefix 5 (id_of raw))

  -- From the status that the job's container reports.
  unfoldable pub on_cmd_status : BackupJob → Option CmdStatus → M BrState (Unit {0})
  on_cmd_status j none = throw failed
  on_cmd_status j (some st) =
      if not st.completed
      then set_ended false "JobRunning" "" >> throw (resync 15)
      else if st.exit_code == 0
      then succeed j (raw_meta st.stdout)
      else fail_job k st.stderr

  abbrev pub ask_cmd_status : BackupJob → M BrState (Unit {0})
  ask_cmd_status j s = on_cmd_status j (k.cmd_status s.calls) (tell read_cmd_status s)

  unfoldable pub on_job : BackupJob → Answer ℕ → M BrState (Unit {0})
  on_job j (err not_found) = fail_job k "job is cleaned externally"
  on_job j (err conflict) = throw (api conflict)
  on_job j (err refused) = throw (api refused)
  on_job j (ok pods_failed) =
      if ltb 0 pods_failed then fail_job k "backup job is failed" else ask_cmd_status j

  unfoldable pub on_backups : BackupJob → List Backup → M BrState (Unit {0})
  on_backups j (b ∷ bs) = complete_backup b
  on_backups j [] = λ s. on_job j (k.job s.calls) (tell read_job s)

  -- waitJob
  unfoldable pub wait_for_job : BackupJob → M BrState (Unit {0})
  wait_for_job j = call list_backups (λ cs. k.backups cs) >>= on_backups j

  abbrev pub job_of : BackupJob → String → Endpoint → BatchJob
  job_of j secret e = record {
    command = backup_command e.host e.port (s3_of j.target);
    env =
        upsert_all
          (of_secret "MO_USER" secret "username" ∷ of_secret "MO_PASSWORD" secret "password" ∷ [])
          (secret_env j.target.secret);
  }

  unfoldable pub start_job : BatchJob → M BrState (Unit {0})
  start_job job =
      ensure (create_job job) (λ cs. k.job_created cs job)
      >> ensure create_service (λ cs. k.service_created cs)
      >> set_phase phase_running
      >> set_ended false "JobRunning" ""
      >> send_status k

  abbrev pub with_host : BackupJob → String → Endpoint → M BrState (Unit {0})
  with_host j secret e = if e.host =s "" then throw failed else start_job (job_of j secret e)

  abbrev pub with_credential : BackupJob → Endpoint → Option String → M BrState (Unit {0})
  with_credential j e none = throw failed
  with_credential j e (some secret) = with_host j secret e

  unfoldable pub from_cn_set : BackupJob → String → Option String → M BrState (Unit {0})
  from_cn_set j cn none = throw failed
  from_cn_set j cn (some secret) =
      call (read_cn_set cn) (λ cs. k.cn_set cs cn) >>= with_host j secret

  unfoldable pub from_cluster : BackupJob → Option String → M BrState (Unit {0})
  from_cluster j none = throw failed
  from_cluster j (some c) =
      call (read_cluster c) (λ cs. k.cluster cs c) >>= λ e. with_credential j e e.credential

  unfoldable pub from_source : BackupJob → M BrState (Unit {0})
  from_source j = elim j.source.cn_set_ref [
    | some cn ↦ from_cn_set j cn j.source.secret_ref
    | none ↦ from_cluster j j.source.cluster_ref
  ]

  -- syncJob
  unfoldable pub sync_backup_job : BackupJob → M BrState (Unit {0})
  sync_backup_job j =
      set_status (λ st. if st.phase =s "" then record st { phase = phase_pending } else st)
      >> from_source j

  -- Observe
  unfoldable pub observe : JobStatus → JobAction
  observe st =
      if holds_ended st.ended
      then nothing
      else if st.phase =s phase_running
      then wait_job
      else sync_job

  abbrev pub act : BackupJob → JobAction → M BrState (Unit {0})
  act j nothing = pure tt
  act j wait_job = wait_for_job j
  act j sync_job = sync_backup_job j

  -- Observe and the action that it chooses.
  unfoldable pub reconcile : BackupJob → M BrState (Unit {0})
  reconcile j s = act j (observe s.status) s
