-- ===== src/Backup/Tests.antt =====
-- Runs of the controllers of backups and restores, and the theorems at them.
use matrixone_operator.Base.{
  ltb, if◌then◌else◌, length, ◌+◌, ◌<◌, ◌≡◌, refl, ◌↔◌, true, false, none, some, [], ◌∷◌, ◌++◌,
}
use matrixone_operator.Base.Run.{not_found, conflict, ok, err, done, final}
use matrixone_operator.Base.Decimal.{show_int}
use matrixone_operator.Api.LogSet.{S3Provider}
use matrixone_operator.Backup
use matrixone_operator.Backup.{
  BackupJob, JobStatus, CmdStatus, created, BrServer, BrState, gc, holds_ended, fail_job, get_ttl,
  remove,
}
use matrixone_operator.Backup.Text.{
  strip_prefix, cut, split_once, second_of_two, trim_left, trim_right, prefix,
}
use matrixone_operator.Backup.Command.{s3_of, concat, backup_command}
use matrixone_operator.Backup.Job.{
  complete_backup, on_cmd_status, on_job, on_backups, wait_for_job, raw_meta, reconcile, observe,
}
use matrixone_operator.Backup.Restore.{target_env}
use matrixone_operator.Backup.Life.{Safe, is_final}
use matrixone_operator.Backup.Life.Whole.{reconcile-Safe}
use matrixone_operator.Backup.Life.Reach.{fresh_status, fresh, reconciled, backs_up, Reach-gc}

abbrev target : S3Provider
target = record {
  path = "bucket/dir";
  kind = some "minio";
  region = "";
  endpoint = "s3";
  secret = some "s3-secret";
  certificate = none;
  retention_policy = none;
}

abbrev job : BackupJob
job = record {
  namespace = "ns";
  name = "daily";
  ttl = none;
  source = record { cluster_ref = some "mo"; cn_set_ref = none; secret_ref = none };
  target = target;
}

abbrev report : CmdStatus
report = record {
  completed = true;
  stdout = "done META_DELIMITER 0189abc,100,s3\n";
  stderr = "";
  exit_code = 0;
}

meta_read : raw_meta (CmdStatus.stdout report) ≡ some "0189abc,100,s3"
unfolding raw_meta second_of_two cut strip_prefix trim_left trim_right
meta_read = refl

-- The batch job is there until it is deleted, by the fifth call; the status is not taken at first.
abbrev server : BrServer
server = record {
  backups = λ _. ok [];
  job = λ cs. if ltb 5 (length cs) then err not_found else ok 0;
  cmd_status = λ _. some report;
  backup_created = λ _ _. created;
  job_deleted = λ _. ok tt;
  cn_set = λ _ _. err not_found;
  cluster = λ _ _. ok (record { host = "mo"; port = 6001; credential = some "cred" });
  backup = λ _ _. err not_found;
  job_created = λ _ _. created;
  service_created = λ _. created;
  status_updated = λ cs _. if ltb 6 (length cs) then ok tt else err conflict;
  upsert_env = λ env e. env ++ e ∷ [];
}

abbrev running_status : JobStatus
running_status = record {
  phase = "Running";
  ended = some (record { holds = false; reason = "JobRunning"; message = "" });
  backup = "";
}

abbrev start : BrState
start = record { status = running_status; calls = [] }

-- The Backup is created and the batch job deleted, but the status meets a conflict.
unfoldable first_run : BrState
first_run = final (reconcile server job start)

-- The next run finds no batch job, and says that the backup failed.
completed_backup_fails :
    BrState.status
      (final (reconcile server job (record { status = running_status; calls = first_run.calls })))
    ≡ record {
      phase = "Failed";
      ended =
          some
            (record { holds = true; reason = "JobFailed"; message = "job is cleaned externally" });
      backup = "";
    }
unfolding first_run reconcile observe wait_for_job on_backups on_job on_cmd_status complete_backup
    fail_job raw_meta second_of_two cut split_once strip_prefix trim_left trim_right prefix
completed_backup_fails = refl

-- The target's variables take the source's secret, or nothing at all.
target_takes_source :
    target_env (some "of-target") (some "of-source")
    ≡ some (
        Backup.of_secret "RESTORE_ACCESS_KEY_ID" "of-source" "AWS_ACCESS_KEY_ID"
        ∷ Backup.of_secret "RESTORE_SECRET_ACCESS_KEY" "of-source" "AWS_SECRET_ACCESS_KEY"
        ∷ [])
unfolding target_env
target_takes_source = refl

command_text :
    backup_command "mo" 6001 (s3_of target)
    ≡ "/mo_br backup --host=mo --port=6001 --user=$MO_USER --password=$MO_PASSWORD --backup_dir=s3 --endpoint=s3 --bucket=bucket --filepath=dir --is_minio --access_key_id=$AWS_ACCESS_KEY_ID --secret_access_key=$AWS_SECRET_ACCESS_KEY && echo META_DELIMITER && cat /mo_br.meta"
unfolding backup_command s3_of concat split_once cut strip_prefix show_int
command_text = refl

reconcile-Safe_example :
    Safe server [] (reconcile server job start)
    × (holds_ended running_status.ended ≡ true → reconcile server job start ≡ done tt start)
reconcile-Safe_example = reconcile-Safe server job start refl

-- A new job, after its first reconciliation.
abbrev started : JobStatus
started =
    BrState.status (final (reconcile server job (record { status = fresh_status; calls = [] })))

Reach-gc_example :
    (gc started.ended 10 9999 none ≡ remove)
    ↔ ((is_final started.phase ≡ true) × (10 + get_ttl none < 9999))
Reach-gc_example =
    Reach-gc (λ k. reconcile k job) (backs_up job) started (reconciled fresh_status server [] fresh)
      10 9999 none
