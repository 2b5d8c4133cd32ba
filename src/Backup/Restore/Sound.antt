-- ===== src/Backup/Restore/Sound.antt =====
-- The condition Ended of a restore job goes with its phase.
use matrixone_operator.Base.{
  ltb, ◌==◌, ◌=s◌, if◌then◌else◌, ℕ, String, ◌≡◌, refl, ◌∙◌, Bool, true, false, not, ◌||◌, Option,
  none, some, List, arith,
}
use matrixone_operator.Base.Run.{
  ignore_missing, not_found, conflict, refused, Answer, ok, err, Run, ◌>>=◌, ◌>>◌, Ends, answer,
}
use matrixone_operator.Base.Run.{Ends-choice}
use matrixone_operator.Backup.{
  Backup, JobStatus, EnvVar, BatchJob, CmdStatus, Creation, created, already_exists, rejected,
  ignore_existing, read_job, read_cmd_status, read_backup, create_job, create_service, delete_job,
  BrServer, BrState, tell, call, ensure, set_phase, set_ended, update_status, send_status, fail_job,
  phase_pending, phase_running, phase_completed, phase_failed, holds_ended,
}
use matrixone_operator.Backup.Job.{nothing, wait_job, sync_job}
use matrixone_operator.Backup.Restore
use matrixone_operator.Backup.Restore.{
  RestoreJob, success_restore, on_cmd_status, on_job, wait_for_job, start_job, with_target,
  from_backup, sync_restore_job, observe, act, reconcile,
}
use matrixone_operator.Backup.Life.{IsSound}
use matrixone_operator.Backup.Life.Whole.{begin-IsSound}

-- The status is sound, however the run ends.
abbrev pub Sound : {A : Type 0} → Run BrState A → Type 0
Sound {A} r = Ends (λ _ t. IsSound t.status) (λ _ t. IsSound t.status) r

module _ (k : BrServer) where
  send_status-Sound : (s : BrState) → IsSound s.status → Sound (send_status k s)
  send_status-Sound s h = go (k.status_updated s.calls s.status)
    where
      go : (r : Answer (Unit {0})) → Sound (answer r (tell (update_status s.status) s))
      go (ok a) = h
      go (err e) = h

  fail_job-Sound : (message : String) (s : BrState) → Sound (fail_job k message s)
  unfolding fail_job
  fail_job-Sound message s = send_status-Sound _ refl

  success_restore-Sound : (s : BrState) → IsSound s.status → Sound (success_restore k s)
  unfolding success_restore
  success_restore-Sound s h = go (k.job_deleted s.calls)
    where
      go :
          (r : Answer (Unit {0}))
          → Sound (
              (ignore_missing r
                  >> set_phase phase_completed
                  >> set_ended true "JobComplete" ""
                  >> send_status k)
                (tell delete_job s))
      go (ok a) = send_status-Sound _ refl
      go (err not_found) = send_status-Sound _ refl
      go (err conflict) = h
      go (err refused) = h

  on_cmd_status-Sound :
      (r : Option CmdStatus) (s : BrState) → IsSound s.status → Sound (on_cmd_status k r s)
  unfolding on_cmd_status
  on_cmd_status-Sound none s h = h
  on_cmd_status-Sound (some st) s h =
      Ends-choice _ _ (not st.completed) _ _ s (λ _. h)
        (λ _.
          Ends-choice _ _ (st.exit_code == 0) _ _ s (λ _. success_restore-Sound s h)
            (λ _. fail_job-Sound st.stderr s))

  on_job-Sound : (r : Answer ℕ) (s : BrState) → IsSound s.status → Sound (on_job k r s)
  unfolding on_job
  on_job-Sound (err not_found) s h = fail_job-Sound _ s
  on_job-Sound (err conflict) s h = h
  on_job-Sound (err refused) s h = h
  on_job-Sound (ok n) s h =
      Ends-choice _ _ (ltb 0 n) _ _ s (λ _. fail_job-Sound _ s)
        (λ _. on_cmd_status-Sound (k.cmd_status s.calls) (tell read_cmd_status s) h)

  start_job-Sound :
      (job : BatchJob) (s : BrState)
      → holds_ended s.status.ended ≡ false
      → IsSound s.status
      → Sound (start_job k job s)
  unfolding start_job
  start_job-Sound job s going h = at_job (k.job_created s.calls job)
    where
      asked : BrState
      asked = tell (create_job job) s

      at_service :
          (r : Creation)
          → Sound (
              (ignore_existing r >> set_phase phase_running >> send_status k)
                (tell create_service asked))
      at_service created = send_status-Sound _ going
      at_service already_exists = send_status-Sound _ going
      at_service (rejected r) = h

      at_job :
          (r : Creation)
          → Sound (
              (ignore_existing r
                  >> ensure create_service (λ cs. k.service_created cs)
                  >> set_phase phase_running
                  >> send_status k)
                asked)
      at_job created = at_service (k.service_created asked.calls)
      at_job already_exists = at_service (k.service_created asked.calls)
      at_job (rejected r) = h

  with_target-Sound :
      (j : RestoreJob) (b : Backup) (o : Option (List EnvVar)) (s : BrState)
      → holds_ended s.status.ended ≡ false
      → IsSound s.status
      → Sound (with_target k j b o s)
  unfolding with_target
  with_target-Sound j b none s going h = h
  with_target-Sound j b (some env) s going h = start_job-Sound _ s going h

  read_backup-Sound :
      (j : RestoreJob) (s : BrState)
      → holds_ended s.status.ended ≡ false
      → IsSound s.status
      → Sound (
          (call (read_backup j.backup_name) (λ cs. k.backup cs j.backup_name) >>= from_backup k j)
            s)
  read_backup-Sound j s going h = go (k.backup s.calls j.backup_name)
    where
      go :
          (r : Answer Backup)
          → Sound ((answer r >>= from_backup k j) (tell (read_backup j.backup_name) s))
      go (err e) = h
      go (ok b) = with_target-Sound j b _ (tell (read_backup j.backup_name) s) going h

  -- Beginning does not touch the condition.
  begin-going :
      (b : Bool) (st : JobStatus)
      → holds_ended st.ended ≡ false
      → holds_ended (JobStatus.ended (if b then record st { phase = phase_pending } else st))
        ≡ false
  begin-going true st h = h
  begin-going false st h = h

  sync_restore_job-Sound :
      (j : RestoreJob) (s : BrState)
      → holds_ended s.status.ended ≡ false
      → IsSound s.status
      → Sound (sync_restore_job k j s)
  unfolding sync_restore_job
  sync_restore_job-Sound j s going h =
      read_backup-Sound j _ (begin-going (s.status.phase =s "") s.status going)
        (begin-IsSound s.status h)

  pub reconcile-Sound :
      (j : RestoreJob) (s : BrState) → IsSound s.status → Sound (Restore.reconcile k j s)
  unfolding Restore.reconcile Restore.observe wait_for_job
  reconcile-Sound j s h =
      at_final (s.status.phase =s phase_failed || s.status.phase =s phase_completed) refl
    where
      at_final :
          (b : Bool)
          → (s.status.phase =s phase_failed || s.status.phase =s phase_completed) ≡ b
          → Sound (
              act k j
                (if b
                  then nothing
                  else if s.status.phase =s phase_running
                  then wait_job
                  else sync_job)
                s)
      at_final true e = h
      at_final false e = at_phase (s.status.phase =s phase_running)
        where
          at_phase : (b : Bool) → Sound (act k j (if b then wait_job else sync_job) s)
          at_phase true = on_job-Sound (k.job s.calls) (tell read_job s) h
          at_phase false = sync_restore_job-Sound j s (h ∙ ground (arith, e)) h
