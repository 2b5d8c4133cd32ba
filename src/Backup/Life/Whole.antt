-- ===== src/Backup/Life/Whole.antt =====
-- One reconciliation of a backup job.
use matrixone_operator.Base.{
  ◌=s◌, if◌then◌else◌, =s_iff, String, ◌≡◌, refl, ap, ◌∙◌, Bool, true, false,
}
use matrixone_operator.Base.Run.{done}
use matrixone_operator.Backup.{
  BackupJob, JobStatus, BrServer, BrState, holds_ended, phase_pending, phase_running,
}
use matrixone_operator.Backup.Job.{
  observe, act, reconcile, nothing, wait_job, sync_job, sync_backup_job,
}
use matrixone_operator.Backup.Life.{is_final, IsSound, same, IsSafe, Safe}
use matrixone_operator.Backup.Life.Wait.{wait_for_job-Safe}
use matrixone_operator.Backup.Life.Start.{from_source-Safe}

-- A job that has not ended may begin, and is pending at least.
pub begin-IsSound :
    (st : JobStatus)
    → IsSound st
    → IsSound (if st.phase =s "" then record st { phase = phase_pending } else st)
begin-IsSound st sound = go (st.phase =s "") refl
  where
    go :
        (b : Bool)
        → (st.phase =s "") ≡ b
        → IsSound (if b then record st { phase = phase_pending } else st)
    go false e = sound
    go true e = sound ∙ ap is_final ((=s_iff st.phase "").0 e)

pub running-is_final : (p : String) → (p =s phase_running) ≡ true → is_final p ≡ false
running-is_final p e = ap is_final ((=s_iff p phase_running).0 e)

module _ (k : BrServer) (j : BackupJob) where
  start-IsSafe : (s : BrState) → IsSound s.status → IsSafe k s.calls s
  start-IsSafe s sound = record { allowed = same; sound = sound }

  sync_backup_job-Safe : (s : BrState) → IsSound s.status → Safe k s.calls (sync_backup_job k j s)
  unfolding sync_backup_job
  sync_backup_job-Safe s sound =
      from_source-Safe k s.calls j _
        (record { allowed = same; sound = begin-IsSound s.status sound })

  -- A reconciliation of a backup job whose condition Ended goes with its phase: it keeps this so,
  -- and it deletes the batch job only after the server listed a Backup of the job or took the new
  -- one, which it creates only from the output of a command that ended with exit code 0. It sends
  -- a status only if it is earned: Completed with such a Backup, Failed when the batch job is
  -- missing, a pod of it failed or its command did, Running once the server has the batch job. A
  -- job that has ended is left alone, without a call.
  pub reconcile-Safe :
      (s : BrState)
      → IsSound s.status
      → Safe k s.calls (reconcile k j s)
        × (holds_ended s.status.ended ≡ true → reconcile k j s ≡ done tt s)
  unfolding reconcile observe
  reconcile-Safe s sound = (whole, λ over. rw over refl)
    where
      whole : Safe k s.calls (act k j (observe k s.status) s)
      whole = at_ended (holds_ended s.status.ended)
        where
          at_ended :
              (b : Bool)
              → Safe k s.calls (
                  act k j
                    (if b
                      then nothing
                      else if s.status.phase =s phase_running
                      then wait_job
                      else sync_job)
                    s)
          at_ended true = start-IsSafe s sound
          at_ended false = at_phase (s.status.phase =s phase_running) refl
            where
              at_phase :
                  (b : Bool)
                  → (s.status.phase =s phase_running) ≡ b
                  → Safe k s.calls (act k j (if b then wait_job else sync_job) s)
              at_phase true e =
                  wait_for_job-Safe k s.calls j s (start-IsSafe s sound)
                    (running-is_final s.status.phase e)
              at_phase false e = sync_backup_job-Safe s sound
