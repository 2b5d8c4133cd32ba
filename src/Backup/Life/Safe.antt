-- ===== src/Backup/Life/Safe.antt =====
-- The steps that the runs of a backup job share: what they ask, and how they end.
use matrixone_operator.Base.{String, refl, inl, inr, true, some, List, ◌∷◌}
use matrixone_operator.Base.Run.{
  ignore_missing, not_found, conflict, refused, Answer, ok, err, ◌>>◌, answer,
}
use matrixone_operator.Base.Trace.{Extends}
use matrixone_operator.Base.Trace
use matrixone_operator.Backup.{
  Backup, JobStatus, BrCall, list_backups, delete_job, create_backup, update_status, BrServer,
  BrState, tell, set_status, set_phase, set_ended, send_status, fail_job, phase_completed,
}
use matrixone_operator.Backup.Job.{complete_backup}
use matrixone_operator.Backup.Life.{
  IsSound, Follows, same, more, Made, Backed, Broken, IsEarned, complete, broken, May, IsSafe, Safe,
}

module _ (k : BrServer) (base : List BrCall) where
  -- The record goes on from the base.
  pub Follows-any :
      {cs : List BrCall} → Follows (May k base) base cs → Extends (λ _. Unit {0}) base cs
  Follows-any same = Trace.same
  Follows-any (more c cs p f) = Trace.more c cs tt (Follows-any f)

  pub Made-now : (c : BrCall) (s : BrState) → IsSafe k base s → Made k base c s.calls (c ∷ s.calls)
  Made-now c s i = (Follows-any (IsSafe.allowed i), Trace.same)

  pub later :
      (c d : BrCall) (past cs : List BrCall) → Made k base c past cs → Made k base c past (d ∷ cs)
  later c d past cs (a, b) = (a, Trace.more d cs tt b)

  pub IsSafe-tell :
      (c : BrCall) (s : BrState) → May k base c s.calls → IsSafe k base s → IsSafe k base (tell c s)
  IsSafe-tell c s m i = record {
    allowed = more c s.calls m (IsSafe.allowed i);
    sound = IsSafe.sound i;
  }

  pub Backed-later : (d : BrCall) (cs : List BrCall) → Backed k base cs → Backed k base (d ∷ cs)
  Backed-later d cs (inl (past, b, bs, m, e)) = inl (past, b, bs, later list_backups d past cs m, e)
  Backed-later d cs (inr (past, b, m, e)) = inr (past, b, later (create_backup b) d past cs m, e)

  -- A status of one of the last phases, with the condition.
  pub send_status-Safe :
      (s : BrState) (st : JobStatus)
      → IsSafe k base s
      → IsSound st
      → IsEarned k base st s.calls
      → Safe k base (send_status k (record s { status = st }))
  send_status-Safe s st i sound earned = go (k.status_updated s.calls st)
    where
      sent : IsSafe k base (tell (update_status st) (record s { status = st }))
      sent = record {
        allowed = more (update_status st) s.calls (sound, earned) (IsSafe.allowed i);
        sound = sound;
      }

      go :
          (r : Answer (Unit {0}))
          → Safe k base (answer r (tell (update_status st) (record s { status = st })))
      go (ok a) = sent
      go (err e) = sent

  pub fail_job-Safe :
      (message : String) (s : BrState)
      → IsSafe k base s
      → Broken k base s.calls
      → Safe k base (fail_job k message s)
  unfolding fail_job
  fail_job-Safe message s i b = send_status-Safe s _ i refl (broken refl b)

  pub complete_backup-Safe :
      (b : Backup) (s : BrState)
      → IsSafe k base s
      → Backed k base s.calls
      → Safe k base (complete_backup k b s)
  unfolding complete_backup
  complete_backup-Safe b s i h = go (k.job_deleted s.calls)
    where
      asked : BrState
      asked = tell delete_job s

      asked-IsSafe : IsSafe k base asked
      asked-IsSafe = IsSafe-tell delete_job s h i

      sent : Safe k base (
          send_status k (record asked {
            status = record {
              phase = phase_completed;
              ended = some (record { holds = true; reason = "JobComplete"; message = "" });
              backup = b.backup_name;
            };
          }))
      sent =
          send_status-Safe asked _ asked-IsSafe refl
            (complete refl (Backed-later delete_job s.calls h))

      go :
          (r : Answer (Unit {0}))
          → Safe k base (
              (ignore_missing r
                  >> set_status (λ st. record st { backup = b.backup_name })
                  >> set_phase phase_completed
                  >> set_ended true "JobComplete" ""
                  >> send_status k)
                asked)
      go (ok a) = sent
      go (err not_found) = sent
      go (err conflict) = asked-IsSafe
      go (err refused) = asked-IsSafe
