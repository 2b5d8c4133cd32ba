-- ===== src/Backup/Life/Start.antt =====
-- syncJob of a backup: it is running only once its batch job is there.
use matrixone_operator.Base.{◌=s◌, String, ◌≡◌, refl, inl, inr, false, Option, none, some, List}
use matrixone_operator.Base.Run.{Ends-choice, Answer, ok, err, M, ◌>>=◌, ◌>>◌, answer}
use matrixone_operator.Backup.{
  BackupJob, BatchJob, Endpoint, BrCall, Creation, created, already_exists, rejected, read_cn_set,
  read_cluster, create_job, create_service, BrServer, BrState, tell, ensure, ignore_existing,
  set_phase, set_ended, send_status, phase_running,
}
use matrixone_operator.Backup.Job.{
  job_of, start_job, with_host, with_credential, from_cn_set, from_cluster, from_source,
}
use matrixone_operator.Backup.Life.{Accepted, running, IsSafe, Safe}
use matrixone_operator.Backup.Life.Safe.{Made-now, later, IsSafe-tell, send_status-Safe}

module _ (k : BrServer) (base : List BrCall) where
  start_job-Safe :
      (job : BatchJob) (s : BrState) → IsSafe k base s → Safe k base (start_job k job s)
  unfolding start_job
  start_job-Safe job s i = at_job (k.job_created s.calls job) refl
    where
      asked : BrState
      asked = tell (create_job job) s

      asked-IsSafe : IsSafe k base asked
      asked-IsSafe = IsSafe-tell k base (create_job job) s tt i

      both : BrState
      both = tell create_service asked

      both-IsSafe : IsSafe k base both
      both-IsSafe = IsSafe-tell k base create_service asked tt asked-IsSafe

      at_service :
          Accepted k base (k.job_created s.calls job)
          → (r : Creation)
          → Safe k base (
              (ignore_existing r
                  >> set_phase phase_running
                  >> set_ended false "JobRunning" ""
                  >> send_status k)
                both)
      at_service h created = send_status-Safe k base both _ both-IsSafe refl (
          running refl (
            s.calls,
            job,
            later k base (create_job job) create_service s.calls asked.calls
                (Made-now k base (create_job job) s i),
            h,
          ))
      at_service h already_exists = send_status-Safe k base both _ both-IsSafe refl (
          running refl (
            s.calls,
            job,
            later k base (create_job job) create_service s.calls asked.calls
                (Made-now k base (create_job job) s i),
            h,
          ))
      at_service h (rejected r) = both-IsSafe

      at_job :
          (r : Creation)
          → k.job_created s.calls job ≡ r
          → Safe k base (
              (ignore_existing r
                  >> ensure create_service (λ cs. k.service_created cs)
                  >> set_phase phase_running
                  >> set_ended false "JobRunning" ""
                  >> send_status k)
                asked)
      at_job created m = at_service (inl m) (k.service_created asked.calls)
      at_job already_exists m = at_service (inr m) (k.service_created asked.calls)
      at_job (rejected r) m = asked-IsSafe

  with_host-Safe :
      (j : BackupJob) (secret : String) (e : Endpoint) (s : BrState)
      → IsSafe k base s
      → Safe k base (with_host k j secret e s)
  with_host-Safe j secret e s i =
      Ends-choice _ _ (e.host =s "") _ _ s (λ _. i) (λ _. start_job-Safe (job_of k j secret e) s i)

  from_cn_set-Safe :
      (j : BackupJob) (cn : String) (o : Option String) (s : BrState)
      → IsSafe k base s
      → Safe k base (from_cn_set k j cn o s)
  unfolding from_cn_set
  from_cn_set-Safe j cn none s i = i
  from_cn_set-Safe j cn (some secret) s i = go (k.cn_set s.calls cn)
    where
      asked-IsSafe : IsSafe k base (tell (read_cn_set cn) s)
      asked-IsSafe = IsSafe-tell k base (read_cn_set cn) s tt i

      go :
          (r : Answer Endpoint)
          → Safe k base ((answer r >>= with_host k j secret) (tell (read_cn_set cn) s))
      go (err e) = asked-IsSafe
      go (ok e) = with_host-Safe j secret e _ asked-IsSafe

  from_cluster-Safe :
      (j : BackupJob) (o : Option String) (s : BrState)
      → IsSafe k base s
      → Safe k base (from_cluster k j o s)
  unfolding from_cluster
  from_cluster-Safe j none s i = i
  from_cluster-Safe j (some c) s i = go (k.cluster s.calls c)
    where
      asked : BrState
      asked = tell (read_cluster c) s

      asked-IsSafe : IsSafe k base asked
      asked-IsSafe = IsSafe-tell k base (read_cluster c) s tt i

      at_credential :
          (e : Endpoint) (o : Option String) → Safe k base (with_credential k j e o asked)
      at_credential e none = asked-IsSafe
      at_credential e (some secret) = with_host-Safe j secret e asked asked-IsSafe

      go :
          (r : Answer Endpoint)
          → Safe k base ((answer r >>= λ e. with_credential k j e e.credential) asked)
      go (err e) = asked-IsSafe
      go (ok e) = at_credential e e.credential

  pub from_source-Safe :
      (j : BackupJob) (s : BrState) → IsSafe k base s → Safe k base (from_source k j s)
  unfolding from_source
  from_source-Safe j s i = go j.source.cn_set_ref
    where
      go :
          (o : Option String)
          → Safe k base (
              (elim o as (λ _. M BrState (Unit {0})) [
                | some cn ↦ from_cn_set k j cn j.source.secret_ref
                | none ↦ from_cluster k j j.source.cluster_ref
              ])
                s)
      go none = from_cluster-Safe j j.source.cluster_ref s i
      go (some cn) = from_cn_set-Safe j cn j.source.secret_ref s i
