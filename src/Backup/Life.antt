-- ===== src/Backup/Life.antt =====
-- What the calls and the statuses of a backup job have to do with each other, whatever is answered.
pub mod Safe
pub mod Wait
pub mod Start
pub mod Whole
pub mod Reach
use matrixone_operator.Base.{
  ◌==◌, ◌=s◌, ℕ, ◌<◌, String, ◌≡◌, ◌⊎◌, Bool, true, false, ◌||◌, some, List, ◌∷◌,
}
use matrixone_operator.Base.Run.{not_found, ok, err, Run, Ends}
use matrixone_operator.Base.Trace.{Extends}
use matrixone_operator.Backup.{
  Backup, JobStatus, BatchJob, CmdStatus, BrCall, Creation, created, already_exists, list_backups,
  read_job, read_cmd_status, delete_job, create_backup, read_cn_set, read_cluster, read_backup,
  create_job, create_service, update_status, BrServer, BrState, holds_ended, phase_running,
  phase_completed, phase_failed,
}
use matrixone_operator.Backup.Job.{raw_meta, id_of}

-- The condition Ended holds in the two last phases, and in no other.
abbrev pub is_final : String → Bool
is_final p = p =s phase_completed || p =s phase_failed

abbrev pub IsSound : JobStatus → Type 0
IsSound st = holds_ended st.ended ≡ is_final st.phase

-- A record of calls, each of which was allowed by those before it.
pub data Follows (P : BrCall → List BrCall → Type 0) (base : List BrCall)
    : List BrCall → Type 0 where
  same : Follows P base base
  more : (c : BrCall) (cs : List BrCall) → P c cs → Follows P base cs → Follows P base (c ∷ cs)

module _ (k : BrServer) (base : List BrCall) where
  -- A call of this run, after `past`, is in the record `cs`.
  abbrev pub Made : BrCall → List BrCall → List BrCall → Type 0
  Made c past cs = Extends (λ _. Unit {0}) base past × Extends (λ _. Unit {0}) (c ∷ past) cs

  abbrev pub Accepted : Creation → Type 0
  Accepted r = (r ≡ created) ⊎ (r ≡ already_exists)

  -- The server has a Backup of this job: it was listed, or its creation was accepted.
  abbrev pub Backed : List BrCall → Type 0
  Backed cs =
      ((past : List BrCall) × (b : Backup) × (bs : List Backup) × Made list_backups past cs
        × (k.backups past ≡ ok (b ∷ bs)))
      ⊎ ((past : List BrCall) × (b : Backup) × Made (create_backup b) past cs
          × Accepted (k.backup_created past b))

  -- The job's container reported this status.
  abbrev pub Reported : CmdStatus → List BrCall → Type 0
  Reported st cs =
      (past : List BrCall) × Made read_cmd_status past cs
      × (k.cmd_status past ≡ some st)
      × (st.completed ≡ true)

  -- Why a backup failed: its job is gone, a pod of it failed, or its command did.
  abbrev pub Broken : List BrCall → Type 0
  Broken cs =
      ((past : List BrCall) × Made read_job past cs
        × ((k.job past ≡ err not_found) ⊎ ((n : ℕ) × (k.job past ≡ ok n) × (0 < n))))
      ⊎ ((st : CmdStatus) × Reported st cs × ((st.exit_code == 0) ≡ false))

  abbrev pub Started : List BrCall → Type 0
  Started cs =
      (past : List BrCall) × (job : BatchJob) × Made (create_job job) past cs
      × Accepted (k.job_created past job)

  -- The status that may be sent after the calls `cs`.
  pub data IsEarned (st : JobStatus) (cs : List BrCall) : Type 0 where
    complete : st.phase ≡ phase_completed → Backed cs → IsEarned st cs
    broken : st.phase ≡ phase_failed → Broken cs → IsEarned st cs
    running : st.phase ≡ phase_running → Started cs → IsEarned st cs

  -- What a call takes.
  abbrev pub May : BrCall → List BrCall → Type 0
  May delete_job cs = Backed cs
  May (update_status st) cs = IsSound st × IsEarned st cs
  May (create_backup b) cs =
      (st : CmdStatus) × Reported st cs
      × ((st.exit_code == 0) ≡ true)
      × (raw_meta st.stdout ≡ some b.raw)
      × (b.id ≡ id_of b.raw)
  May list_backups cs = Unit {0}
  May read_job cs = Unit {0}
  May read_cmd_status cs = Unit {0}
  May create_service cs = Unit {0}
  May (read_cn_set n) cs = Unit {0}
  May (read_cluster n) cs = Unit {0}
  May (read_backup n) cs = Unit {0}
  May (create_job b) cs = Unit {0}

  -- A run, so far: its calls, and the status.
  pub record IsSafe (s : BrState) : Type 0 where
    pub allowed : Follows May base s.calls
    pub sound : IsSound s.status

  abbrev pub Safe : {A : Type 0} → Run BrState A → Type 0
  Safe {A} r = Ends (λ _ t. IsSafe t) (λ _ t. IsSafe t) r
