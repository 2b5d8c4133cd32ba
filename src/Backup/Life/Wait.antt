-- ===== src/Backup/Life/Wait.antt =====
-- waitJob of a backup: the batch job is deleted only once a Backup exists.
use matrixone_operator.Base.{
  ltb, ◌==◌, ℕ, String, ◌≡◌, refl, sym, inl, inr, true, false, not, Option, none, some, List, [],
  ◌∷◌, arith,
}
use matrixone_operator.Base.Run.{
  Ends-choice, not_found, conflict, refused, Answer, ok, err, ◌>>=◌, ◌>>◌, answer,
}
use matrixone_operator.Backup.{
  BackupJob, Backup, CmdStatus, BrCall, Creation, created, already_exists, rejected, list_backups,
  read_job, read_cmd_status, create_backup, BrServer, BrState, tell, ignore_existing,
}
use matrixone_operator.Backup.Text.{prefix}
use matrixone_operator.Backup.Job.{
  raw_meta, id_of, backup_of, complete_backup, ensure_backup, succeed, on_cmd_status, on_job,
  on_backups, wait_for_job,
}
use matrixone_operator.Backup.Life.{is_final, Made, Reported, IsSafe, Safe}
use matrixone_operator.Backup.Life.Safe.{Made-now, IsSafe-tell, fail_job-Safe, complete_backup-Safe}

module _ (k : BrServer) (base : List BrCall) where
  succeed-Safe :
      (j : BackupJob) (st : CmdStatus) (s : BrState)
      → IsSafe k base s
      → Reported k base st s.calls
      → (st.exit_code == 0) ≡ true
      → (raw : Option String) → raw_meta st.stdout ≡ raw
      → Safe k base (succeed k j raw s)
  succeed-Safe j st s i rep zero_exit none e = i
  succeed-Safe j st s i rep zero_exit (some raw) e = at_id (prefix 5 (id_of raw))
    where
      at_id : (short : Option String) → Safe k base (ensure_backup k j raw short s)
      at_id none = i
      at_id (some short) = go (k.backup_created s.calls b) refl
        where
          b : Backup
          b = backup_of j raw short

          asked-IsSafe : IsSafe k base (tell (create_backup b) s)
          asked-IsSafe = IsSafe-tell k base (create_backup b) s (st, rep, zero_exit, e, refl) i

          go :
              (r : Creation)
              → k.backup_created s.calls b ≡ r
              → Safe k base ((ignore_existing r >> complete_backup k b) (tell (create_backup b) s))
          go created m =
              complete_backup-Safe k base b _ asked-IsSafe
                (inr (s.calls, b, Made-now k base (create_backup b) s i, inl m))
          go already_exists m =
              complete_backup-Safe k base b _ asked-IsSafe
                (inr (s.calls, b, Made-now k base (create_backup b) s i, inr m))
          go (rejected r) m = asked-IsSafe

  on_cmd_status-Safe :
      (j : BackupJob) (past : List BrCall) (s : BrState)
      → IsSafe k base s
      → Made k base read_cmd_status past s.calls
      → is_final s.status.phase ≡ false
      → (r : Option CmdStatus) → k.cmd_status past ≡ r
      → Safe k base (on_cmd_status k j r s)
  unfolding on_cmd_status
  on_cmd_status-Safe j past s i m going none e = i
  on_cmd_status-Safe j past s i m going (some st) e =
      Ends-choice _ _ (not st.completed) _ _ s
        (λ _. record { allowed = IsSafe.allowed i; sound = sym going })
        (λ over.
          Ends-choice _ _ (st.exit_code == 0) _ _ s
            (λ z.
              succeed-Safe j st s i (past, m, e, ground (arith, over)) z (raw_meta st.stdout) refl)
            (λ nz.
              fail_job-Safe k base st.stderr s i
                (inr (st, (past, m, e, ground (arith, over)), nz))))

  on_job-Safe :
      (j : BackupJob) (past : List BrCall) (s : BrState)
      → IsSafe k base s
      → Made k base read_job past s.calls
      → is_final s.status.phase ≡ false
      → (r : Answer ℕ) → k.job past ≡ r
      → Safe k base (on_job k j r s)
  unfolding on_job
  on_job-Safe j past s i m going (err not_found) e =
      fail_job-Safe k base _ s i (inl (past, m, inl e))
  on_job-Safe j past s i m going (err conflict) e = i
  on_job-Safe j past s i m going (err refused) e = i
  on_job-Safe j past s i m going (ok n) e =
      Ends-choice _ _ (ltb 0 n) _ _ s
        (λ some_failed.
          fail_job-Safe k base _ s i (inl (past, m, inr (n, e, ground (arith, some_failed)))))
        (λ _.
          on_cmd_status-Safe j s.calls (tell read_cmd_status s)
            (IsSafe-tell k base read_cmd_status s tt i) (Made-now k base read_cmd_status s i) going
            (k.cmd_status s.calls) refl)

  pub wait_for_job-Safe :
      (j : BackupJob) (s : BrState)
      → IsSafe k base s
      → is_final s.status.phase ≡ false
      → Safe k base (wait_for_job k j s)
  unfolding wait_for_job on_backups
  wait_for_job-Safe j s i going = go (k.backups s.calls) refl
    where
      asked : BrState
      asked = tell list_backups s

      asked-IsSafe : IsSafe k base asked
      asked-IsSafe = IsSafe-tell k base list_backups s tt i

      go :
          (r : Answer (List Backup))
          → k.backups s.calls ≡ r
          → Safe k base ((answer r >>= on_backups k j) asked)
      go (err e) m = asked-IsSafe
      go (ok []) m =
          on_job-Safe j asked.calls (tell read_job asked)
            (IsSafe-tell k base read_job asked tt asked-IsSafe)
            (Made-now k base read_job asked asked-IsSafe) going (k.job asked.calls) refl
      go (ok (b ∷ bs)) m =
          complete_backup-Safe k base b asked asked-IsSafe
            (inl (s.calls, b, bs, Made-now k base list_backups s i, m))
