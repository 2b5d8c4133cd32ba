-- ===== src/Backup/Life/Reach.antt =====
-- The statuses that jobs come to over many reconciliations, and when the garbage collector removes them.
use matrixone_operator.Base.{
  ltb, if◌then◌else◌, ltb→lt, lt→ltb, ℕ, ◌+◌, ◌-◌, ◌<◌, ◌≡◌, refl, sym, ap, ◌∙◌, ◌↔◌, Bool, true,
  false, not, Option, none, List,
}
use matrixone_operator.Base.Run.{Run, done, fail, M, final, Ends, Ends-map}
use matrixone_operator.Backup.{
  BackupJob, JobStatus, Ended, BrCall, BrServer, BrState, holds_ended, get_ttl, gc, GcAction, keep,
  remove, wait,
}
use matrixone_operator.Backup.Job
use matrixone_operator.Backup.Restore
use matrixone_operator.Backup.Restore.{RestoreJob}
use matrixone_operator.Backup.Restore.Sound.{reconcile-Sound}
use matrixone_operator.Backup.Life.{is_final, IsSound, IsSafe}
use matrixone_operator.Backup.Life.Whole.{reconcile-Safe}

abbrev pub fresh_status : JobStatus
fresh_status = record { phase = ""; ended = none; backup = "" }

-- From a new job, by reconciliations that may each meet another server and another record of calls.
-- After one of them the status on the server is the one in memory, or still the old one.
pub data Reach (run : BrServer → M BrState (Unit {0})) : JobStatus → Type 0 where
  fresh : Reach run fresh_status
  reconciled :
      (st : JobStatus) (k : BrServer) (cs : List BrCall)
      → Reach run st
      → Reach run (BrState.status (final (run k (record { status = st; calls = cs }))))

at_end :
    (P : BrState → Type 0) (r : Run BrState (Unit {0}))
    → Ends (λ _ t. P t) (λ _ t. P t) r
    → P (final r)
at_end P (done a s) h = h
at_end P (fail e s) h = h

Reach-IsSound :
    (run : BrServer → M BrState (Unit {0}))
    → ((k : BrServer) (s : BrState) → IsSound s.status → IsSound (BrState.status (final (run k s))))
    → (st : JobStatus) → Reach run st
    → IsSound st
Reach-IsSound run keeps _ fresh = refl
Reach-IsSound run keeps _ (reconciled st k cs r) =
    keeps k (record { status = st; calls = cs }) (Reach-IsSound run keeps st r)

-- A run of one of the two controllers.
pub data BrRun : (BrServer → M BrState (Unit {0})) → Type 1 where
  backs_up : (j : BackupJob) → BrRun (λ k. Job.reconcile k j)
  restores : (j : RestoreJob) → BrRun (λ k. Restore.reconcile k j)

BrRun-IsSound :
    (run : BrServer → M BrState (Unit {0}))
    → BrRun run
    → (k : BrServer) (s : BrState) → IsSound s.status
    → IsSound (BrState.status (final (run k s)))
BrRun-IsSound _ (backs_up j) k s h =
    at_end (λ t. IsSound t.status) (Job.reconcile k j s)
      (Ends-map _ _ _ _ (Job.reconcile k j s) (λ _ _ i. IsSafe.sound i) (λ _ _ i. IsSafe.sound i)
        (reconcile-Safe k j s h).0)
BrRun-IsSound _ (restores j) k s h =
    at_end (λ t. IsSound t.status) (Restore.reconcile k j s) (reconcile-Sound k j s h)

is_remove : GcAction → Bool
is_remove keep = false
is_remove remove = true
is_remove (wait n) = false

-- The tests of the collector, and what it does.
gc-choice :
    (b c : Bool) (n : ℕ)
    → ((if not b then keep else if c then remove else wait n) ≡ remove) ↔ ((b ≡ true) × (c ≡ true))
unfolding is_remove
gc-choice true true n = (λ _. (refl, refl), λ _. refl)
gc-choice true false n = (λ h. (refl, ap is_remove h), λ h. cc)
gc-choice false c n = (λ h. (ap is_remove h, no (ap is_remove h)), λ h. cc)
  where
    no : false ≡ true → c ≡ true
    no h = cc

gc-remove :
    (ended : Option Ended) (since now : ℕ) (ttl : Option ℕ)
    → (gc ended since now ttl ≡ remove) ↔ ((holds_ended ended ≡ true) × (since + get_ttl ttl < now))
unfolding gc
gc-remove ended since now ttl =
    let chosen =
      gc-choice (holds_ended ended) (ltb (since + get_ttl ttl) now) (since + get_ttl ttl - now) in
    (λ h. ((chosen.0 h).0, ltb→lt _ _ (chosen.0 h).1), λ h. chosen.1 (h.0, lt→ltb _ _ h.1))

-- In every status that a backup job or a restore job comes to from its creation, by
-- reconciliations that may each meet another server and end in an error: the garbage collector
-- removes the job exactly if its phase is Completed or Failed and more than its time to live has
-- passed since.
pub Reach-gc :
    (run : BrServer → M BrState (Unit {0}))
    → BrRun run
    → (st : JobStatus) → Reach run st
    → (since now : ℕ) (ttl : Option ℕ)
    → (gc st.ended since now ttl ≡ remove)
      ↔ ((is_final st.phase ≡ true) × (since + get_ttl ttl < now))
Reach-gc run b st r since now ttl = (
  λ h.
      (let (e, late) = (gc-remove st.ended since now ttl).0 h in
        (sym (Reach-IsSound run (BrRun-IsSound run b) st r) ∙ e, late)),
  λ h.
      (gc-remove st.ended since now ttl).1
        (Reach-IsSound run (BrRun-IsSound run b) st r ∙ h.0, h.1),
)
