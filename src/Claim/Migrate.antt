-- ===== src/Claim/Migrate.antt =====
-- The migration of a claim from one pod to another: pkg/controllers/cnclaim/migrate.go.
pub mod Complete
use matrixone_operator.Base.{ltb, ◌=s◌, if◌then◌else◌, ℕ, ◌+◌, Bool, Option, none, some, []}
use matrixone_operator.Base.Map.{get}
use matrixone_operator.Api.Keys.{
  phase_bound, phase_idle, phase_draining, phase_terminating, cn_pod_phase_label,
}
use matrixone_operator.Base.Run.{
  not_found, conflict, refused, api, resync, failed, Answer, ok, err, fail, M, ◌>>=◌, ◌>>◌, throw,
}
use matrixone_operator.Api.Claim.{PodRef, Workload, ClaimStatus, Claim}
use matrixone_operator.Api.Pod.{Pod}
use matrixone_operator.Common.Score.{StoreScore, get_store_score}
use matrixone_operator.Claim.State.{
  get_pod, patch_status, update_claim, update_status, ClaimState, Server, called, send_claim,
  set_status,
}
use matrixone_operator.Claim.Reclaim.{reclaim_cn}

abbrev pub propagation_delay : ℕ
propagation_delay = 15

abbrev pub migration_resync_interval : ℕ
migration_resync_interval = 10

-- The phases of a source pod that migrate tells apart.
pub data SourcePhase : Type 0 where
  still_draining still_bound has_left unknown_phase : SourcePhase

unfoldable pub source_phase : Pod → SourcePhase
source_phase p =
    let phase = get cn_pod_phase_label p.labels in
    if phase =s phase_draining
    then still_draining
    else if phase =s phase_bound
    then still_bound
    else if phase =s phase_terminating
    then has_left
    else if phase =s phase_idle
    then has_left
    else unknown_phase

unfoldable pub migrated_status : StoreScore → ClaimStatus → ClaimStatus
migrated_status sc st = record st { migrate = some source }
  where
    source : Workload
    source = record {
      connections = sc.session_count;
      pipelines = sc.pipeline_count;
      replicas = sc.replica_count;
    }

-- `time.Since(t) < propagationDelay`
unfoldable pub is_fresh : ℕ → ℕ → Bool
is_fresh now t = ltb now (t + propagation_delay)

module _ (k : Server) where
  with_status : ClaimStatus → Claim → Claim
  with_status st c = record c { status = st }

  without_source : Claim → Claim
  without_source c = record c { spec = record spec { source_pod = none } }
    where
      open c use {spec}

  report_score : Option StoreScore → M ClaimState (Unit {0})
  unfolding with_status
  report_score none = throw failed
  report_score (some sc) =
      λ s. send_claim k patch_status (with_status (migrated_status sc s.claim.status) s.claim) s

  unfoldable pub report_progress : Pod → M ClaimState (Unit {0})
  unfolding report_score
  report_progress p = report_score (get_store_score k.json p.annotations)

  abbrev clear_migrate : M ClaimState (Unit {0})
  clear_migrate s = set_status (record st { migrate = none }) s
    where
      st : ClaimStatus
      st = s.claim.status

  abbrev update_the_status : M ClaimState (Unit {0})
  update_the_status s = send_claim k update_status s.claim s

  abbrev drop_source : M ClaimState (Unit {0})
  drop_source s = send_claim k update_claim (without_source s.claim) s

  unfoldable pub complete_migration : M ClaimState (Unit {0})
  unfolding without_source
  complete_migration = do clear_migrate; update_the_status; drop_source

  -- The switch on the source's phase; the pod is reclaimed with no option.
  unfoldable pub drain_by_phase : Pod → SourcePhase → M ClaimState (Unit {0})
  unfolding complete_migration report_progress
  drain_by_phase p still_draining = do report_progress p; throw (resync migration_resync_interval)
  drain_by_phase p still_bound = do
    q ← reclaim_cn k [] p
    report_progress q
    throw (resync migration_resync_interval)
  drain_by_phase p has_left = complete_migration
  drain_by_phase p unknown_phase = throw failed

  unfoldable pub drain_source : Pod → M ClaimState (Unit {0})
  drain_source p = drain_by_phase p (source_phase p)

  -- The wait until the target takes traffic.
  unfoldable pub after_delay : Pod → Option ℕ → M ClaimState (Unit {0})
  unfolding drain_source
  after_delay p none = throw failed
  after_delay p (some t) = λ s.
      if is_fresh (k.now s.calls) t then fail (resync propagation_delay) s else drain_source p s

  unfoldable pub found_source : Answer Pod → M ClaimState (Unit {0})
  unfolding after_delay complete_migration
  found_source (ok p) = λ s. after_delay p s.claim.status.store.bound_time s
  found_source (err not_found) = complete_migration
  found_source (err conflict) = throw (api conflict)
  found_source (err refused) = throw (api refused)

  unfoldable pub migrate_from : Option PodRef → M ClaimState (Unit {0})
  unfolding found_source complete_migration
  migrate_from none = complete_migration
  migrate_from (some r) =
      λ s. found_source (k.pod s.calls r.pod_name) (called (get_pod r.pod_name) s)

  unfoldable pub migrate : M ClaimState (Unit {0})
  unfolding migrate_from
  migrate s = migrate_from s.claim.spec.source_pod s
