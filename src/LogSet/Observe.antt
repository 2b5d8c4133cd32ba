-- ===== src/LogSet/Observe.antt =====
-- Observe of pkg/controllers/logset/controller.go: the status of a log service, and what is to be done.
pub mod Quiet
pub mod Seen
pub mod Rest
pub mod Decision
use matrixone_operator.Base.{
  leb, ◌==◌, ◌=s◌, if◌then◌else◌, length, ℕ, String, Bool, true, false, not, ◌&&◌, Option, none,
  some, List, [], ◌∷◌,
}
use matrixone_operator.Base.Run.{resync, failed, done, fail, M, ◌>>=◌, ◌>>◌, pure, throw}
use matrixone_operator.Api.LogSet.{
  LogSet, LogSetSpec, get_store_failure_timeout, get_pvc_retention_policy, policy_delete,
  policy_retain,
}
use matrixone_operator.Api.Pod.{Pod}
use matrixone_operator.Common.Failover.{FailoverStatus, collect_store_status}
use matrixone_operator.Bucket.Claim.{sync_bucket_claim, sync_own_running_ann}
use matrixone_operator.LogSet.State.{
  StatefulSet, read_discovery, read_sts, list_pods, sync_config, sync_volume, sync_metric,
  dry_run_sts, LogSetState, LogSetServer, call, found, on_bucket,
}
use matrixone_operator.LogSet.Failover.{stores_failed_for}

pub data LogAction : Type 0 where
  nothing create : LogAction
  repair_with scale_with update_with : StatefulSet → LogAction

-- syncStatefulSetSpec: a policy that is not known changes nothing.
unfoldable pub sync_stateful_set_spec : LogSet → StatefulSet → StatefulSet
sync_stateful_set_spec l sts =
    if get_pvc_retention_policy l.spec =s policy_delete
    then record sts { retention = some policy_delete }
    else if get_pvc_retention_policy l.spec =s policy_retain
    then record sts { retention = some policy_retain }
    else sts

abbrev same_ordinals : List ℕ → List ℕ → Bool
same_ordinals [] [] = true
same_ordinals [] (j ∷ js) = false
same_ordinals (i ∷ is) [] = false
same_ordinals (i ∷ is) (j ∷ js) = i == j && same_ordinals is js

abbrev same_retention : Option String → Option String → Bool
same_retention none none = true
same_retention none (some b) = false
same_retention (some a) none = false
same_retention (some a) (some b) = a =s b

-- `equality.Semantic.DeepEqual(origin, sts)`
abbrev pub same_sts : StatefulSet → StatefulSet → Bool
same_sts a b =
    a.replicas == b.replicas
    && same_ordinals a.reserve_ordinals b.reserve_ordinals
    && same_retention a.retention b.retention
    && a.template =s b.template
    && a.updated_ready_replicas == b.updated_ready_replicas

module _ (k : LogSetServer) where
  -- Which stores are up, and whether they are enough.
  unfoldable pub observe_stores : List Pod → M LogSetState (Unit {0})
  observe_stores pods s =
      let st = collect_store_status (k.now s.calls) k.is_available [] s.status pods in
      done tt (record s {
        status = st;
        ready =
            leb (LogSetSpec.replicas (LogSet.spec (LogSetState.log_set s)))
              (length (FailoverStatus.available_stores st));
      })

  -- The configuration is written, and the template refers to it.
  unfoldable pub with_template : StatefulSet → Option String → M LogSetState StatefulSet
  with_template sts none = throw failed
  with_template sts (some t) =
      call sync_config (λ cs. k.config_synced cs) >> pure (record sts { template = t })

  unfoldable pub sync_pods : StatefulSet → M LogSetState StatefulSet
  sync_pods sts s = with_template sts (k.template_of s.log_set sts.template) s

  unfoldable pub sync_running : M LogSetState (Unit {0})
  sync_running s =
      if leb 1 (length s.status.available_stores)
      then on_bucket k (λ b. sync_own_running_ann b s.log_set) s
      else done tt s

  unfoldable pub is_synced : LogSetState → StatefulSet → Bool
  is_synced s sts =
      s.ready
      && length s.status.failed_stores == 0
      && leb s.log_set.spec.replicas sts.updated_ready_replicas

  -- The last test of Observe: `reSyncAfter` is 15 seconds.
  unfoldable pub conclude : StatefulSet → M LogSetState LogAction
  conclude sts s = if is_synced s sts then done nothing s else fail (resync 15) s

  unfoldable pub sync_rest : StatefulSet → M LogSetState LogAction
  sync_rest sts s =
      (call sync_volume (λ cs. k.volume_synced cs)
          >> on_bucket k (λ b. sync_bucket_claim b s.log_set)
          >> sync_running
          >> call sync_metric (λ cs. k.metric_synced cs)
          >> conclude sts)
        s

  -- The specification against the stateful set, with the defaults of the server filled in.
  unfoldable pub compare_sts : StatefulSet → StatefulSet → M LogSetState LogAction
  compare_sts origin sts = call (dry_run_sts sts) (λ cs. k.dry_run cs sts) >>= λ filled.
      if not (same_sts origin filled) then pure (update_with filled) else sync_rest filled

  unfoldable pub choose : StatefulSet → M LogSetState LogAction
  choose sts s =
      if leb 1 (
        length (
          stores_failed_for (k.now s.calls) (get_store_failure_timeout s.log_set.spec)
            s.status.failed_stores))
      then done (repair_with sts) s
      else if not (s.log_set.spec.replicas == sts.replicas)
      then done (scale_with sts) s
      else (sync_pods (sync_stateful_set_spec s.log_set sts) >>= compare_sts sts) s

  unfoldable pub observe_sts : StatefulSet → M LogSetState LogAction
  observe_sts sts = call list_pods (λ cs. k.pods cs) >>= observe_stores >> choose sts

  unfoldable pub both_found : Option (Unit {0}) → Option StatefulSet → M LogSetState LogAction
  both_found none sts = pure create
  both_found (some d) none = pure create
  both_found (some d) (some sts) = observe_sts sts

  unfoldable pub observe : M LogSetState LogAction
  observe = found read_discovery (λ cs. k.discovery cs) >>= λ d.
      found read_sts (λ cs. k.sts cs) >>= both_found d
