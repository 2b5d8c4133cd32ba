-- ===== src/LogSet/Failover.antt =====
-- Scale, Update and Repair of pkg/controllers/logset/controller.go, and StoresFailedFor of
-- api/core/v1alpha1/common_helpers.go.
pub mod Minority
use matrixone_operator.Base.{
  leb, ◌=s◌, if◌then◌else◌, length, ℕ, suc, ◌+◌, Bool, not, Option, none, some, List, [], ◌∷◌,
}
use matrixone_operator.Base.Run.{failed, out_of_fuel, done, fail, M, ◌>>◌, pure, throw}
use matrixone_operator.Base.Int.{ℤ, pos, negsuc, sub_ℕ, ltb_ℤ}
use Prim.Native.Nat.{◌/◌}
use matrixone_operator.Api.LogSet.{
  LogSet, LogSetSpec, or_default, get_store_failure_timeout, get_failed_pod_strategy,
  strategy_orphan,
}
use matrixone_operator.Common.Failover.{Store}
use matrixone_operator.LogSet.State.{
  StatefulSet, patch_sts, update_sts, write_gossip, orphan_pod, LogSetState, LogSetServer, call,
}
use matrixone_operator.LogSet.Ordinals.{gossip_seeds}

-- `time.Now().Sub(store.LastTransitionTime.Time) >= d`
unfoldable pub stores_failed_for : ℕ → ℕ → List Store → List Store
stores_failed_for now d [] = []
stores_failed_for now d (s ∷ ss) =
    let rest = stores_failed_for now d ss in
    if leb (s.last_transition_time + d) now then s ∷ rest else rest

-- Division of an int by 2, which drops the fraction.
abbrev pub half : ℤ → ℤ
half (pos n) = pos (n / 2)
half (negsuc n) = sub_ℕ 0 (suc n / 2)

-- The number of log shard replicas is a pointer that the webhook has set.
abbrev pub minority_limit : LogSet → ℤ
minority_limit l = half (or_default (pos 0) l.spec.initial_config.log_shard_replicas)

module _ (k : LogSetServer) where
  -- updateGossipConfig
  unfoldable pub update_gossip_config : StatefulSet → M LogSetState (Unit {0})
  update_gossip_config sts s = elim (gossip_seeds s.log_set sts.replicas sts.reserve_ordinals) [
    | none ↦ fail out_of_fuel s
    | some seeds ↦ call (write_gossip seeds) (λ cs. k.gossip_written cs seeds) s
  ]

  -- syncReplicas
  abbrev pub with_replicas : LogSet → StatefulSet → StatefulSet
  with_replicas l sts = record sts { replicas = LogSetSpec.replicas (LogSet.spec l) }

  unfoldable pub scale : StatefulSet → M LogSetState (Unit {0})
  scale sts s =
      (let wanted = with_replicas s.log_set sts in
          call (patch_sts wanted) (λ cs. k.sts_patched cs wanted) >> update_gossip_config wanted)
        s

  unfoldable pub update : StatefulSet → M LogSetState (Unit {0})
  update sts = call (update_sts sts) (λ cs. k.sts_updated cs sts)

  -- The pod of a store that failed is kept for inspection.
  unfoldable pub keep_pod : LogSet → Store → M LogSetState (Unit {0})
  keep_pod l candidate =
      if get_failed_pod_strategy l.spec =s strategy_orphan
      then call (orphan_pod candidate.pod_name) (λ cs. k.pod_orphaned cs candidate.pod_name)
      else pure tt

  unfoldable pub reserve : StatefulSet → Option ℕ → M LogSetState (Unit {0})
  reserve sts none = throw failed
  reserve sts (some ordinal) =
      let reserved = record sts { reserve_ordinals = k.upsert sts.reserve_ordinals ordinal } in
      call (update_sts reserved) (λ cs. k.sts_updated cs reserved) >> update_gossip_config reserved

  -- One store at a time: the first one.
  unfoldable pub repair_first : StatefulSet → List Store → M LogSetState (Unit {0})
  repair_first sts [] s = done tt s
  repair_first sts (candidate ∷ rest) s =
      (keep_pod s.log_set candidate >> reserve sts (k.pod_ordinal candidate.pod_name)) s

  unfoldable pub repair : Bool → StatefulSet → M LogSetState (Unit {0})
  repair failover_enabled sts s =
      if not failover_enabled
      then done tt s
      else if ltb_ℤ (minority_limit s.log_set) (pos (length s.status.failed_stores))
      then done tt s
      else if not (ltb_ℤ (pos (length sts.reserve_ordinals)) (minority_limit s.log_set))
      then done tt s
      else repair_first sts
          (stores_failed_for (k.now s.calls) (get_store_failure_timeout s.log_set.spec)
            s.status.failed_stores)
          s
