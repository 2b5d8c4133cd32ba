-- ===== src/LogSet/Observe/Seen.antt =====
-- What an action that Observe chooses says of the answers that it got and of the state it leaves.
use matrixone_operator.Base.{
  String, some, ◌≢◌, leb, ◌==◌, length, ◌≤◌, ◌⊎◌, ◌≡◌, true, false, List, [], ◌∷◌,
}
use matrixone_operator.Base.Run.{not_found, ok, err, Run, Ends}
use matrixone_operator.Api.LogSet.{get_store_failure_timeout, get_pvc_retention_policy}
use matrixone_operator.Api.Pod.{Pod}
use matrixone_operator.LogSet.State.{
  StatefulSet, LogCall, read_discovery, read_sts, list_pods, sync_config, LogSetState, LogSetServer,
}
use matrixone_operator.Common.Failover.{Store, FailoverStatus, collect_store_status}
use matrixone_operator.LogSet.Failover.{stores_failed_for}
use matrixone_operator.LogSet.Observe.{
  LogAction, nothing, create, repair_with, scale_with, update_with, same_sts,
}

-- Observe from the state `s₀`.
module _ (k : LogSetServer) (s₀ : LogSetState) where
  abbrev pub at_sts : List LogCall
  at_sts = read_discovery ∷ s₀.calls

  abbrev pub at_clock : List LogCall
  at_clock = list_pods ∷ read_sts ∷ at_sts

  -- The stores of the status, when the clock was read.
  abbrev pub failing_stores : FailoverStatus → List Store
  failing_stores st =
      stores_failed_for (k.now at_clock) (get_store_failure_timeout s₀.log_set.spec)
        st.failed_stores

  -- The stateful set and the pods that were read, and what the status says of them.
  pub record IsSeen (origin : StatefulSet) (t : LogSetState) : Type 0 where
    pub pods : List Pod
    pub of_sts : k.sts at_sts ≡ ok origin
    pub of_pods : k.pods (read_sts ∷ at_sts) ≡ ok pods
    pub same_object : t.log_set ≡ s₀.log_set
    pub of_status :
        t.status ≡ collect_store_status (k.now at_clock) k.is_available [] s₀.status pods
    pub of_ready : t.ready ≡ leb s₀.log_set.spec.replicas (length t.status.available_stores)

  -- Nothing failed too long, and the number of replicas is right.
  abbrev pub Going : StatefulSet → LogSetState → Type 0
  Going origin t =
      IsSeen origin t
      × (failing_stores t.status ≡ [])
      × ((s₀.log_set.spec.replicas == origin.replicas) ≡ true)

  -- The stateful set that is wanted in place of the one that was read: the retention policy of the
  -- specification, if it is a known one, and the template that refers to the written configuration.
  pub record IsWanted (origin : StatefulSet) (template : String) (sts : StatefulSet) : Type 0 where
    pub same : sts ≡ record origin { retention = sts.retention; template = template }
    pub deletes :
        get_pvc_retention_policy s₀.log_set.spec ≡ "Delete" → sts.retention ≡ some "Delete"
    pub retains :
        get_pvc_retention_policy s₀.log_set.spec ≡ "Retain" → sts.retention ≡ some "Retain"
    pub leaves :
        get_pvc_retention_policy s₀.log_set.spec ≢ "Delete"
        → get_pvc_retention_policy s₀.log_set.spec ≢ "Retain"
        → sts.retention ≡ origin.retention

  -- The server filled its defaults into the wanted set, once the configuration was written.
  pub record IsFilled (origin filled : StatefulSet) : Type 0 where
    pub template : String
    pub sts : StatefulSet
    pub of_template : k.template_of s₀.log_set origin.template ≡ some template
    pub of_config : k.config_synced at_clock ≡ ok tt
    pub wanted : IsWanted origin template sts
    pub of_dry_run : k.dry_run (sync_config ∷ at_clock) sts ≡ ok filled

  -- What an action says of the state in which Observe ends.
  abbrev pub Decides : LogAction → LogSetState → Type 0
  Decides create t = (k.discovery s₀.calls ≡ err not_found) ⊎ (k.sts at_sts ≡ err not_found)
  Decides (repair_with sts) t = IsSeen sts t × ¬ (failing_stores t.status ≡ [])
  Decides (scale_with sts) t =
      IsSeen sts t
      × (failing_stores t.status ≡ [])
      × ((s₀.log_set.spec.replicas == sts.replicas) ≡ false)
  Decides (update_with filled) t =
      (origin : StatefulSet) × Going origin t
      × IsFilled origin filled
      × (same_sts origin filled ≡ false)
  Decides nothing t =
      (origin : StatefulSet) × (filled : StatefulSet) × Going origin t
      × IsFilled origin filled
      × (same_sts origin filled ≡ true)
      × (s₀.log_set.spec.replicas ≤ length t.status.available_stores)
      × (t.status.failed_stores ≡ [])
      × (s₀.log_set.spec.replicas ≤ filled.updated_ready_replicas)

  -- The runs that end well end so.
  abbrev pub Decided : Run LogSetState LogAction → Type 0
  Decided r = Ends Decides (λ _ _. Unit {0}) r
