-- ===== src/Store/Reconcile.antt =====
-- The reconciliation of a CN pod: OnDeleted, OnNormal, OnCordon, observe and the predicate on updates
-- of pkg/controllers/cnstore/controller.go.
use matrixone_operator.Base.{
  ◌=s◌, if◌then◌else◌, ℕ, String, Bool, true, false, not, ◌&&◌, ◌||◌, Option, none, some, List, [],
  ◌∷◌,
}
use matrixone_operator.Base.Map.{Map, lookup, get, has, insert, delete}
use matrixone_operator.Api.Keys.{
  phase_idle, direct_pod_label, cn_pod_phase_label, pod_management_policy_anno,
  pod_management_policy_pooling, store_score_anno, deletion_cost_anno, lifecycle_state_key,
  lifecycle_preparing_delete, lifecycle_preparing_update, store_draining_start_anno,
  store_connection_anno, store_cordon_anno, cn_label_annotation, specified_delete_key,
}
use matrixone_operator.Base.Run.{resync, failed, Run, done, fail, M, ◌>>=◌, ◌>>◌, pure, throw}
use matrixone_operator.Api.Claim.{CnLabel, WorkState}
use matrixone_operator.Api.Pod.{Pod}
use matrixone_operator.Api.Sets.{CnSet, get_store_drain_enabled}
use matrixone_operator.Claim.Store.{to_store_labels}
use matrixone_operator.Store.State.{
  CnPod, delete_store, update_labels, StoreState, StoreServer, recorded, set_labels,
  set_annotations, patch_pod_with,
}
use matrixone_operator.Store.Client.{
  retry_interval, set_of_pod, with_mo_client_set, patch_store_state,
}
use matrixone_operator.Store.Stats.{sync_stats}
use matrixone_operator.Store.Readiness.{message_cordon, message_ready, patch_cn_readiness}
use matrixone_operator.Store.Drain.{on_preparing_stop, on_preparing_update}
use matrixone_operator.Store.Pooling.{pooling_cn_reconcile}

abbrev pub resync_interval : ℕ
resync_interval = 30

without_finalizer : CnPod → CnPod
without_finalizer p = record p { has_finalizer = false }

with_finalizer : CnPod → CnPod
with_finalizer p = record p { has_finalizer = true }

without_start : CnPod → CnPod
without_start p = set_annotations (delete store_draining_start_anno p.pod.annotations) p

preparing_delete : CnPod → CnPod
preparing_delete p =
    set_labels (insert lifecycle_state_key lifecycle_preparing_delete p.pod.labels) p

unfoldable pub is_pooling_policy : Pod → Bool
is_pooling_policy p = get pod_management_policy_anno p.annotations =s pod_management_policy_pooling

-- A pod of no CloneSet that is idle or is asked to be deleted.
unfoldable pub is_idle_direct : Pod → Bool
is_idle_direct p =
    has direct_pod_label p.labels
    && (get cn_pod_phase_label p.labels =s phase_idle
        || not (get specified_delete_key p.labels =s ""))

module _ (k : StoreServer) where
  succeeded_or_failed : Bool → M StoreState (Unit {0})
  succeeded_or_failed true = pure tt
  succeeded_or_failed false = throw failed

  abbrev remove_store : M StoreState (Unit {0})
  remove_store s = succeeded_or_failed (k.store_deleted s.calls uid) (recorded (delete_store uid) s)
    where
      uid : String
      uid = k.pod_uuid s.pod.pod

  -- A pod whose CNSet cannot be resolved has no store to remove.
  remove_from : Run StoreState CnSet → Run StoreState (Unit {0})
  unfolding succeeded_or_failed
  remove_from (done cs s) = with_mo_client_set k cs remove_store s
  remove_from (fail e s) = done tt s

  unfoldable pub on_deleted : M StoreState (Unit {0})
  unfolding remove_from without_finalizer
  on_deleted = do λ s. remove_from (set_of_pod k s); patch_pod_with k without_finalizer

  abbrev mark_state : WorkState → Option (List CnLabel) → M StoreState (Unit {0})
  mark_state state ls s =
      patch_store_state k (record { uuid = k.pod_uuid s.pod.pod; state = state; labels = ls }) s

  abbrev replace_labels : List CnLabel → M StoreState (Unit {0})
  replace_labels ls s =
      succeeded_or_failed (k.labels_updated s.calls uid ls) (recorded (update_labels uid ls) s)
    where
      uid : String
      uid = k.pod_uuid s.pod.pod

  resync_on_error : Run StoreState (Unit {0}) → Run StoreState (Unit {0})
  resync_on_error (done a s) = done tt s
  resync_on_error (fail e s) = fail (resync retry_interval) s

  sync_labels : CnSet → List CnLabel → M StoreState (Unit {0})
  unfolding succeeded_or_failed
  sync_labels cs ls = elim (get_store_drain_enabled cs.scaling_config) [
    | true ↦ with_mo_client_set k cs (mark_state WorkState.working (some (to_store_labels ls)))
    | false ↦ with_mo_client_set k cs (replace_labels (to_store_labels ls))
  ]

  parsed_labels : Option (List CnLabel) → M StoreState (List CnLabel)
  parsed_labels none = throw failed
  parsed_labels (some ls) = pure ls

  labels_in : Option String → M StoreState (List CnLabel)
  unfolding parsed_labels
  labels_in none = pure []
  labels_in (some text) = parsed_labels (k.unmarshal_labels text)

  abbrev wanted_labels : M StoreState (List CnLabel)
  wanted_labels s = labels_in (lookup cn_label_annotation s.pod.pod.annotations) s

  unfoldable pub default_cn_normal_reconcile : CnSet → M StoreState (Unit {0})
  unfolding labels_in sync_labels resync_on_error
  default_cn_normal_reconcile cs = do
    ls ← wanted_labels
    λ s. resync_on_error (sync_labels cs ls s)
    patch_cn_readiness k true message_ready

  -- ErrReSync without a time.
  abbrev stop_idle_direct : M StoreState (Unit {0})
  stop_idle_direct s =
      if is_idle_direct s.pod.pod
      then (do patch_pod_with k preparing_delete; throw (resync 0)) s
      else done tt s

  abbrev reconcile_by_policy : CnSet → M StoreState (Unit {0})
  reconcile_by_policy cs s =
      if is_pooling_policy s.pod.pod
      then pooling_cn_reconcile k cs s
      else default_cn_normal_reconcile cs s

  unfoldable pub on_normal : CnSet → M StoreState (Unit {0})
  unfolding with_finalizer without_start preparing_delete
  on_normal cs = do
    patch_pod_with k with_finalizer
    patch_pod_with k without_start
    stop_idle_direct
    reconcile_by_policy cs

  unfoldable pub on_cordon : CnSet → M StoreState (Unit {0})
  on_cordon cs = do
    with_mo_client_set k cs (mark_state WorkState.draining none)
    patch_cn_readiness k false message_cordon

  -- Errors of the statistics are logged.
  ignore_errors : Run StoreState (Unit {0}) → Run StoreState (Unit {0})
  ignore_errors (done a s) = done tt s
  ignore_errors (fail e s) = done tt s

  run_normal : CnSet → M StoreState (Unit {0})
  unfolding on_normal
  run_normal cs = do on_normal cs; throw (resync resync_interval)

  -- The handler for the pod's lifecycle state.
  unfoldable pub handle_lifecycle : CnSet → Pod → M StoreState (Unit {0})
  unfolding run_normal on_cordon
  handle_lifecycle cs p s =
      if has store_cordon_anno p.annotations
      then on_cordon cs s
      else if get lifecycle_state_key p.labels =s lifecycle_preparing_update
      then on_preparing_update k cs s
      else if get lifecycle_state_key p.labels =s lifecycle_preparing_delete
      then on_preparing_stop k cs s
      else run_normal cs s

  unfoldable pub observe_live : M StoreState (Unit {0})
  unfolding ignore_errors handle_lifecycle
  observe_live = do
    cs ← set_of_pod k
    λ s. ignore_errors (sync_stats k cs s)
    λ s. handle_lifecycle cs s.pod.pod s

  -- Observe, and Finalize, which removes its finalizer whatever this returns.
  unfoldable pub observe_pod : M StoreState (Unit {0})
  unfolding on_deleted observe_live
  observe_pod s = if s.pod.pod.is_deleted then on_deleted s else observe_live s

-- Annotations of statistics, whose changes need no reconciliation.
unfoldable pub is_stats_key : String → Bool
is_stats_key key =
    key =s deletion_cost_anno || key =s store_connection_anno || key =s store_score_anno

-- annotationChangedExcludeStats.Update
unfoldable pub annotation_changed_exclude_stats : Map → Map → Bool
annotation_changed_exclude_stats old [] = false
annotation_changed_exclude_stats old ((key, value) ∷ new) =
    let rest = annotation_changed_exclude_stats old new in
    if is_stats_key key then rest else if get key old =s value then rest else true
