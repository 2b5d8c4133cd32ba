-- ===== src/Store/Pooling.antt =====
-- The life of a pod in a pool: pkg/controllers/cnstore/pooling.go.
pub mod Life
use matrixone_operator.Base.{
  ltb, ◌=s◌, if◌then◌else◌, ℕ, ◌+◌, String, Bool, true, false, Option, none, some,
}
use matrixone_operator.Base.Map.{Map, lookup, get, has, insert, delete}
use matrixone_operator.Api.Keys.{
  phase_bound, phase_idle, phase_draining, phase_unknown, phase_terminating, direct_pod_label,
  cn_pod_phase_label, delete_on_reclaim_anno, reclaimed_at, lifecycle_state_key,
  lifecycle_preparing_delete,
}
use matrixone_operator.Base.Run.{resync, failed, Run, done, fail, M, ◌>>=◌, ◌>>◌, pure, throw}
use matrixone_operator.Api.Claim.{CnService}
use matrixone_operator.Api.Pod.{Pod}
use matrixone_operator.Api.Sets.{CnSet, get_store_drain_timeout, get_min_delay_duration}
use matrixone_operator.Common.Score.{StoreScore, is_safe_to_reclaim, get_store_score}
use matrixone_operator.Store.State.{
  CnPod, StoreState, StoreServer, set_labels, set_annotations, patch_pod_with,
}
use matrixone_operator.Store.Client.{retry_interval, with_mo_client_set}
use matrixone_operator.Store.Readiness.{message_ready, message_not_registered, patch_cn_readiness}
use matrixone_operator.Store.Drain.{store_drain_takes_long_duration, diagnosis_draining}

-- The phases that the switch tells apart.
pub data PoolPhase : Type 0 where
  draining_pod in_use_or_idle unregistered terminating_pod other_phase : PoolPhase

unfoldable pub pool_phase : Pod → PoolPhase
pool_phase p =
    let phase = get cn_pod_phase_label p.labels in
    if phase =s phase_draining
    then draining_pod
    else if phase =s phase_bound
    then in_use_or_idle
    else if phase =s phase_idle
    then in_use_or_idle
    else if phase =s phase_unknown
    then unregistered
    else if phase =s phase_terminating
    then terminating_pod
    else other_phase

abbrev with_phase : String → CnPod → CnPod
with_phase phase p = set_labels (insert cn_pod_phase_label phase p.pod.labels) p

-- The pod returned to the pool.
unfoldable pub recycled_pod : CnPod → CnPod
recycled_pod p = with_phase phase_idle (set_annotations (delete reclaimed_at p.pod.annotations) p)

-- The pod left to the pool to delete; one of no CloneSet prepares to be deleted.
unfoldable pub evicted_pod : CnPod → CnPod
evicted_pod p =
    if get direct_pod_label m =s ""
    then set_labels m p
    else set_labels (insert lifecycle_state_key lifecycle_preparing_delete m) p
  where
    m : Map
    m = insert cn_pod_phase_label phase_terminating p.pod.labels

module _ (k : StoreServer) where
  unfoldable pub patch_phase : String → M StoreState (Unit {0})
  patch_phase phase = patch_pod_with k (with_phase phase)

  -- The patch is made to a copy: the pod in memory stays.
  pub keep_copy : CnPod → Run StoreState (Unit {0}) → Run StoreState (Unit {0})
  keep_copy p (done a s) = done tt (record s { pod = p })
  keep_copy p (fail e s) = fail e (record s { pod = p })

  unfoldable pub evict_pool_pod_gracefully : M StoreState (Unit {0})
  unfolding keep_copy
  evict_pool_pod_gracefully s = keep_copy s.pod (patch_pod_with k evicted_pod s)

  -- A drained pod goes back to the pool, unless it is marked for deletion or is of no CloneSet.
  unfoldable pub recycle : M StoreState (Unit {0})
  recycle s =
      if has delete_on_reclaim_anno s.pod.pod.annotations
      then evict_pool_pod_gracefully s
      else if has direct_pod_label s.pod.pod.labels
      then evict_pool_pod_gracefully s
      else patch_pod_with k recycled_pod s

  unfoldable pub recycle_if_safe : Option StoreScore → M StoreState (Unit {0})
  unfolding recycle
  recycle_if_safe none = throw failed
  recycle_if_safe (some sc) = elim (is_safe_to_reclaim sc) [
    | true ↦ recycle
    | false ↦ throw (resync retry_interval)
  ]

  abbrev pub diagnose_after : ℕ → M StoreState (Unit {0})
  diagnose_after t s =
      if ltb (t + store_drain_takes_long_duration) (k.now s.calls)
      then diagnosis_draining k s
      else done tt s

  abbrev pub wait_min_delay : CnSet → ℕ → M StoreState (Unit {0})
  wait_min_delay cs t s =
      if ltb (k.now s.calls) (t + get_min_delay_duration cs.scaling_config)
      then fail (resync retry_interval) s
      else done tt s

  unfoldable pub drain_pool_pod : CnSet → ℕ → M StoreState (Unit {0})
  unfolding recycle_if_safe
  drain_pool_pod cs t = do
    diagnose_after t
    wait_min_delay cs t
    λ s. recycle_if_safe (get_store_score k.json s.pod.pod.annotations) s

  -- The drain since the time `t`.
  unfoldable pub drain_from : CnSet → ℕ → M StoreState (Unit {0})
  unfolding drain_pool_pod
  drain_from cs t s =
      if ltb (t + get_store_drain_timeout cs.scaling_config) (k.now s.calls)
      then evict_pool_pod_gracefully s
      else drain_pool_pod cs t s

  drain_from_text : CnSet → Option ℕ → M StoreState (Unit {0})
  unfolding drain_from
  drain_from_text cs none = throw failed
  drain_from_text cs (some t) = drain_from cs t

  -- A pod without the time is a legacy one: it goes back at once.
  unfoldable pub drain_reclaimed : CnSet → Option String → M StoreState (Unit {0})
  unfolding drain_from_text
  drain_reclaimed cs none = patch_phase phase_idle
  drain_reclaimed cs (some text) = drain_from_text cs (k.parse_time text)

  -- A pod of the phase Unknown.
  register : Bool → M StoreState (Unit {0})
  register true = do patch_phase phase_idle; patch_cn_readiness k true message_ready
  register false = patch_cn_readiness k false message_not_registered

  is_known : Option CnService → Bool
  is_known none = false
  is_known (some cn) = true

  abbrev store_is_known : M StoreState Bool
  store_is_known s = done (is_known (k.store_cached s.calls (k.pod_uuid s.pod.pod))) s

  abbrev drain_the_pod : CnSet → M StoreState (Unit {0})
  drain_the_pod cs s = drain_reclaimed cs (lookup reclaimed_at s.pod.pod.annotations) s

  -- The switch on the phase.
  unfoldable pub reconcile_phase : CnSet → Bool → PoolPhase → M StoreState (Unit {0})
  unfolding register
  reconcile_phase cs known draining_pod = drain_the_pod cs
  reconcile_phase cs known in_use_or_idle = patch_cn_readiness k true message_ready
  reconcile_phase cs known unregistered = register known
  reconcile_phase cs known terminating_pod = pure tt
  reconcile_phase cs known other_phase = throw failed

  unfoldable pub pooling_cn_reconcile : CnSet → M StoreState (Unit {0})
  unfolding is_known
  pooling_cn_reconcile cs = do
    known ← with_mo_client_set k cs store_is_known
    λ s. reconcile_phase cs known (pool_phase s.pod.pod) s
