-- ===== src/Pool/Legacy/Allowed.antt =====
-- What a reconciliation of a pool may do, in terms of what the server listed in it.
use matrixone_operator.Base.{◌=s◌, ◌≡◌, true, false, List, []}
use matrixone_operator.Base.Map.{get}
use matrixone_operator.Api.Keys.{phase_bound, pod_claimed_by_label, cn_pod_phase_label}
use matrixone_operator.Api.Pod.{Pod}
use matrixone_operator.Pool.State.{
  SetSpec, SetItem, CnPool, PoolCall, list_sets, list_pods, list_claims, read_claim, read_set,
  outdate_claim, update_set, create_set, delete_set, update_pod, delete_all_sets, PoolServer,
}
use matrixone_operator.Pool.Legacy.{shrink, orphan_labels}
use matrixone_operator.Pool.Scale.{PoolSet, scaled_spec, terminating_pod}
use matrixone_operator.Pool.Scale.Marks.{IsSpare}
use matrixone_operator.Pool.Legacy.Evidence.{
  live_in_use, kept, Pods, PodsOf, Status, IsLegacy, IsOld, Sets, CurrentPods, IsEnough,
}

abbrev pub IsQuestion : PoolCall → Type 0
IsQuestion (list_sets ls) = Unit
IsQuestion (list_pods ls) = Unit
IsQuestion (list_claims ls) = Unit
IsQuestion (read_claim n) = Unit
IsQuestion (read_set n) = Unit
IsQuestion (outdate_claim n) = ⊥
IsQuestion (delete_set n) = ⊥
IsQuestion (create_set n ls spec) = ⊥
IsQuestion (update_set n spec) = ⊥
IsQuestion (update_pod p) = ⊥
IsQuestion (delete_all_sets ls) = ⊥

module _ (k : PoolServer) (p : CnPool) (d : SetItem) (base : List PoolCall) where
  -- What may be called after the calls `past`.
  pub data IsAllowed (past : List PoolCall) : PoolCall → Type 0 where
    asking : (c : PoolCall) → IsQuestion c → IsAllowed past c
    -- the claim of a live, bound pod of a former revision
    outdating :
        (q : Pod)
        → IsOld k p d base q past
        → q.is_deleted ≡ false
        → (get cn_pod_phase_label q.labels =s phase_bound) ≡ true
        → IsAllowed past (outdate_claim (get pod_claimed_by_label q.labels))
    -- a legacy set keeps its pods in use and gives up the others
    shrinking :
        (i : SetItem) (pods : List Pod) (old : SetSpec)
        → IsLegacy k p d base i past
        → PodsOf k base i pods past
        → IsAllowed past (update_set i.name (shrink (kept pods) old))
    restoring :
        (i : SetItem) (pods : List Pod) (old : SetSpec)
        → IsLegacy k p d base i past
        → PodsOf k base i pods past
        → IsAllowed past (create_set i.name i.labels (shrink (kept pods) old))
    -- a legacy set without pods, neither its own nor direct ones
    removing :
        (i : SetItem) (pods : List Pod)
        → IsLegacy k p d base i past
        → PodsOf k base i pods past
        → live_in_use pods ≡ 0
        → Status k base i 0 past
        → Pods k base (orphan_labels i) [] past
        → IsAllowed past (delete_set i.name)
    -- a pod of the current set that is spare
    marking :
        (q : Pod) (sets : List SetItem) (pods : List Pod)
        → Sets k p d base sets past
        → CurrentPods k p d base sets pods past
        → IsSpare pods q
        → IsAllowed past (update_pod (terminating_pod q))
    scaling :
        (set : PoolSet)
        → IsEnough k p d base set past
        → IsAllowed past (update_set d.name (scaled_spec k.parse_version p set))
    making :
        (set : PoolSet)
        → IsEnough k p d base set past
        → IsAllowed past (create_set d.name d.labels (scaled_spec k.parse_version p set))
