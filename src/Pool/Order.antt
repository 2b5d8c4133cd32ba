-- ===== src/Pool/Order.antt =====
-- Which pod of a pool is deleted first: podInUse, deletionOrder and deletionCost of
-- pkg/controllers/cnpool/controller.go.
use matrixone_operator.Base.{◌=s◌, if◌then◌else◌, ℕ, ◌+◌, String, Bool, ◌||◌}
use matrixone_operator.Base.Map.{get}
use matrixone_operator.Api.Keys.{
  phase_bound, phase_idle, phase_draining, phase_unknown, phase_terminating, pod_claimed_by_label,
  cn_pod_phase_label,
}
use matrixone_operator.Base.Int.{
  ℤ, sub_ℕ, or_else, IsOrder, sub_ℕ-IsOrder, or_else-IsOrder, flip-IsOrder,
}
use matrixone_operator.Api.Pod.{Pod}

unfoldable pub pod_in_use : Pod → Bool
pod_in_use p =
    get cn_pod_phase_label p.labels =s phase_bound
    || get cn_pod_phase_label p.labels =s phase_draining

-- The part of the cost that the phase makes: 2^8, 2^9 and 2^10.
phase_cost : String → ℕ
phase_cost phase =
    if phase =s phase_terminating
    then 0
    else if phase =s "" || phase =s phase_unknown
    then 256
    else if phase =s phase_idle
    then 512
    else 1024

unfoldable pub deletion_cost : Pod → ℕ
unfolding phase_cost
deletion_cost p =
    if get pod_claimed_by_label p.labels =s ""
    then phase_cost (get cn_pod_phase_label p.labels)
    else phase_cost (get cn_pod_phase_label p.labels) + 1

-- With equal costs the pod created last comes first.
unfoldable pub deletion_order : Pod → Pod → ℤ
deletion_order a b = or_else (sub_ℕ (deletion_cost a) (deletion_cost b)) (sub_ℕ b.created a.created)

-- deletionOrder of the pool is a strict weak order, as slices.SortFunc requires of its argument.
pub deletion_order-IsOrder : IsOrder deletion_order
unfolding deletion_order
deletion_order-IsOrder =
    or_else-IsOrder (sub_ℕ-IsOrder deletion_cost) (flip-IsOrder (sub_ℕ-IsOrder (λ p. p.created)))
