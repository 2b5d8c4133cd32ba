-- ===== src/ClaimSet/Order.antt =====
-- Which claim a scale-in deletes first: claimDeletionOrder, podDeletionOrder and podDeletionCost of
-- pkg/controllers/cnclaimset/controller.go.
pub mod Contract
use Prim.Native.String.{len}
use matrixone_operator.Base.Decimal.{parse_int32}
use matrixone_operator.Base.{
  ◌==◌, ◌=s◌, if◌then◌else◌, ℕ, String, Bool, true, false, not, ◌&&◌, ◌||◌, Option, none, some,
}
use matrixone_operator.Base.Map.{lookup}
use matrixone_operator.Api.Keys.{deletion_cost_anno}
use matrixone_operator.Base.Int.{ℤ, pos, negsuc, sub_ℕ, ltb_ℤ}
use matrixone_operator.Api.Claim.{ClaimPhase, Claim, is_ready}
use matrixone_operator.Api.Pod.{Pod, PodPhase}

-- A key that the map does not hold reads as 0.
unfoldable pub pod_phase_to_ordinal : PodPhase → ℕ
pod_phase_to_ordinal PodPhase.pending = 0
pod_phase_to_ordinal PodPhase.failed = 1
pod_phase_to_ordinal PodPhase.running = 2
pod_phase_to_ordinal _ = 0

unfoldable pub claim_phase_to_ordinal : ClaimPhase → ℕ
claim_phase_to_ordinal ClaimPhase.pending = 0
claim_phase_to_ordinal ClaimPhase.lost = 1
claim_phase_to_ordinal ClaimPhase.outdated = 2
claim_phase_to_ordinal ClaimPhase.bound = 3
claim_phase_to_ordinal ClaimPhase.unset = 0

pub record ClaimAndPod : Type 0 where
  pub claim : Claim
  pub pod : Option Pod

score_of : Option Pod → ℕ
score_of none = 0
score_of (some p) = 1

unfoldable pub score_has_pod : ClaimAndPod → ℕ
unfolding score_of
score_has_pod c = score_of c.pod

parsed_cost : Option ℤ → ℤ
parsed_cost none = pos 0
parsed_cost (some i) = i

cost_of : Option String → ℤ
unfolding parsed_cost
cost_of none = pos 0
cost_of (some value) = parsed_cost (parse_int32 value)

unfoldable pub pod_deletion_cost : Pod → ℤ
unfolding cost_of
pod_deletion_cost p = cost_of (lookup deletion_cost_anno p.annotations)

-- `aCost != bCost`, and which of the two is less.
order_costs : ℤ → ℤ → ℤ → ℤ
order_costs a b otherwise = if ltb_ℤ a b then negsuc 0 else if ltb_ℤ b a then pos 1 else otherwise

same_bool : Bool → Bool → Bool
same_bool true b = b
same_bool false b = not b

unfoldable pub pod_deletion_order : Pod → Pod → ℤ
unfolding order_costs same_bool
pod_deletion_order a b =
    if not (a.node_name =s b.node_name) && (a.node_name =s "" || b.node_name =s "")
    then sub_ℕ (len a.node_name) (len b.node_name)
    else if not (pod_phase_to_ordinal a.phase == pod_phase_to_ordinal b.phase)
    then sub_ℕ (pod_phase_to_ordinal a.phase) (pod_phase_to_ordinal b.phase)
    else if not (same_bool a.is_ready b.is_ready)
    then (if a.is_ready then pos 1 else negsuc 0)
    else order_costs (pod_deletion_cost a) (pod_deletion_cost b) (sub_ℕ b.created a.created)

-- The tie: with a pod on both sides the pods decide, without one the newer claim goes first. (The
-- source reads both pods once `a` has one; the first test has made the two sides alike.)
order_tied : ClaimAndPod → ClaimAndPod → Option Pod → Option Pod → ℤ
order_tied a b (some p) (some q) = pod_deletion_order p q
order_tied a b _ _ = sub_ℕ b.claim.created a.claim.created

unfoldable pub claim_deletion_order : ClaimAndPod → ClaimAndPod → ℤ
unfolding order_tied score_has_pod
claim_deletion_order a b =
    if not (score_has_pod a == score_has_pod b)
    then sub_ℕ (score_has_pod a) (score_has_pod b)
    else if not
        (claim_phase_to_ordinal a.claim.status.phase == claim_phase_to_ordinal b.claim.status.phase)
    then sub_ℕ (claim_phase_to_ordinal a.claim.status.phase)
        (claim_phase_to_ordinal b.claim.status.phase)
    else order_tied a b a.pod b.pod
