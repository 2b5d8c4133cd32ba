-- ===== src/ClaimSet/Order/Contract.antt =====
-- The deletion orders meet the contract of slices.SortFunc: each is a chain of comparisons.
use Prim.Native.String.{len}
use Prim.Native.String.len
use Prim.Native.String.compare
use text.Mathlib.TextPositions.{len_utf8-pos}
use matrixone_operator.Base.{
  ◌==◌, ◌=s◌, if◌then◌else◌, =s_iff, ℕ, ◌<◌, String, ◌≡◌, refl, ◌⊎◌, inl, inr, Bool, true, false,
  not, ◌&&◌, ◌||◌, Option, none, some, arith,
}
use matrixone_operator.Base.Int.{
  ℤ, pos, negsuc, sub_ℕ, or_else, AtMost, Swaps, IsOrder, sub_ℕ-IsOrder, or_else-IsOrder,
  flip-IsOrder, along-IsOrder, SameSign, SameSign-IsOrder,
}
use matrixone_operator.Api.Pod.{Pod}
use matrixone_operator.ClaimSet.Order.{
  ClaimAndPod, pod_phase_to_ordinal, claim_phase_to_ordinal, pod_deletion_cost, order_costs,
  pod_deletion_order, claim_deletion_order, score_has_pod, score_of, same_bool, order_tied,
}

-- A text has length 0 only if it is empty.
len-pos : (s : String) → (((s =s "") ≡ true) × (len s ≡ 0)) ⊎ (((s =s "") ≡ false) × (0 < len s))
len-pos String.[] = inl (refl, refl)
len-pos (String.◌∷◌ c s) = inr (is_false, omega (arith, len.cons c s, (len_utf8-pos c).1))
  where
    is_false : (String.◌∷◌ c s =s "") ≡ false
    is_false = rw (compare.cons-nil c s)

-- 1. unscheduled before scheduled
by_node : Pod → Pod → ℤ
by_node a b =
    if not (a.node_name =s b.node_name) && (a.node_name =s "" || b.node_name =s "")
    then sub_ℕ (len a.node_name) (len b.node_name)
    else pos 0

by_node-IsOrder : IsOrder by_node
unfolding by_node
by_node-IsOrder = record {
  swaps = λ a b. record {
    less = ground (arith, =s_iff a.node_name b.node_name, =s_iff b.node_name a.node_name);
    greater = ground (arith, =s_iff a.node_name b.node_name, =s_iff b.node_name a.node_name);
  };
  trans = λ a b d p q. ground (
    arith,
    =s_iff a.node_name "",
    =s_iff b.node_name "",
    =s_iff d.node_name "",
    =s_iff a.node_name b.node_name,
    =s_iff b.node_name d.node_name,
    =s_iff a.node_name d.node_name,
    len-pos a.node_name,
    len-pos b.node_name,
    len-pos d.node_name,
  );
}

-- 2. Pending < Failed < Running
by_phase : Pod → Pod → ℤ
by_phase a b = sub_ℕ (pod_phase_to_ordinal a.phase) (pod_phase_to_ordinal b.phase)

-- 3. NotReady < Ready
abbrev ready_rank : Bool → ℕ
ready_rank true = 1
ready_rank false = 0

by_ready : Pod → Pod → ℤ
by_ready a b = sub_ℕ (ready_rank a.is_ready) (ready_rank b.is_ready)

-- 4. the cheaper first
compare_costs : ℤ → ℤ → ℤ
unfolding order_costs
compare_costs a b = order_costs a b (pos 0)

compare_costs-IsOrder : IsOrder compare_costs
unfolding compare_costs
compare_costs-IsOrder = record {
  swaps = λ a b. record { less = ground arith; greater = ground arith };
  trans = λ a b d p q. ground arith;
}

-- 5. the newer first
by_age : Pod → Pod → ℤ
by_age a b = sub_ℕ b.created a.created

-- The pod order as the chain of the five.
chained : Pod → Pod → ℤ
chained a b = or_else (by_node a b) (
    or_else (by_phase a b) (
      or_else (by_ready a b)
        (or_else (compare_costs (pod_deletion_cost a) (pod_deletion_cost b)) (by_age a b))))

chained-IsOrder : IsOrder chained
unfolding chained by_phase by_ready by_age
chained-IsOrder = or_else-IsOrder by_node-IsOrder (
    or_else-IsOrder (sub_ℕ-IsOrder (λ p. pod_phase_to_ordinal p.phase)) (
      or_else-IsOrder (sub_ℕ-IsOrder (λ p. ready_rank p.is_ready)) (
        or_else-IsOrder (along-IsOrder compare_costs pod_deletion_cost compare_costs-IsOrder)
          (flip-IsOrder (sub_ℕ-IsOrder (λ p. p.created))))))

-- Each test of the source has the sign of its link in the chain.
node_link :
    (a b : Pod) (r s : ℤ)
    → SameSign r s
    → SameSign
        (if not (a.node_name =s b.node_name) && (a.node_name =s "" || b.node_name =s "")
          then sub_ℕ (len a.node_name) (len b.node_name)
          else r)
        (or_else (by_node a b) s)
unfolding by_node
node_link a b r s h = ground (
  arith,
  =s_iff a.node_name "",
  =s_iff b.node_name "",
  =s_iff a.node_name b.node_name,
  len-pos a.node_name,
  len-pos b.node_name,
)

number_link :
    (x y : ℕ) (r s : ℤ)
    → SameSign r s
    → SameSign (if not (x == y) then sub_ℕ x y else r) (or_else (sub_ℕ x y) s)
number_link x y r s h = ground arith

ready_link :
    (a b : Bool) (r s : ℤ)
    → SameSign r s
    → SameSign
        (if not (same_bool a b) then (if a then pos 1 else negsuc 0) else r)
        (or_else (sub_ℕ (ready_rank a) (ready_rank b)) s)
unfolding same_bool
ready_link a b r s h = ground arith

cost_link : (a b r : ℤ) → SameSign (order_costs a b r) (or_else (compare_costs a b) r)
unfolding order_costs compare_costs
cost_link a b r = ground arith

chained-SameSign : (a b : Pod) → SameSign (pod_deletion_order a b) (chained a b)
unfolding pod_deletion_order chained by_phase by_ready by_age
chained-SameSign a b = node_link a b _ _ (
    number_link (pod_phase_to_ordinal a.phase) (pod_phase_to_ordinal b.phase) _ _ (
      ready_link a.is_ready b.is_ready _ _
        (cost_link (pod_deletion_cost a) (pod_deletion_cost b) (sub_ℕ b.created a.created))))

pub pod_deletion_order-IsOrder : IsOrder pod_deletion_order
pod_deletion_order-IsOrder =
    SameSign-IsOrder pod_deletion_order chained chained-SameSign chained-IsOrder

-- The tie as an order on all claims: those without a pod first, by age, then the others by pod.
abbrev Aged : Type 0
Aged = Option Pod × ℕ

by_tie : Aged → Aged → ℤ
by_tie (some p, m) (some q, n) = pod_deletion_order p q
by_tie (none, m) (none, n) = sub_ℕ n m
by_tie (none, m) (some q, n) = negsuc 0
by_tie (some p, m) (none, n) = pos 1

by_tie-Swaps : (a b : Aged) → Swaps by_tie a b
unfolding by_tie
by_tie-Swaps (some p, m) (some q, n) = record {
  less = (pod_deletion_order-IsOrder.swaps p q).less;
  greater = (pod_deletion_order-IsOrder.swaps p q).greater;
}
by_tie-Swaps (none, m) (none, n) = record { less = ground arith; greater = ground arith }
by_tie-Swaps (none, m) (some q, n) = record { less = refl; greater = refl }
by_tie-Swaps (some p, m) (none, n) = record { less = refl; greater = refl }

by_tie_trans : (a b d : Aged) → AtMost (by_tie a b) → AtMost (by_tie b d) → AtMost (by_tie a d)
unfolding by_tie
by_tie_trans (some p, m) (some q, n) (some r, o) h k = pod_deletion_order-IsOrder.trans p q r h k
by_tie_trans (none, m) (none, n) (none, o) h k = ground arith
by_tie_trans (none, m) (_, n) (some r, o) h k = refl
by_tie_trans (some p, m) (none, n) (_, o) h k = cc
by_tie_trans (_, m) (some q, n) (none, o) h k = cc

by_tie-IsOrder : IsOrder by_tie
by_tie-IsOrder = record { swaps = by_tie-Swaps; trans = by_tie_trans }

aged : ClaimAndPod → Aged
aged c = (c.pod, c.claim.created)

ordinal : ClaimAndPod → ℕ
ordinal c = claim_phase_to_ordinal c.claim.status.phase

claim_chain : ClaimAndPod → ClaimAndPod → ℤ
claim_chain a b =
    or_else (sub_ℕ (score_has_pod a) (score_has_pod b))
      (or_else (sub_ℕ (ordinal a) (ordinal b)) (by_tie (aged a) (aged b)))

claim_chain-IsOrder : IsOrder claim_chain
unfolding claim_chain
claim_chain-IsOrder =
    or_else-IsOrder (sub_ℕ-IsOrder score_has_pod)
      (or_else-IsOrder (sub_ℕ-IsOrder ordinal) (along-IsOrder by_tie aged by_tie-IsOrder))

-- With as many pods on both sides the source's tie is the order's.
tied-eq-by_tie :
    (a b : ClaimAndPod) (p q : Option Pod)
    → score_of p ≡ score_of q
    → order_tied a b p q ≡ by_tie (p, a.claim.created) (q, b.claim.created)
unfolding order_tied by_tie score_of
tied-eq-by_tie a b (some p) (some q) h = refl
tied-eq-by_tie a b none none h = refl
tied-eq-by_tie a b (some p) none h = absurd (omega arith)
tied-eq-by_tie a b none (some q) h = absurd (omega arith)

claim_chain-SameSign : (a b : ClaimAndPod) → SameSign (claim_deletion_order a b) (claim_chain a b)
unfolding claim_deletion_order claim_chain score_has_pod ordinal aged
claim_chain-SameSign a b = ground (arith, tied-eq-by_tie a b a.pod b.pod)

-- claimDeletionOrder is a strict weak order, as slices.SortFunc requires of its argument: swapping
-- its arguments flips the sign, and not coming after is transitive.
pub claim_deletion_order-IsOrder : IsOrder claim_deletion_order
claim_deletion_order-IsOrder =
    SameSign-IsOrder claim_deletion_order claim_chain claim_chain-SameSign claim_chain-IsOrder
