-- ===== src/Claim/Finalize.antt =====
-- Finalize of pkg/controllers/cnclaim/controller.go.
pub mod Safe
use matrixone_operator.Base.{Bool, true, false, List, [], ◌∷◌}
use matrixone_operator.Base.Run.{failed, M, ◌>>=◌, ◌>>◌, pure, throw}
use matrixone_operator.Api.Claim.{Claim, is_ready}
use matrixone_operator.Api.Pod.{Pod}
use matrixone_operator.Claim.State.{list_claims, ClaimState, Server, perform}
use matrixone_operator.Claim.Index.{ClaimIndex, holders, build_pod_claim_index}
use matrixone_operator.Claim.Select.{find_pods}
use matrixone_operator.Claim.Bind.{claimed_selector}
use matrixone_operator.Claim.Reclaim.{reclaim_cn, transfer_pod_ownership}

module _ (k : Server) where
  -- What becomes of one pod, given the other claims that refer to it. False: the loop stops.
  unfoldable pub give_up_pod : List Claim → Pod → M ClaimState Bool
  give_up_pod [] p = do _ ← reclaim_cn k [] p; pure true
  give_up_pod (holder ∷ []) p = elim (is_ready holder) [
    | false ↦ pure false
    | true ↦ λ s. (do _ ← transfer_pod_ownership k s.claim holder p; pure true) s
  ]
  give_up_pod (_ ∷ _ ∷ _) p = throw failed

  -- The loop over the owned pods.
  unfoldable pub give_up_pods : ClaimIndex → List Pod → M ClaimState Bool
  unfolding give_up_pod
  give_up_pods idx [] = pure false
  give_up_pods idx (p ∷ ps) = do
    go_on ← give_up_pod (holders p.name idx) p
    elim go_on [ false ↦ pure false | true ↦ give_up_pods idx ps ]

  abbrev pub all_claims : M ClaimState (List Claim)
  all_claims s = perform list_claims (k.claims s.calls) s

  unfoldable pub finalize_pods : List Pod → M ClaimState Bool
  unfolding give_up_pods
  finalize_pods [] = pure true
  finalize_pods (p ∷ ps) = λ s.
      (do claims ← all_claims; give_up_pods (build_pod_claim_index s.claim.name claims) (p ∷ ps)) s

  -- True: the finalizer can be removed.
  unfoldable pub finalize : M ClaimState Bool
  unfolding finalize_pods
  finalize = λ s. (do owned ← find_pods k (claimed_selector s.claim); finalize_pods owned) s
