-- ===== src/Claim/Reclaim.antt =====
-- Giving a pod back: reclaimCN and transferPodOwnership of pkg/controllers/cnclaim/controller.go.
use matrixone_operator.Base.{String, none, List, [], ◌∷◌}
use matrixone_operator.Base.Map.{insert}
use matrixone_operator.Api.Keys.{delete_on_reclaim_anno}
use matrixone_operator.Base.Run.{
  api, resync, failed, panicked, out_of_fuel, Run, done, fail, M, ◌>>◌, missing,
}
use matrixone_operator.Api.Claim.{WorkState, CnService, Claim}
use matrixone_operator.Api.Pod.{Pod}
use matrixone_operator.Claim.State.{patch_pod, ClaimState, Server, perform}
use matrixone_operator.Claim.Labels.{reclaim_labels, reclaim_annotations, transfer_labels}
use matrixone_operator.Claim.Store.{patch_cn_store}

-- The option of reclaimCN that marks the pod for deletion.
unfoldable pub delete_on_reclaim : Pod → Pod
delete_on_reclaim p = record p { annotations = insert delete_on_reclaim_anno "y" p.annotations }

-- `for _, opt := range opts { opt(pod) }`
unfoldable pub apply_all : List (Pod → Pod) → Pod → Pod
apply_all [] p = p
apply_all (o ∷ os) p = apply_all os (o p)

-- The pod that reclaimCN patches.
unfoldable pub reclaimed_pod : String → Claim → List (Pod → Pod) → Pod → Pod
unfolding apply_all
reclaimed_pod time c opts p = apply_all opts (record p {
  labels = reclaim_labels c p.labels;
  annotations = reclaim_annotations time p.annotations;
})

-- The pod that transferPodOwnership patches.
unfoldable pub transferred_pod : Claim → Claim → Pod → Pod
transferred_pod from to p = record p { labels = transfer_labels from to p.labels }

module _ (k : Server) where
  -- A store that HAKeeper does not know needs no draining.
  unfoldable pub tolerate_missing : Run ClaimState CnService → Run ClaimState (Unit {0})
  tolerate_missing (done cn s) = done tt s
  tolerate_missing (fail missing s) = done tt s
  tolerate_missing (fail (api e) s) = fail (api e) s
  tolerate_missing (fail (resync n) s) = fail (resync n) s
  tolerate_missing (fail failed s) = fail failed s
  tolerate_missing (fail panicked s) = fail panicked s
  tolerate_missing (fail out_of_fuel s) = fail out_of_fuel s

  abbrev pub patch_the_pod : Pod → M ClaimState Pod
  patch_the_pod sent = λ s. perform (patch_pod sent) (k.write_pod s.calls sent) s

  unfoldable pub drain_store : Pod → M ClaimState (Unit {0})
  unfolding tolerate_missing
  drain_store p s = tolerate_missing (patch_cn_store k p WorkState.draining none s)

  -- The pod as the server returns it.
  unfoldable pub reclaim_cn : List (Pod → Pod) → Pod → M ClaimState Pod
  unfolding drain_store
  reclaim_cn opts p = do
    drain_store p
    λ s. patch_the_pod (reclaimed_pod (k.now_text s.calls) s.claim opts p) s

  unfoldable pub transfer_pod_ownership : Claim → Claim → Pod → M ClaimState Pod
  transfer_pod_ownership from to p = patch_the_pod (transferred_pod from to p)
