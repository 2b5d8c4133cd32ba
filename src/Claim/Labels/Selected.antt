-- ===== src/Claim/Labels/Selected.antt =====
-- What the label writes of a claim mean for the selectors that find pods.
use matrixone_operator.Base.{◌=s◌, String, ◌≡◌, refl, ◌∙◌, false, Option, none, some, arith}
use matrixone_operator.Base.Map.{Map, lookup, insert, delete, lookup-delete, lookup-delete_all}
use matrixone_operator.Api.Keys.{
  phase_draining, pod_claimed_by_label, cn_pod_phase_label, pod_owner_name_label,
  pod_last_owner_label,
}
use matrixone_operator.Api.Claim.{Claim}
use matrixone_operator.Claim.Labels.{own_labels, reclaim_labels, transfer_labels, remember_owner}
use matrixone_operator.Claim.Select.{idle_selector}
use matrixone_operator.Claim.Bind.{claimed_selector}
use matrixone_operator.Claim.Labels.Writes.{
  IsBoundTo, insert_other, own_labels-IsBoundTo, transfer_labels-IsBoundTo,
}

-- Which of the two selectors finds a pod that is bound.
pub selected_if_bound :
    (c : Claim) (name : String) (m : Map)
    → IsBoundTo name m
    → (claimed_selector c m ≡ (name =s c.name)) × (idle_selector c m ≡ false)
unfolding claimed_selector idle_selector
selected_if_bound c name m b = (rw (b.0, b.1) refl, rw b.0 (ground arith))

unclaimed :
    (c : Claim) (m : Map) → lookup pod_claimed_by_label m ≡ none → claimed_selector c m ≡ false
unfolding claimed_selector
unclaimed c m e = ground (arith, e)

remembered_none :
    (o : Option String) (m : Map)
    → lookup pod_claimed_by_label m ≡ none
    → lookup pod_claimed_by_label (remember_owner o m) ≡ none
unfolding remember_owner
remembered_none none m e = e
remembered_none (some v) m e =
    insert_other pod_last_owner_label v pod_claimed_by_label (delete pod_owner_name_label m) refl
    ∙ lookup-delete pod_owner_name_label pod_claimed_by_label m
    ∙ e

reclaim_labels-none :
    (c : Claim) (m : Map) → lookup pod_claimed_by_label (reclaim_labels c m) ≡ none
unfolding reclaim_labels
reclaim_labels-none c m = ground (
  arith,
  lookup-delete_all c.spec.additional_pod_labels pod_claimed_by_label
      (remember_owner (lookup pod_owner_name_label drained) drained),
  remembered_none (lookup pod_owner_name_label drained) drained (
      lookup-delete pod_claimed_by_label pod_claimed_by_label
        (insert cn_pod_phase_label phase_draining m)),
)
  where
    drained : Map
    drained = delete pod_claimed_by_label (insert cn_pod_phase_label phase_draining m)

-- A pod labelled by ensureOwnership or transferPodOwnership for a claim is selected as a claimed
-- pod by claims of that name and by no other, and never as an idle one; one labelled by reclaimCN
-- is selected as a claimed pod by no claim.
pub selected_after_write :
    (c d from : Claim) (m : Map)
    → (claimed_selector c (own_labels d m) ≡ (d.name =s c.name))
      × (claimed_selector c (transfer_labels from d m) ≡ (d.name =s c.name))
      × (claimed_selector c (reclaim_labels d m) ≡ false)
      × (idle_selector c (own_labels d m) ≡ false)
      × (idle_selector c (transfer_labels from d m) ≡ false)
selected_after_write c d from m =
    (own.0, moved.0, unclaimed c (reclaim_labels d m) (reclaim_labels-none d m), own.1, moved.1)
  where
    own :
        (claimed_selector c (own_labels d m) ≡ (d.name =s c.name))
        × (idle_selector c (own_labels d m) ≡ false)
    own = selected_if_bound c d.name (own_labels d m) (own_labels-IsBoundTo d m)

    moved :
        (claimed_selector c (transfer_labels from d m) ≡ (d.name =s c.name))
        × (idle_selector c (transfer_labels from d m) ≡ false)
    moved =
        selected_if_bound c d.name (transfer_labels from d m) (transfer_labels-IsBoundTo from d m)
