-- ===== src/Claim/Labels.antt =====
-- The pod labels that a claim manages: the label writes of ensureOwnership, reclaimCN and
-- transferPodOwnership in pkg/controllers/cnclaim/controller.go.
pub mod Writes
pub mod Selected
pub mod Handover
use matrixone_operator.Base.{◌=s◌, if◌then◌else◌, String, Option, none, some}
use matrixone_operator.Base.Map.{Map, lookup, get, insert, delete, insert_all, delete_all}
use matrixone_operator.Api.Keys.{
  phase_bound, phase_draining, pod_claimed_by_label, cn_pod_phase_label, pod_owner_name_label,
  claim_set_name_label, pod_last_owner_label, reclaimed_at,
}
use matrixone_operator.Api.Claim.{Claim}

-- `if v != "" { m[k] = v }`
pub insert_unless_empty : String → String → Map → Map
insert_unless_empty k v m = if v =s "" then m else insert k v m

-- `if p != nil { m[k] = *p }`
pub insert_some : String → Option String → Map → Map
insert_some k none m = m
insert_some k (some v) m = insert k v m

-- ensureOwnership, before the update.
unfoldable pub own_labels : Claim → Map → Map
unfolding insert_unless_empty insert_some
own_labels c m = insert_some pod_owner_name_label c.spec.owner_name (
    insert_unless_empty claim_set_name_label (get claim_set_name_label c.labels) (
      insert pod_claimed_by_label c.name
        (insert cn_pod_phase_label phase_bound (insert_all c.spec.additional_pod_labels m))))

-- The owner label becomes the last-owner label.
pub remember_owner : Option String → Map → Map
remember_owner none m = m
remember_owner (some v) m = insert pod_last_owner_label v (delete pod_owner_name_label m)

-- reclaimCN, the labels.
unfoldable pub reclaim_labels : Claim → Map → Map
unfolding remember_owner
reclaim_labels c m =
    let drained = delete pod_claimed_by_label (insert cn_pod_phase_label phase_draining m) in
    delete_all c.spec.additional_pod_labels
      (remember_owner (lookup pod_owner_name_label drained) drained)

-- reclaimCN, the annotations; the time is written as RFC 3339 text.
unfoldable pub reclaim_annotations : String → Map → Map
reclaim_annotations time m = insert reclaimed_at time m

-- `if v != "" { m[k] = v } else { delete(m, k) }`
pub insert_or_delete : String → String → Map → Map
insert_or_delete k v m = if v =s "" then delete k m else insert k v m

-- `if p != nil { m[k] = *p } else { delete(m, k) }`
pub insert_some_or_delete : String → Option String → Map → Map
insert_some_or_delete k none m = delete k m
insert_some_or_delete k (some v) m = insert k v m

-- transferPodOwnership, before the patch.
unfoldable pub transfer_labels : Claim → Claim → Map → Map
unfolding insert_or_delete insert_some_or_delete
transfer_labels from to m = insert_some_or_delete pod_owner_name_label to.spec.owner_name (
    insert_or_delete claim_set_name_label (get claim_set_name_label to.labels) (
      insert pod_claimed_by_label to.name (
        insert cn_pod_phase_label phase_bound (
          insert_all to.spec.additional_pod_labels
            (delete_all from.spec.additional_pod_labels m)))))
