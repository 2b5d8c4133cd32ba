-- ===== src/Api/Keys.antt =====
-- Label and annotation keys and their values: api/core/v1alpha1/cnpool_types.go, cnclaim_types.go,
-- store_helper.go and pkg/controllers/common (and the keys of the kruise API that the code names).
use Prim.Native.String.{String}

abbrev pub phase_bound : String
phase_bound = "Bound"

abbrev pub phase_idle : String
phase_idle = "Idle"

abbrev pub phase_draining : String
phase_draining = "Draining"

abbrev pub phase_unknown : String
phase_unknown = "Unknown"

abbrev pub phase_terminating : String
phase_terminating = "Terminating"

abbrev pub direct_pod_label : String
direct_pod_label = "pool.matrixorigin.io/direct-pod"

abbrev pub pod_claimed_by_label : String
pod_claimed_by_label = "pool.matrixorigin.io/claimed-by"

abbrev pub cn_pod_phase_label : String
cn_pod_phase_label = "pool.matrixorigin.io/phase"

abbrev pub pool_name_label : String
pool_name_label = "pool.matrixorigin.io/pool-name"

abbrev pub pod_management_policy_anno : String
pod_management_policy_anno = "pool.matrixorigin.io/management-policy"

abbrev pub pod_management_policy_pooling : String
pod_management_policy_pooling = "Pooling"

abbrev pub pod_owner_name_label : String
pod_owner_name_label = "matrixorigin.io/owner"

abbrev pub claim_set_name_label : String
claim_set_name_label = "matrixorigin.io/claimset"

abbrev pub claim_instance_id_label : String
claim_instance_id_label = "claim.matrixorigin.io/instance-id"

abbrev pub delete_on_reclaim_anno : String
delete_on_reclaim_anno = "matrixorigin.io/delete-on-reclaim"

abbrev pub pod_last_owner_label : String
pod_last_owner_label = "matrixorigin.io/last-owner"

abbrev pub pod_outdated_label : String
pod_outdated_label = "matrixorigin.io/outdated"

abbrev pub reclaimed_at : String
reclaimed_at = "matrixorigin.io/reclaimed-at"

abbrev pub store_score_anno : String
store_score_anno = "matrixorigin.io/score"

abbrev pub deletion_cost_anno : String
deletion_cost_anno = "controller.kubernetes.io/pod-deletion-cost"

abbrev pub lifecycle_state_key : String
lifecycle_state_key = "lifecycle.apps.kruise.io/state"

abbrev pub lifecycle_normal : String
lifecycle_normal = "Normal"

abbrev pub lifecycle_preparing_delete : String
lifecycle_preparing_delete = "PreparingDelete"

abbrev pub lifecycle_preparing_update : String
lifecycle_preparing_update = "PreparingUpdate"

abbrev pub component_label_key : String
component_label_key = "matrixorigin.io/component"

abbrev pub instance_label_key : String
instance_label_key = "matrixorigin.io/instance"

abbrev pub store_draining_start_anno : String
store_draining_start_anno = "matrixorigin.io/store-draining-start"

abbrev pub store_connection_anno : String
store_connection_anno = "matrixorigin.io/connections"

abbrev pub store_cordon_anno : String
store_cordon_anno = "matrixorigin.io/store-cordon"

abbrev pub lock_restart_set : String
lock_restart_set = "matrixorigin.io/lock-restart"

abbrev pub diagnos_draining_anno : String
diagnos_draining_anno = "matrixorigin.io/diagnos-draining"

abbrev pub cn_uuid_label_key : String
cn_uuid_label_key = "matrixone.cloud/cn-uuid"

abbrev pub cn_label_annotation : String
cn_label_annotation = "matrixone.cloud/cn-label"

abbrev pub cn_state_anno : String
cn_state_anno = "matrixorigin.io/cn-state"

abbrev pub specified_delete_key : String
specified_delete_key = "apps.kruise.io/specified-delete"
