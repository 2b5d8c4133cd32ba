-- ===== src/Store/Readiness.antt =====
-- The readiness of a CN pod: patchCNReadiness and setCNState of pkg/controllers/cnstore/controller.go.
use matrixone_operator.Base.{if◌then◌else◌, ℕ, String, Bool, true, false, not, Option, none, some}
use matrixone_operator.Base.Map.{insert}
use matrixone_operator.Api.Keys.{cn_state_anno}
use matrixone_operator.Base.Run.{M}
use matrixone_operator.Store.State.{
  Readiness, CnPod, StoreState, StoreServer, set_annotations, patch_status_with,
}

-- Why a pod is or is not ready.
abbrev pub message_prepare_stop : String
message_prepare_stop = "CNStorePrepareStop"

abbrev pub message_cordon : String
message_cordon = "CNStoreCordon"

abbrev pub message_ready : String
message_ready = "CNStoreReady"

abbrev pub message_not_registered : String
message_not_registered = "CNStoreNotRegistered"

same_status : Bool → Bool → Bool
same_status true b = b
same_status false b = not b

updated_readiness : ℕ → Bool → String → Option Readiness → Readiness
unfolding same_status
updated_readiness now holds msg none = record { holds = holds; message = msg; changed_at = now }
updated_readiness now holds msg (some r) =
    if same_status r.holds holds
    then record r { message = msg }
    else record { holds = holds; message = msg; changed_at = now }

-- What patchCNReadiness writes.
unfoldable pub with_readiness : ℕ → Bool → String → CnPod → CnPod
unfolding updated_readiness
with_readiness now holds msg p =
    set_annotations (insert cn_state_anno "Up" p.pod.annotations)
      (record p { readiness = some (updated_readiness now holds msg p.readiness) })

module _ (k : StoreServer) where
  unfoldable pub patch_cn_readiness : Bool → String → M StoreState (Unit {0})
  patch_cn_readiness holds msg =
      λ s. patch_status_with k (with_readiness (k.now s.calls) holds msg) s
