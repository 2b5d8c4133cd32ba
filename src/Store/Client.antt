-- ===== src/Store/Client.antt =====
-- The calls of HAKeeper: withMOClientSet of pkg/controllers/cnstore/controller.go.
use matrixone_operator.Base.{if◌then◌else◌, ℕ, String, Bool, true, false}
use matrixone_operator.Base.Run.{resync, failed, done, fail, M, ◌>>=◌, ◌>>◌, pure, throw, missing}
use matrixone_operator.Api.Sets.{CnSet}
use matrixone_operator.Common.Owner.{OwnerKind}
use matrixone_operator.Common.Owner.OwnerKind.{cn_set}
use matrixone_operator.Common.Resolve.{resolve_cn_set, resolve_log_set}
use matrixone_operator.Claim.State.{StateLabel, Patched, patched, absent, rejected}
use matrixone_operator.Store.State.{
  read_owner, read_logs, patch_state, StoreState, StoreServer, recorded, request,
}

abbrev pub retry_interval : ℕ
retry_interval = 5

module _ (k : StoreServer) where
  abbrev pub fetch_cn_set : String → M StoreState CnSet
  fetch_cn_set name s = request (read_owner cn_set name) (k.cn_set s.calls name) s

  abbrev pub fetch_other : OwnerKind → String → M StoreState (Unit {0})
  fetch_other kind name s = request (read_owner kind name) (k.other_owner s.calls kind name) s

  abbrev pub fetch_log_set : String → M StoreState Bool
  fetch_log_set name s = request (read_logs name) (k.log_set s.calls name) s

  -- ResolveCNSet of the pod.
  unfoldable pub set_of_pod : M StoreState CnSet
  set_of_pod s = resolve_cn_set fetch_cn_set fetch_other s.pod.pod.labels s

  abbrev ready_client : String × Bool → M StoreState (Unit {0})
  ready_client (name, false) = throw (resync retry_interval)
  ready_client (name, true) = λ s. if k.has_client s.calls name then done tt s else fail failed s

  -- Runs `f` with the client set of the LogSet.
  unfoldable pub with_mo_client_set {ℓ} : {A : Type ℓ} → CnSet → M StoreState A → M StoreState A
  with_mo_client_set cs f = do found ← resolve_log_set fetch_log_set cs; ready_client found; f

  unfoldable pub patch_answer : Patched → M StoreState (Unit {0})
  patch_answer patched = pure tt
  patch_answer absent = throw missing
  patch_answer rejected = throw failed

  -- The call PatchCNStore.
  unfoldable pub patch_store_state : StateLabel → M StoreState (Unit {0})
  unfolding patch_answer
  patch_store_state req s = patch_answer (k.store s.calls req) (recorded (patch_state req) s)
