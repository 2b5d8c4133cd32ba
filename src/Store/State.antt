-- ===== src/Store/State.antt =====
-- The state of a reconciliation of a CN pod (pkg/controllers/cnstore), and the calls that it makes of
-- the API server, HAKeeper, the lock service and the query service of the CN. None of these is part of
-- the repository: each answer is a parameter, which may depend on all calls made before.
use matrixone_operator.Base.{ℕ, String, Bool, Option, none, some, List, ◌∷◌}
use matrixone_operator.Base.Map.{Map}
use matrixone_operator.Base.Run.{failed, Answer, done, fail, M, ◌>>=◌, answer}
use matrixone_operator.Api.Claim.{CnLabel, CnService}
use matrixone_operator.Api.Pod.{Pod}
use matrixone_operator.Api.Sets.{CnSet}
use matrixone_operator.Api.Version.{Version}
use matrixone_operator.Common.Owner.{OwnerKind}
use matrixone_operator.Common.Score.{Json}
use matrixone_operator.Claim.State.{StateLabel, Patched}

-- The pod condition CNStoreReadiness.
pub record Readiness : Type 0 where
  pub holds : Bool
  pub message : String
  pub changed_at : ℕ

-- A pod, with the fields that only this controller uses.
pub record CnPod : Type 0 where
  pub pod : Pod
  pub readiness : Option Readiness
  -- whether it has the finalizer CNDrainingFinalizer
  pub has_finalizer : Bool
  -- when its main container started, if that runs
  pub started : Option ℕ

-- querypb: a session of the process list.
pub record Session : Type 0 where
  pub from_proxy : Bool
  pub account : String

pub data StoreCall : Type 0 where
  read_owner : OwnerKind → String → StoreCall
  read_logs : String → StoreCall
  patch_state : StateLabel → StoreCall
  update_labels : String → List CnLabel → StoreCall
  delete_store can_restart remain_txns set_restart : String → StoreCall
  show_process_list pipeline_query replica_query : String → StoreCall
  write_pod write_pod_status : CnPod → StoreCall
  delete_pod : String → StoreCall

pub record StoreState : Type 0 where
  pub pod : CnPod
  pub calls : List StoreCall

-- `none` stands for the error of a remote call.
pub record StoreServer : Type 0 where
  pub cn_set : List StoreCall → String → Answer CnSet
  pub other_owner : List StoreCall → OwnerKind → String → Answer (Unit {0})
  -- the LogSet: whether it is ready
  pub log_set : List StoreCall → String → Answer Bool
  pub has_client : List StoreCall → String → Bool
  pub store : List StoreCall → StateLabel → Patched
  pub labels_updated : List StoreCall → String → List CnLabel → Bool
  pub store_deleted : List StoreCall → String → Bool
  pub store_cached : List StoreCall → String → Option CnService
  pub restart_allowed : List StoreCall → String → Option Bool
  pub restart_set : List StoreCall → String → Option Bool
  pub process_list : List StoreCall → String → Option (List Session)
  pub pipelines : List StoreCall → String → Option ℕ
  pub replicas : List StoreCall → String → Option ℕ
  pub pod_written : List StoreCall → CnPod → Answer CnPod
  pub pod_deleted : List StoreCall → String → Answer (Unit {0})
  -- the clock, in seconds
  pub now : List StoreCall → ℕ
  -- RFC 3339
  pub format_time : ℕ → String
  pub parse_time : String → Option ℕ
  pub json : Json
  pub unmarshal_labels : String → Option (List CnLabel)
  pub version_of : Pod → Version
  pub pod_uuid : Pod → String

abbrev pub recorded : StoreCall → StoreState → StoreState
recorded c s = record s { calls = c ∷ s.calls }

abbrev pub request {ℓ} : {A : Type ℓ} → StoreCall → Answer A → M StoreState A
request c a s = answer a (recorded c s)

-- A remote call.
abbrev pub remote {ℓ} : {A : Type ℓ} → StoreCall → Option A → M StoreState A
remote c none s = fail failed (recorded c s)
remote c (some a) s = done a (recorded c s)

abbrev pub set_pod : CnPod → M StoreState (Unit {0})
set_pod p s = done tt (record s { pod = p })

abbrev pub set_labels : Map → CnPod → CnPod
set_labels m p = record p { pod = record q { labels = m } }
  where
    q : Pod
    q = p.pod

abbrev pub set_annotations : Map → CnPod → CnPod
set_annotations m p = record p { pod = record q { annotations = m } }
  where
    q : Pod
    q = p.pod

module _ (k : StoreServer) where
  -- A patch of the pod, whose answer replaces the pod in memory.
  -- The pod in memory is the one sent, also where the server refuses it.
  abbrev sent_pod : (CnPod → StoreCall) → CnPod → M StoreState (Unit {0})
  sent_pod call sent = λ s.
      (do
        p ← λ t. request (call sent) (k.pod_written t.calls sent) (record t { pod = sent })
        set_pod p)
        s

  abbrev pub patch_pod_with : (CnPod → CnPod) → M StoreState (Unit {0})
  patch_pod_with f s = sent_pod write_pod (f s.pod) s

  abbrev pub patch_status_with : (CnPod → CnPod) → M StoreState (Unit {0})
  patch_status_with f s = sent_pod write_pod_status (f s.pod) s
