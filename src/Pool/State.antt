-- ===== src/Pool/State.antt =====
-- What a pool's reconciler knows of its sets, the calls that it makes and the server that answers
-- them: CNPool of api/core/v1alpha1/cnpool_types.go and CNSetSpec of cnset_types.go.
use matrixone_operator.Base.{if◌then◌else◌, ℕ, String, Bool, Option, none, some, List, ◌∷◌}
use matrixone_operator.Base.Map.{Map}
use matrixone_operator.Base.Run.{
  not_found, conflict, refused, api, Answer, ok, err, M, ◌>>=◌, pure, throw, answer,
}
use matrixone_operator.Api.Claim.{CnLabel, Claim}
use matrixone_operator.Api.Pod.{Pod}
use matrixone_operator.Api.Sets.{ScalingConfig}
use matrixone_operator.Api.Version.{Version}

-- An overlay of the pods, with the maps that the pool writes.
pub record Overlay : Type 0 where
  pub pod_labels : Map
  pub pod_annotations : Map

-- CNSetSpec, with the fields that the pool reads or writes. `rest` stands for the fields of its PodSet
-- and ConfigThatChangeCNSpec that are only copied; the operator version is the text as it is written,
-- if it is; a rolling update takes numbers of pods.
pub record SetSpec : Type 0 where
  pub image : String
  pub config : Option String
  pub overlay : Option Overlay
  pub replicas : ℕ
  pub operator_version : Option String
  pub rest : String
  pub service_type : String
  pub service_annotations : Map
  pub node_port : Option ℕ
  pub labels : List CnLabel
  pub scaling_config : ScalingConfig
  pub max_surge : Option ℕ
  pub max_unavailable : Option ℕ
  pub pod_management_policy : Option String
  pub pods_to_delete : List String
  pub pause_update : Bool

-- A CNSet: its metadata, its specification and what the pool reads of its status.
pub record SetItem : Type 0 where
  pub name : String
  pub labels : Map
  pub spec : SetSpec
  pub status_replicas : ℕ
  pub label_selector : String

-- CNPool, with the maximum of pods of its scaling strategy as it is written.
pub record CnPool : Type 0 where
  pub kind : String
  pub name : String
  pub uid : String
  pub template : SetSpec
  pub pod_labels : Map
  pub max_idle : ℕ
  pub max_pods : Option ℕ

max_int32_or : Option ℕ → ℕ
max_int32_or none = 2147483647
max_int32_or (some n) = n

unfoldable pub get_max_pods : CnPool → ℕ
unfolding max_int32_or
get_max_pods p = max_int32_or p.max_pods

-- The parts of a CNSetSpec that the revision hash is taken of: PodSet and ConfigThatChangeCNSpec.
pub record Revision : Type 0 where
  pub image : String
  pub config : Option String
  pub overlay : Option Overlay
  pub replicas : ℕ
  pub operator_version : Option String
  pub rest : String

-- Sets and pods are listed by their labels, all in the namespace of the pool.
pub data PoolCall : Type 0 where
  list_sets list_pods list_claims : Map → PoolCall
  read_claim outdate_claim read_set delete_set : String → PoolCall
  create_set : String → Map → SetSpec → PoolCall
  update_set : String → SetSpec → PoolCall
  update_pod : Pod → PoolCall
  delete_all_sets : Map → PoolCall

pub record PoolState : Type 0 where
  pub calls : List PoolCall

-- The API server; and HashControllerRevision, semver.ParseTolerant, the parser of label
-- selectors and equality.Semantic.DeepEqual. A set that is written is answered with the replicas of its status.
pub record PoolServer : Type 0 where
  pub hash : Revision → Option String
  pub parse_version : String → Option Version
  pub parse_selector : String → Option Map
  pub deep_equal : SetSpec → SetSpec → Bool
  pub sets : List PoolCall → Map → Answer (List SetItem)
  pub pods : List PoolCall → Map → Answer (List Pod)
  pub claims : List PoolCall → Map → Answer (List Claim)
  pub claim : List PoolCall → String → Answer (Unit {0})
  pub claim_outdated : List PoolCall → String → Answer (Unit {0})
  pub set : List PoolCall → String → Answer SetItem
  pub set_created : List PoolCall → String → SetSpec → Answer ℕ
  pub set_updated : List PoolCall → String → SetSpec → Answer ℕ
  pub set_deleted : List PoolCall → String → Answer (Unit {0})
  pub accepts : List PoolCall → Pod → Bool
  pub all_sets_deleted : List PoolCall → Answer (Unit {0})

abbrev pub called : PoolCall → PoolState → PoolState
called c s = record s { calls = c ∷ s.calls }

-- A call, with what the server answers to it after those made before.
abbrev pub ask {ℓ} : {A : Type ℓ} → PoolCall → (List PoolCall → Answer A) → M PoolState A
ask c f s = answer (f s.calls) (called c s)

module _ (k : PoolServer) where
  -- The set, with the specification written, and the replicas of its status.
  abbrev pub Written : Type 0
  Written = SetSpec × ℕ

  abbrev pub create : SetItem → SetSpec → M PoolState Written
  create i new = do
    n ← ask (create_set i.name i.labels new) (λ cs. k.set_created cs i.name new)
    pure (new, n)

  abbrev pub update : SetItem → SetSpec → M PoolState Written
  update i new = do
    n ← ask (update_set i.name new) (λ cs. k.set_updated cs i.name new)
    pure (new, n)

  -- A change that leaves the set as it is, is not sent.
  abbrev pub update_changed : SetItem → SetItem → SetSpec → M PoolState Written
  update_changed i found new =
      if k.deep_equal found.spec new then pure (new, found.status_replicas) else update i new

  abbrev pub write_found :
      SetItem → (SetSpec → M PoolState SetSpec) → Answer SetItem → M PoolState Written
  write_found i mutate (ok found) = mutate found.spec >>= update_changed i found
  write_found i mutate (err not_found) = mutate i.spec >>= create i
  write_found i mutate (err conflict) = throw (api conflict)
  write_found i mutate (err refused) = throw (api refused)

  -- recon.CreateOwnedOrUpdate of a set, which does what pkg/utils/utils.go writes out under that name:
  -- the specification that the server has, or else that of the set given, is changed and sent.
  unfoldable pub create_owned_or_update :
      SetItem → (SetSpec → M PoolState SetSpec) → M PoolState Written
  create_owned_or_update i mutate s =
      write_found i mutate (k.set s.calls i.name) (called (read_set i.name) s)
