-- ===== src/Api/Claim.antt =====
-- CNClaim and CNClaimSet: api/core/v1alpha1/cnclaim_types.go and cnclaim_helper.go. Times are seconds.
use Prim.Native.Nat.{ℕ}
use Prim.Native.String.{String}
use mathlib.Core.Bool.{Bool, true, false, ◌||◌}
use mathlib.Core.Option.{Option, none}
use mathlib.Core.List.{List, []}
use matrixone_operator.Base.Map.{Map}
use matrixone_operator.Base.Int.{ℤ}

-- `status.phase`; `unset` is the empty string.
pub data ClaimPhase : Type 0 where
  unset pending bound lost outdated : ClaimPhase

pub record PodRef : Type 0 where
  pub pod_name : String
  pub node_name : String

pub record CnLabel : Type 0 where
  pub key : String
  pub values : List String

-- metadata.WorkState of MatrixOne; `idle_state` stands for the values that the operator never sets.
pub data WorkState : Type 0 where
  working draining idle_state : WorkState

-- metadata.CNService of MatrixOne: a CN as HAKeeper knows it.
pub record CnService : Type 0 where
  pub service_id : String
  pub lock_service_address : String
  pub pipeline_service_address : String
  pub sql_address : String
  pub query_address : String
  pub work_state : WorkState
  pub labels : List CnLabel

pub record StoreStatus : Type 0 where
  pub service_id : String
  pub lock_service_address : String
  pub pipeline_service_address : String
  pub sql_address : String
  pub query_address : String
  pub work_state : WorkState
  pub labels : List CnLabel
  pub pod_name : String
  pub bound_time : Option ℕ

pub record Workload : Type 0 where
  pub connections : ℤ
  pub pipelines : ℤ
  pub replicas : ℤ

pub record ClaimSpec : Type 0 where
  pub pod_name : String
  pub node_name : String
  pub source_pod : Option PodRef
  -- the label selector, as the test that it stands for
  pub selector : Map → Bool
  pub cn_labels : List CnLabel
  pub owner_name : Option String
  pub additional_pod_labels : Map
  pub pool_name : String

pub record ClaimStatus : Type 0 where
  pub phase : ClaimPhase
  pub store : StoreStatus
  pub bound_time : Option ℕ
  pub migrate : Option Workload

pub record Claim : Type 0 where
  pub name : String
  pub labels : Map
  pub annotations : Map
  pub created : ℕ
  -- whether a deletion timestamp is set
  pub is_deleted : Bool
  pub spec : ClaimSpec
  pub status : ClaimStatus

-- The zero values of Go.
abbrev pub no_store : StoreStatus
no_store = record {
  service_id = "";
  lock_service_address = "";
  pipeline_service_address = "";
  sql_address = "";
  query_address = "";
  work_state = idle_state;
  labels = [];
  pod_name = "";
  bound_time = none;
}

abbrev pub no_status : ClaimStatus
no_status = record { phase = unset; store = no_store; bound_time = none; migrate = none }

abbrev is_bound : ClaimPhase → Bool
is_bound bound = true
is_bound _ = false

abbrev is_outdated : ClaimPhase → Bool
is_outdated outdated = true
is_outdated _ = false

-- The phase is Lost.
abbrev pub is_lost_phase : ClaimPhase → Bool
is_lost_phase lost = true
is_lost_phase _ = false

unfoldable pub is_ready : Claim → Bool
is_ready c = is_bound c.status.phase || is_outdated c.status.phase

unfoldable pub is_updated : Claim → Bool
is_updated c = is_bound c.status.phase

-- `DeletionTimestamp != nil`
unfoldable pub is_terminating : Claim → Bool
is_terminating c = c.is_deleted

-- The labels are a map that may be nil.
pub record ClaimTemplate : Type 0 where
  pub labels : Option Map
  pub annotations : Map
  pub spec : ClaimSpec

pub record ClaimSetStatus : Type 0 where
  pub replicas : ℕ
  pub ready_replicas : ℕ
  pub claims : List ClaimStatus
  -- the selector of the set's bound pods: the name of the set that it matches
  pub selector_labels : Map

pub record ClaimSet : Type 0 where
  pub name : String
  pub replicas : ℕ
  pub template : ClaimTemplate
  pub status : ClaimSetStatus
