-- ===== src/Api/LogSet.antt =====
-- The LogSet of the API: api/core/v1alpha1/logset_types.go, and S3Provider of common_types.go.
use matrixone_operator.Base.{ℕ, String, Option, none, some, List}
use matrixone_operator.Base.Int.{ℤ}

abbrev pub policy_delete : String
policy_delete = "Delete"

abbrev pub policy_retain : String
policy_retain = "Retain"

-- S3Provider. Secrets and certificates are kept by name.
pub record S3Provider : Type 0 where
  pub path : String
  pub kind : Option String
  pub region : String
  pub endpoint : String
  pub secret : Option String
  pub certificate : Option String
  pub retention_policy : Option String

pub record InitialConfig : Type 0 where
  pub log_shards : Option ℤ
  pub dn_shards : Option ℤ
  pub log_shard_replicas : Option ℤ
  pub restore_from : Option String

-- LogSetSpec, with the fields of its PodSet that the rules below read. `file_system` is the path of a
-- file-system storage; sizes are in bytes, and the timeout in seconds.
pub record LogSetSpec : Type 0 where
  pub replicas : ℕ
  pub image : String
  pub semantic_version : Option String
  pub operator_version : Option String
  pub memory_limit_percent : Option ℤ
  pub service_args : List String
  pub volume_size : ℕ
  pub storage_class : Option String
  pub s3 : Option S3Provider
  pub file_system : Option String
  pub initial_config : InitialConfig
  pub store_failure_timeout : Option ℕ
  pub failed_pod_strategy : Option String
  pub pvc_retention_policy : Option String

pub record LogSet : Type 0 where
  pub namespace : String
  pub name : String
  pub uid : String
  pub spec : LogSetSpec

abbrev pub or_default {ℓ} : {A : Type ℓ} → A → Option A → A
or_default d none = d
or_default d (some a) = a

abbrev pub strategy_orphan : String
strategy_orphan = "Orphan"

abbrev pub strategy_delete : String
strategy_delete = "Delete"

abbrev pub get_failed_pod_strategy : LogSetSpec → String
get_failed_pod_strategy l = or_default strategy_delete l.failed_pod_strategy

-- `10 * time.Minute`
abbrev pub default_store_failure_timeout : ℕ
default_store_failure_timeout = 600

abbrev pub get_store_failure_timeout : LogSetSpec → ℕ
get_store_failure_timeout l = or_default default_store_failure_timeout l.store_failure_timeout

abbrev pub s3_policy_of : Option S3Provider → Option String
s3_policy_of none = none
s3_policy_of (some s) = s.retention_policy

unfoldable pub get_pvc_retention_policy : LogSetSpec → String
get_pvc_retention_policy l = elim l.pvc_retention_policy [
  | some p ↦ p
  | none ↦ or_default policy_delete (s3_policy_of l.s3)
]

unfoldable pub get_s3_retention_policy : LogSetSpec → Option String
get_s3_retention_policy l = elim l.s3 [
  | none ↦ none
  | some s ↦ (elim s.retention_policy [
    | some p ↦ some p
    | none ↦ some (or_default policy_delete l.pvc_retention_policy)
  ])
]
