-- ===== src/Cluster.antt =====
-- A MatrixOne cluster, which owns the sets that run it: its state in pkg/controllers/mocluster, and the
-- calls that its controller makes. What the sets are told beside their being there is left out.
pub mod Metric
pub mod Up
pub mod Finalize
mod Tests
use matrixone_operator.Base.{ℕ, String, Bool, Option, List, ◌∷◌}
use matrixone_operator.Base.Run.{Answer, done, M, answer}
use matrixone_operator.Base.Map.{Map}

-- MatrixOneClusterSpec: the names of the CN groups, and which of the optional parts there are.
pub record Cluster : Type 0 where
  pub namespace : String
  pub name : String
  pub restore_from : Option String
  pub cn_groups : List String
  pub has_tp : Bool
  pub has_ap : Bool
  pub has_web_ui : Bool
  pub has_proxy : Bool
  pub metric_reader_enabled : Bool

-- The status of a set, as far as the cluster reads it: its conditions Ready and Synced.
pub record SetStatus : Type 0 where
  pub ready : Bool
  pub synced : Bool
  pub host : String
  pub port : ℕ

-- A CNSet that the server lists.
pub record CnSetItem : Type 0 where
  pub set_name : String
  pub set_status : SetStatus

-- CNGroupStatus
pub record CnGroupStatus : Type 0 where
  pub group_name : String
  pub group_host : String
  pub group_ready : Bool
  pub group_synced : Bool

-- CNGroupsStatus
pub record CnGroupsStatus : Type 0 where
  pub desired_groups : ℕ
  pub ready_groups : ℕ
  pub synced_groups : ℕ
  pub groups : List CnGroupStatus

-- A condition: whether it holds, and its reason.
pub record Condition : Type 0 where
  pub holds : Bool
  pub reason : String

-- MatrixOneClusterStatus
pub record ClusterStatus : Type 0 where
  pub credential_ref : Option String
  pub cn_group_status : CnGroupsStatus
  pub dn : Option SetStatus
  pub proxy : Option SetStatus
  pub web_ui : Option SetStatus
  pub log_service : Option SetStatus
  pub metric_secret_ref : Option String
  pub metric_initialized : Bool
  pub phase : String
  pub is_ready : Option Condition
  pub is_synced : Option Condition
  pub host : String
  pub port : ℕ

pub record MetricSecret : Type 0 where
  pub user : String
  pub password : String
  pub role : String

-- The objects that Finalize waits for.
pub data Owned : Type 0 where
  log_set_of dn_set_of web_ui_of : Owned
  -- a WebUI with the name of the proxy
  web_ui_named_proxy : Owned

pub data MoCall : Type 0 where
  read_backup sync_cn_set delete_cn_set create_secret read_secret : String → MoCall
  sync_restore sync_log_set sync_dn_set list_cn_sets sync_web_ui sync_proxy : MoCall
  update_status : ClusterStatus → MoCall
  create_metric_secret : MetricSecret → MoCall
  query : String → String → MoCall
  delete_all_cn_sets : MoCall
  exists_owned delete_owned : Owned → MoCall

-- The API server, the database of the cluster, and the source of passwords. A synchronised set is
-- answered with its status.
pub record MoServer : Type 0 where
  pub backup : List MoCall → String → Answer (Unit {0})
  -- the phase of the restore job
  pub restore : List MoCall → Answer String
  pub secret_created : List MoCall → Answer (Unit {0})
  pub status_updated : List MoCall → ClusterStatus → Answer (Unit {0})
  pub log_set : List MoCall → Answer SetStatus
  pub dn_set : List MoCall → Answer SetStatus
  pub cn_set : List MoCall → String → Answer (Unit {0})
  pub cn_sets : List MoCall → Answer (List CnSetItem)
  pub cn_set_deleted : List MoCall → String → Answer (Unit {0})
  pub web_ui : List MoCall → Answer SetStatus
  pub proxy : List MoCall → Answer SetStatus
  pub metric_secret : List MoCall → String → Answer MetricSecret
  pub metric_secret_created : List MoCall → MetricSecret → Answer MetricSecret
  pub password : List MoCall → String
  pub answered : List MoCall → String → Answer (Unit {0})
  pub all_cn_sets_deleted : List MoCall → Answer (Unit {0})
  pub owned_exists : List MoCall → Owned → Answer Bool
  pub owned_deleted : List MoCall → Owned → Answer (Unit {0})
  -- util.UpsertByKey, by the name of the group
  pub upsert_group : List CnGroupStatus → CnGroupStatus → List CnGroupStatus

pub record MoState : Type 0 where
  pub status : ClusterStatus
  pub annotations : Map
  pub calls : List MoCall

abbrev pub tell : MoCall → MoState → MoState
tell c s = record s { calls = c ∷ s.calls }

abbrev pub call {ℓ} : {A : Type ℓ} → MoCall → (List MoCall → Answer A) → M MoState A
call c f s = answer (f s.calls) (tell c s)

abbrev pub set_status : (ClusterStatus → ClusterStatus) → M MoState (Unit {0})
set_status f s = done tt (record s { status = f s.status })

abbrev pub send_status : MoServer → M MoState (Unit {0})
send_status k s = call (update_status s.status) (λ cs. k.status_updated cs s.status) s
