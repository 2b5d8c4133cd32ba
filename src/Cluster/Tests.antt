-- ===== src/Cluster/Tests.antt =====
-- Runs of the cluster's controller, and the theorem at them.
use matrixone_operator.Base.{String, ◌≡◌, refl, true, false, none, some, [], ◌∷◌, ◌++◌}
use matrixone_operator.Base.Run.{ok, final}
use matrixone_operator.Base.Map.{lookup}
use matrixone_operator.Bucket.{contains}
use matrixone_operator.Cluster.{
  Cluster, SetStatus, ClusterStatus, sync_cn_set, delete_cn_set, sync_log_set, sync_dn_set,
  list_cn_sets, MetricSecret, log_set_of, dn_set_of, web_ui_of, web_ui_named_proxy, exists_owned,
  delete_all_cn_sets, MoServer, MoState,
}
use matrixone_operator.Cluster.Metric.{make_root, init_root_credential}
use matrixone_operator.Cluster.Up.{
  all_groups, desired_cn_sets, gather, collect_groups, sync_optional, collect_status, sync_cn_sets,
  sync_metric_user, conclude, ready_condition, synced_condition, up,
}
use matrixone_operator.Cluster.Finalize.{finalize, delete_owned_objects}

abbrev cluster : Cluster
cluster = record {
  namespace = "ns";
  name = "mo";
  restore_from = none;
  cn_groups = "a" ∷ [];
  has_tp = true;
  has_ap = false;
  has_web_ui = false;
  has_proxy = false;
  metric_reader_enabled = false;
}

abbrev up_at : String → SetStatus
up_at h = record { ready = true; synced = true; host = h; port = 6001 }

abbrev secret : MetricSecret
secret = record { user = "u"; password = "p"; role = "r" }

-- A set of a group that is no longer asked for is still there.
abbrev server : MoServer
server = record {
  backup = λ _ _. ok tt;
  restore = λ _. ok "Completed";
  secret_created = λ _. ok tt;
  status_updated = λ _ _. ok tt;
  log_set = λ _. ok (up_at "log");
  dn_set = λ _. ok (up_at "tn");
  cn_set = λ _ _. ok tt;
  cn_sets = λ _. ok (
      (record { set_name = "mo-old"; set_status = up_at "old" })
      ∷ (record { set_name = "mo-a"; set_status = up_at "a" })
      ∷ (record { set_name = "mo-tp"; set_status = up_at "tp" })
      ∷ []);
  cn_set_deleted = λ _ _. ok tt;
  web_ui = λ _. ok (up_at "ui");
  proxy = λ _. ok (up_at "proxy");
  metric_secret = λ _ _. ok secret;
  metric_secret_created = λ _ _. ok secret;
  password = λ _. "p";
  answered = λ _ _. ok tt;
  all_cn_sets_deleted = λ _. ok tt;
  owned_exists = λ _ o. ok false;
  owned_deleted = λ _ _. ok tt;
  upsert_group = λ gs g. gs ++ g ∷ [];
}

abbrev start_status : ClusterStatus
start_status = record {
  credential_ref = some "mo-credential";
  cn_group_status = record { desired_groups = 0; ready_groups = 0; synced_groups = 0; groups = [] };
  dn = none;
  proxy = none;
  web_ui = none;
  log_service = none;
  metric_secret_ref = none;
  metric_initialized = false;
  phase = "";
  is_ready = none;
  is_synced = none;
  host = "";
  port = 0;
}

abbrev start : MoState
start = record { status = start_status; annotations = []; calls = [] }

up_calls :
    MoState.calls (final (up server cluster start))
    ≡ delete_cn_set "mo-old"
      ∷ list_cn_sets
      ∷ sync_cn_set "mo-tp"
      ∷ sync_cn_set "mo-a"
      ∷ sync_dn_set
      ∷ sync_log_set
      ∷ []
unfolding up init_root_credential make_root sync_cn_sets desired_cn_sets all_groups collect_groups
    gather contains sync_optional collect_status ready_condition synced_condition sync_metric_user
    conclude
up_calls = refl

up_status :
    (ClusterStatus.phase (MoState.status (final (up server cluster start))) ≡ "Ready")
    × (ClusterStatus.host (MoState.status (final (up server cluster start))) ≡ "a")
unfolding up init_root_credential make_root sync_cn_sets desired_cn_sets all_groups collect_groups
    gather contains sync_optional collect_status ready_condition synced_condition sync_metric_user
    conclude
up_status = (refl, refl)

-- Finalize looks for a WebUI with the proxy's name, and for no proxy.
finalize_calls :
    MoState.calls (final (finalize server start))
    ≡ exists_owned web_ui_named_proxy
      ∷ exists_owned web_ui_of
      ∷ exists_owned dn_set_of
      ∷ exists_owned log_set_of
      ∷ delete_all_cn_sets
      ∷ []
unfolding finalize delete_owned_objects lookup
finalize_calls = refl
