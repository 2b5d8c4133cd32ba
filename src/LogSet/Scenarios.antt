-- ===== src/LogSet/Scenarios.antt =====
-- A log service with three replicas, one of which fails, and the theorems at it.
use matrixone_operator.Base.{
  ◌=s◌, if◌then◌else◌, length, length-append, ℕ, suc, ◌≤◌, String, ◌≡◌, refl, Bool, true, false,
  none, some, List, [], ◌∷◌, ◌++◌, map, arith,
}
use matrixone_operator.Base.Run.{not_found, ok, err, final, Ends}
use matrixone_operator.Base.Int.{pos}
use matrixone_operator.Base.Decimal.{show_int}
use matrixone_operator.Api.Pod.{Pod, PodPhase}
use matrixone_operator.Api.LogSet.{LogSet}
use matrixone_operator.Common.Failover.{FailoverStatus}
use matrixone_operator.Bucket.{BucketServer}
use matrixone_operator.LogSet.Ordinals.{
  ha_keeper_svc_addrs, gossip_seeds, addresses, addresses_loop, pod_address, log_service_port,
  gossip_port,
}
use matrixone_operator.LogSet.Ordinals.First.{unreserved, addresses-unreserved}
use matrixone_operator.LogSet.State.{
  StatefulSet, LogSetState, LogSetServer, orphan_pod, update_sts, write_gossip,
}
use matrixone_operator.LogSet.Failover.{
  stores_failed_for, repair, repair_first, keep_pod, reserve, update_gossip_config,
}
use matrixone_operator.LogSet.Failover.Minority.{IsRepair, repair-IsRepair}
use matrixone_operator.Base.Trace.{Extends}
use matrixone_operator.LogSet.Observe.{observe}
use matrixone_operator.LogSet.Observe.Decision.{observe-Decides}
use matrixone_operator.LogSet.Observe.Seen.{Decided}
use matrixone_operator.LogSet.Finalize.{finalize}
use matrixone_operator.LogSet.Finalize.Gone.{IsLast, finalize-IsLast}

abbrev log_set : LogSet
log_set = record {
  namespace = "ns";
  name = "mo";
  uid = "u";
  spec = record {
    replicas = 3;
    image = "mo:1.2.0";
    semantic_version = none;
    operator_version = none;
    memory_limit_percent = none;
    service_args = [];
    volume_size = 1;
    storage_class = none;
    s3 = none;
    file_system = some "/data";
    initial_config = record {
      log_shards = some (pos 1);
      dn_shards = some (pos 1);
      log_shard_replicas = some (pos 3);
      restore_from = none;
    };
    store_failure_timeout = some 60;
    failed_pod_strategy = some "Orphan";
    pvc_retention_policy = none;
  };
}

abbrev bucket_server : BucketServer
bucket_server = record {
  s3_reclaim = true;
  digest = λ s. s;
  buckets = λ _ _. ok [];
  log_set = λ _ _ _. ok log_set;
  bucket_created = λ _ _. ok tt;
  bucket_updated = λ _ _. ok tt;
  bucket_deleted = λ _ _. ok tt;
  job = λ _. err not_found;
  config = λ _. err not_found;
  has_template = true;
  config_created = λ _. ok tt;
  job_created = λ _. ok tt;
}

abbrev stateful : StatefulSet
stateful = record {
  replicas = 3;
  reserve_ordinals = [];
  retention = none;
  template = "t";
  updated_ready_replicas = 3;
}

abbrev pod_up : String → Bool → Pod
pod_up name ready = record {
  name = name;
  labels = [];
  annotations = [];
  node_name = "n";
  phase = PodPhase.running;
  is_ready = ready;
  created = 0;
  is_deleted = false;
}

abbrev server : LogSetServer
server = record {
  now = λ _. 100;
  is_available = λ p. p.is_ready;
  pod_ordinal = λ n. if n =s "mo-log-1" then some 1 else none;
  upsert = λ xs x. xs ++ x ∷ [];
  discovery = λ _. ok tt;
  sts = λ _. ok stateful;
  pods = λ _. ok (pod_up "mo-log-0" true ∷ pod_up "mo-log-1" false ∷ pod_up "mo-log-2" true ∷ []);
  config_synced = λ _. ok tt;
  template_of = λ _ t. some t;
  dry_run = λ _ s. ok s;
  volume_synced = λ _. ok tt;
  metric_synced = λ _. ok tt;
  sts_patched = λ _ _. ok tt;
  sts_updated = λ _ _. ok tt;
  gossip_written = λ _ _. ok tt;
  pod_orphaned = λ _ _. ok tt;
  owned_deleted = λ _ _. ok tt;
  owned_exists = λ _ _. ok false;
  orphans = λ _. ok [];
  orphan_freed = λ _ _. ok tt;
  orphan_deleted = λ _ _. ok tt;
  bucket = λ _. bucket_server;
}

abbrev failing : FailoverStatus
failing = record {
  available_stores =
      (record { pod_name = "mo-log-0"; phase = "Up"; last_transition_time = 0 })
      ∷ (record { pod_name = "mo-log-2"; phase = "Up"; last_transition_time = 0 })
      ∷ [];
  failed_stores =
      (record { pod_name = "mo-log-1"; phase = "Down"; last_transition_time = 20 }) ∷ [];
}

abbrev start : LogSetState
start = record { log_set = log_set; status = failing; ready = false; calls = [] }

-- Ordinal 1 is reserved: the third replica becomes the one of ordinal 3.
repaired_calls :
    LogSetState.calls (final (repair server true stateful start))
    ≡ write_gossip (
        "mo-log-0.mo-log-headless.ns.svc:32002" ∷ "mo-log-2.mo-log-headless.ns.svc:32002"
        ∷ "mo-log-3.mo-log-headless.ns.svc:32002" ∷ [])
      ∷ update_sts (record stateful { reserve_ordinals = 1 ∷ [] })
      ∷ orphan_pod "mo-log-1"
      ∷ []
unfolding repair repair_first keep_pod reserve update_gossip_config stores_failed_for gossip_seeds
    addresses addresses_loop pod_address show_int
repaired_calls = refl

one_more : (xs : List ℕ) (x : ℕ) → length (server.upsert xs x) ≤ suc (length xs)
one_more xs x = omega (arith, length-append xs (x ∷ []))

repair-IsRepair_example :
    Ends
      (λ _ t.
        (t.log_set ≡ log_set)
        × (t.status ≡ failing)
        × Extends (IsRepair server log_set failing stateful true 100) [] t.calls)
      (λ _ t.
        (t.log_set ≡ log_set)
        × (t.status ≡ failing)
        × Extends (IsRepair server log_set failing stateful true 100) [] t.calls)
      (repair server true stateful start)
repair-IsRepair_example = repair-IsRepair server stateful true start one_more

addresses-unreserved_example :
    ((n : ℕ) × (ha_keeper_svc_addrs log_set (1 ∷ [])
        ≡ some (map (pod_address log_set log_service_port) (unreserved (1 ∷ []) n 0)))
      × (length (unreserved (1 ∷ []) n 0) ≡ 3))
    × ((n : ℕ) × (gossip_seeds log_set 4 (1 ∷ [])
          ≡ some (map (pod_address log_set gossip_port) (unreserved (1 ∷ []) n 0)))
        × (length (unreserved (1 ∷ []) n 0) ≡ 4))
addresses-unreserved_example = addresses-unreserved log_set 4 (1 ∷ [])

observe-Decides_example : Decided server start (observe server start)
observe-Decides_example = observe-Decides server start

finalize-IsLast_example : IsLast server start (finalize server start)
finalize-IsLast_example = finalize-IsLast server start
