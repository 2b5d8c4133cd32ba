-- ===== src/Store/Tests.antt =====
-- Concrete runs of the CN store controller, and its theorems at concrete inputs.
use matrixone_operator.Base.{ℕ, ◌≡◌, refl, true, false, none, some, List, [], ◌∷◌}
use matrixone_operator.Base.Map.{lookup}
use matrixone_operator.Api.Keys.{cn_pod_phase_label, store_score_anno}
use matrixone_operator.Base.Run.{not_found, ok, err, Ends}
use matrixone_operator.Api.Pod.{PodPhase}
use matrixone_operator.Base.Trace.{Extends}
use matrixone_operator.Api.Sets.{CnSet, get_min_delay_duration}
use matrixone_operator.Api.Version.{
  Version, has_mo_feature, feature_versions, feature_global_min_version, version_precedes,
}
use matrixone_operator.Common.Score.{
  StoreScore, no_score, is_safe_to_reclaim, begin_observation, get_store_score,
}
use matrixone_operator.Claim.State.{patched}
use matrixone_operator.Store.State.{CnPod, Session, StoreState, StoreServer}
use matrixone_operator.Store.Stats.{collect_query_stats}
use matrixone_operator.Store.Stats.Evidence.{drained, collect_query_stats-safe}
use matrixone_operator.Store.Drain.{handle_connection_draining, handle_lock_migration, drain_round}
use matrixone_operator.Store.Client.{patch_store_state}
use matrixone_operator.Store.Drain.Release.{IsDrainedRound, drain_round-drained}
use matrixone_operator.Store.Pooling.{drain_from}
use matrixone_operator.Store.Pooling.Life.{IsDrainCall, drain_from-calls}

abbrev version : ℕ → ℕ → ℕ → Version
version a b c = record { major = a; minor = b; patch = c }

-- A score of no load, all of it observed.
abbrev quiet_score : StoreScore
quiet_score = record no_score {
  session_observed = true;
  pipeline_observed = true;
  replica_observed = true;
  started_time = some 7;
}

abbrev tenant : Session
tenant = record { from_proxy = true; account = "tenant" }

abbrev internal : Session
internal = record { from_proxy = false; account = "sys" }

abbrev cn_set_a : CnSet
cn_set_a = record {
  name = "tp";
  log_set = some "log";
  scaling_config = record {
    store_drain_enabled = some true;
    store_drain_timeout = some 600;
    min_delay_seconds = some 10;
  };
  pause_update = false;
}

-- Every write is accepted as sent; the sessions are given.
abbrev server : List Session → StoreServer
server ss = record {
  cn_set = λ _ _. ok cn_set_a;
  other_owner = λ _ _ _. err not_found;
  log_set = λ _ _. ok true;
  has_client = λ _ _. true;
  store = λ _ _. patched;
  labels_updated = λ _ _ _. true;
  store_deleted = λ _ _. true;
  store_cached = λ _ _. none;
  restart_allowed = λ _ _. some true;
  restart_set = λ _ _. some true;
  process_list = λ _ _. some ss;
  pipelines = λ _ _. some 0;
  replicas = λ _ _. some 0;
  pod_written = λ _ p. ok p;
  pod_deleted = λ _ _. ok tt;
  now = λ _. 100;
  format_time = λ _. "t";
  parse_time = λ _. some 50;
  json = record { marshal = λ _. "quiet"; unmarshal = λ _. some quiet_score };
  unmarshal_labels = λ _. none;
  version_of = λ _. version 2 0 0;
  pod_uuid = λ p. p.name;
}

abbrev cn_pod : CnPod
cn_pod = record {
  pod = record {
    name = "cn-0";
    labels = (cn_pod_phase_label, "Draining") ∷ [];
    annotations = (store_score_anno, "quiet") ∷ [];
    node_name = "n1";
    phase = PodPhase.running;
    is_ready = true;
    created = 0;
    is_deleted = false;
  };
  readiness = none;
  has_finalizer = true;
  started = some 7;
}

abbrev start : StoreState
start = record { pod = cn_pod; calls = [] }

collect_query_stats-safe_example :
    Ends
      (λ out _.
        is_safe_to_reclaim out
        ≡ drained (server (tenant ∷ internal ∷ [])) "addr" (version 2 0 0) [])
      (λ _ _. true ≡ false)
      (collect_query_stats
        (server (tenant ∷ internal ∷ []))
        (begin_observation 7 quiet_score)
        "addr"
        (version 2 0 0)
        start)
collect_query_stats-safe_example =
    collect_query_stats-safe (server (tenant ∷ internal ∷ [])) 7 quiet_score "addr" (version 2 0 0)
      start

drain_round-drained_example :
    Ends
      (λ b _. b ≡ true → IsDrainedRound (server []) cn_set_a 80 cn_pod)
      (λ _ _. Unit {0})
      (drain_round (server []) cn_set_a 80 start)
drain_round-drained_example = drain_round-drained (server []) cn_set_a 80 start

drain_from-calls_example :
    Ends
      (λ _ u. Extends (IsDrainCall (server []) cn_set_a 50 start) [] u.calls)
      (λ _ u. Extends (IsDrainCall (server []) cn_set_a 50 start) [] u.calls)
      (drain_from (server []) cn_set_a 50 start)
drain_from-calls_example = drain_from-calls (server []) cn_set_a 50 start

-- A round that ends drained.
round-Ends :
    Ends (λ b _. b ≡ true) (λ _ _. true ≡ false) (drain_round (server []) cn_set_a 80 start)
unfolding drain_round handle_connection_draining patch_store_state get_store_score lookup
    get_min_delay_duration is_safe_to_reclaim handle_lock_migration has_mo_feature
    feature_global_min_version feature_versions version_precedes
round-Ends = refl
