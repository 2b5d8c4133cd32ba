-- ===== src/Pool/Tests.antt =====
-- Concrete runs of a pool's reconciliation, and its theorems at concrete inputs.
use matrixone_operator.Base.{
  ◌=s◌, if◌then◌else◌, ℕ, ◌+◌, ◌≤◌, ◌<◌, String, Option, ◌≡◌, refl, ◌⊎◌, true, false, none, some,
  List, [], ◌∷◌, map,
}
use matrixone_operator.Base.Map.{Map, lookup}
use matrixone_operator.Base.Run.{ApiError, api, resync, ok, Ends}
use matrixone_operator.Api.Keys.{pod_claimed_by_label, cn_pod_phase_label}
use matrixone_operator.Api.Pod.{Pod, PodPhase}
use matrixone_operator.Base.Trace.{Follows}
use matrixone_operator.Base.Sort.{sort}
use matrixone_operator.Pool.Order.{pod_in_use, deletion_cost, deletion_order}
use matrixone_operator.Pool.State.{
  SetSpec, SetItem, CnPool, get_max_pods, PoolServer, PoolState, PoolCall, create_owned_or_update,
  list_sets, list_pods, list_claims, read_claim, read_set, outdate_claim, update_set, create_set,
  delete_set, update_pod,
}
use matrixone_operator.Api.Version.{Version}
use matrixone_operator.Pool.Build.{revision_of, sync_cn_set_spec, with_hash, build_cn_set}
use matrixone_operator.Pool.Legacy.{
  shrink, reclaim_legacy_cn_claim, pods_of_set, walk, sync_legacy_set, sync_legacy_sets,
  reclaim_direct_pods,
}
use matrixone_operator.Pool.Scale.{
  PoolSet, terminating_pod, is_deleted_pod, take_census, pending_claims, pod_names,
  desired_replicas, chosen_pods, terminate, scale_set, scaled_spec, rescale, scale_pool,
}
use matrixone_operator.Pool.Scale.Safe.{Rescaled, scale_pool-Scaled}
use matrixone_operator.Pool.Legacy.Evidence.{IsEnough}
use matrixone_operator.Pool.Legacy.Allowed.{IsAllowed}
use matrixone_operator.Pool.Sync.{current_set, list_nominated_claims, sync_current, sync_sets, sync}
use matrixone_operator.Base.{◌↔◌}
use matrixone_operator.Pool.Build.Revisions.{IsSameRevision, revision_of_iff}
use matrixone_operator.Pool.Legacy.Runs.{IsServing}
use matrixone_operator.Pool.Legacy.Gone.{AllGone}
use matrixone_operator.Pool.Sync.Live.{sync-AllGone}
use matrixone_operator.Pool.Sync.Safe.{sync-Safe}

abbrev pod_at : String → String → ℕ → Pod
pod_at name phase created = record {
  name = name;
  labels = (cn_pod_phase_label, phase) ∷ (pod_claimed_by_label, "c1") ∷ [];
  annotations = [];
  node_name = "n1";
  phase = PodPhase.running;
  is_ready = true;
  created = created;
  is_deleted = false;
}

abbrev five_pods : List Pod
five_pods =
    pod_at "a" "Bound" 1
    ∷ pod_at "b" "Idle" 2
    ∷ pod_at "c" "Idle" 3
    ∷ pod_at "d" "Unknown" 4
    ∷ pod_at "e" "Terminating" 5
    ∷ []

-- A parser that knows one version.
abbrev parse_tests : String → Option Version
parse_tests text =
    if text =s "1.3.0" then some (record { major = 1; minor = 3; patch = 0 }) else none

abbrev spec_of : ℕ → SetSpec
spec_of n = record {
  image = "mo:1.2.0";
  config = none;
  overlay = none;
  replicas = n;
  operator_version = some "1.3.0";
  rest = "";
  service_type = "ClusterIP";
  service_annotations = [];
  node_port = none;
  labels = [];
  scaling_config = record {
    store_drain_enabled = none;
    store_drain_timeout = none;
    min_delay_seconds = none;
  };
  max_surge = none;
  max_unavailable = none;
  pod_management_policy = none;
  pods_to_delete = [];
  pause_update = false;
}

abbrev pool : CnPool
pool = record {
  kind = "CNPool";
  name = "p";
  uid = "u";
  template = spec_of 3;
  pod_labels = [];
  max_idle = 1;
  max_pods = some 10;
}

abbrev item : String → String → ℕ → SetItem
item name selector n = record {
  name = name;
  labels = [];
  spec = spec_of n;
  status_replicas = n;
  label_selector = selector;
}

-- A set of a former revision with one pod in use, one without pods, and the current set with five.
abbrev listed : List SetItem
listed = item "p-old" "old" 2 ∷ item "p-gone" "" 0 ∷ item "p-new" "new" 5 ∷ []

abbrev pods_labelled : Map → List Pod
pods_labelled ((key, value) ∷ []) =
    if value =s "old" then pod_at "x" "Bound" 1 ∷ pod_at "y" "Idle" 2 ∷ [] else five_pods
pods_labelled _ = []

abbrev server : PoolServer
server = record {
  hash = λ _. some "new";
  parse_version = parse_tests;
  parse_selector = λ s. some (("set", s) ∷ []);
  deep_equal = λ _ _. false;
  sets = λ _ _. ok listed;
  pods = λ _ ls. ok (pods_labelled ls);
  claims = λ _ _. ok [];
  claim = λ _ _. ok tt;
  claim_outdated = λ _ _. ok tt;
  set = λ _ name. ok (item name "" 5);
  set_created = λ _ _ _. ok 0;
  set_updated = λ _ name _. ok (if name =s "p-gone" then 0 else 1);
  set_deleted = λ _ _. ok tt;
  accepts = λ _ _. true;
  all_sets_deleted = λ _. ok tt;
}

abbrev at_start : PoolState
at_start = record { calls = [] }

abbrev name_of : PoolCall → String
name_of (list_sets ls) = "list sets"
name_of (list_pods ls) = "list pods"
name_of (list_claims ls) = "list claims"
name_of (read_claim n) = "read claim"
name_of (outdate_claim n) = "outdate claim"
name_of (read_set n) = "read set"
name_of (delete_set n) = n
name_of (create_set n ls spec) = "create set"
name_of (update_set n spec) = n
name_of (update_pod p) = p.name
name_of (PoolCall.delete_all_sets ls) = "delete all"

-- The set in use shrinks to one pod and outdates its claim, the empty one is deleted, and the current set gives up three idle pods: the unregistered one first, and a newer idle one before an older.
whole_run :
    Ends
      (λ w t.
        ((w.0).pods_to_delete ≡ "e" ∷ "d" ∷ "c" ∷ "b" ∷ [])
        × (map name_of t.calls
            ≡ "p-new" ∷ "b" ∷ "c" ∷ "d" ∷ "read set" ∷ "list claims" ∷ "list pods" ∷ "list pods"
              ∷ "p-gone" ∷ "list pods" ∷ "p-gone" ∷ "read set" ∷ "list pods" ∷ "p-old" ∷ "read set"
              ∷ "outdate claim" ∷ "read claim" ∷ "list pods" ∷ "list sets" ∷ []))
      (λ _ _. true ≡ false)
      (sync server pool at_start)
unfolding sync build_cn_set sync_sets sync_legacy_sets sync_legacy_set pods_of_set walk shrink
    create_owned_or_update reclaim_legacy_cn_claim sync_current reclaim_direct_pods current_set
    list_nominated_claims scale_pool rescale scaled_spec sync_cn_set_spec get_max_pods
    desired_replicas take_census is_deleted_pod pod_in_use lookup pending_claims scale_set terminate
    terminating_pod chosen_pods sort deletion_order deletion_cost pod_names
whole_run = (refl, refl)

scale_pool-Scaled_example :
    Ends
      (λ w t.
        (1 + desired_replicas 1 five_pods [] ≤ get_max_pods pool)
        × Rescaled server pool (with_hash parse_tests pool "new") five_pods [] at_start w t)
      (λ e t.
        ((get_max_pods pool < 1 + desired_replicas 1 five_pods [])
          × (t ≡ at_start)
          × (e ≡ resync 60))
        ⊎ ((1 + desired_replicas 1 five_pods [] ≤ get_max_pods pool)
            × ((r : ApiError) × (e ≡ api r))))
      (scale_pool server pool (with_hash parse_tests pool "new") 1 five_pods [] at_start)
scale_pool-Scaled_example =
    scale_pool-Scaled server pool (with_hash parse_tests pool "new") five_pods [] 1 at_start

sync-Safe_example :
    Ends
      (λ w t.
        ((set : PoolSet) × IsEnough server pool (with_hash parse_tests pool "new") [] set t.calls
          × (w.0 ≡ scaled_spec parse_tests pool set))
        × Follows (IsAllowed server pool (with_hash parse_tests pool "new") []) [] t.calls)
      (λ _ t. Follows (IsAllowed server pool (with_hash parse_tests pool "new") []) [] t.calls)
      (sync server pool at_start)
sync-Safe_example = sync-Safe server pool "new" refl at_start

-- Nothing is in use, and no set has pods.
abbrev idle_server : PoolServer
idle_server = record server {
  pods = λ _ _. ok [];
  set = λ _ name. ok (item name "" 0);
  set_updated = λ _ _ _. ok 0;
}

abbrev serving : IsServing idle_server pool listed (λ _. []) (λ _. 0)
serving = record {
  sets_listed = λ _. refl;
  pods_listed = λ _ _. refl;
  claims_listed = λ _ _. ([], refl);
  claim_found = λ _ _. refl;
  claim_written = λ _ _. refl;
  set_found = λ _ name. (item name "" 0, refl, refl);
  set_written = λ _ _ _. refl;
  set_gone = λ _ _. refl;
  parses = λ s. (("set", s) ∷ [], refl);
}

sync-AllGone_example :
    Ends
      (λ _ t. AllGone idle_server (λ _. []) (λ _. 0) "p-new" listed t)
      (λ e t. (e ≡ resync 60) × AllGone idle_server (λ _. []) (λ _. 0) "p-new" listed t)
      (sync idle_server pool at_start)
sync-AllGone_example =
    sync-AllGone idle_server pool listed (λ _. []) (λ _. 0) serving "new" refl at_start

abbrev new_image : SetSpec
new_image = record (spec_of 3) { image = "mo:1.2.1" }

revision_of_iff_example :
    (revision_of parse_tests (sync_cn_set_spec parse_tests pool (spec_of 5))
      ≡ revision_of parse_tests (sync_cn_set_spec parse_tests pool new_image))
    ↔ IsSameRevision parse_tests (spec_of 5) new_image
revision_of_iff_example = revision_of_iff parse_tests pool pool (spec_of 5) new_image
