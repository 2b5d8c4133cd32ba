-- ===== src/Claim/Tests.antt =====
-- Concrete runs of the CNClaim controller, and its theorems at concrete inputs.
use matrixone_operator.Base.{
  ◌=s◌, =s_iff, ℕ, String, ◌≡◌, refl, subst, ◌↔◌, true, false, not, ◌&&◌, ◌||◌, Option, none, some,
  List, [], ◌∷◌, map, arith,
}
use matrixone_operator.Base.Map.{Map, lookup, get, has}
use matrixone_operator.Api.Keys.{pod_claimed_by_label, cn_pod_phase_label, claim_set_name_label}
use matrixone_operator.Base.Run.{not_found, Answer, ok, err, Ends}
use matrixone_operator.Api.Claim.{
  ClaimPhase, PodRef, ClaimSpec, ClaimStatus, Claim, is_terminating, no_store, no_status,
}
use matrixone_operator.Api.Pod.{Pod, PodPhase}
use mathlib.Core.List.{Perm}
use matrixone_operator.Base.Sort.{sort}
use matrixone_operator.Base.Trace.{Extends}
use matrixone_operator.Claim.State.{ClaimState, Server, patched}
use matrixone_operator.Claim.Labels.{own_labels, reclaim_labels, transfer_labels}
use matrixone_operator.Claim.Labels.Selected.{selected_after_write}
use matrixone_operator.Claim.Labels.Handover.{IsClean, transfer_labels-own_labels}
use matrixone_operator.Claim.Index.{holders, is_skipped, add_holder, build_pod_claim_index}
use matrixone_operator.Claim.Index.Refine.{other_holders, holders-build_pod_claim_index}
use matrixone_operator.Claim.Select.{
  idle_selector, priority, previously_owned, second_of, select_cn,
}
use matrixone_operator.Claim.Select.Exclusive.{IsAttempt, select_cn-exclusive}
use matrixone_operator.Claim.Select.Order.{InOrder, sort-InOrder}
use matrixone_operator.Claim.Bind.{claimed_selector}
use matrixone_operator.Claim.Migrate.{migrate}
use matrixone_operator.Claim.Migrate.Complete.{HasLeft, Waits, migrate-Waits}
use matrixone_operator.Claim.Sync.{observe}
use matrixone_operator.Claim.Sync.Lost.{Settled, Refused, observe-IsLost}
use matrixone_operator.Claim.Finalize.{finalize}
use matrixone_operator.Claim.Finalize.Safe.{IsRelease, finalize-releases}
use matrixone_operator.Claim.Requests.{
  contains_request, index_claim_by_pod_name, is_indexed, requests_for_pod,
}
use matrixone_operator.Claim.Requests.Cover.{named_by, distinct, requests_for_pod-cover}

abbrev spec_at : String → Option String → Map → ClaimSpec
spec_at pod owner added = record {
  pod_name = pod;
  node_name = "";
  source_pod = none;
  selector = λ m. true;
  cn_labels = [];
  owner_name = owner;
  additional_pod_labels = added;
  pool_name = "";
}

abbrev claim_at : String → ClaimPhase → String → Claim
claim_at name phase pod = record {
  name = name;
  labels = (claim_set_name_label, "set-") ∷ [];
  annotations = [];
  created = 0;
  is_deleted = false;
  spec = spec_at pod (some "tenant") (("zone", name) ∷ []);
  status = record { phase = phase; store = no_store; bound_time = none; migrate = none };
}

abbrev seeking : Claim
seeking = claim_at "c1" ClaimPhase.pending ""

abbrev holding : Claim
holding = claim_at "c2" ClaimPhase.bound "p2"

abbrev pod_at : String → String → ℕ → Pod
pod_at name phase created = record {
  name = name;
  labels = (cn_pod_phase_label, phase) ∷ [];
  annotations = [];
  node_name = "n1";
  phase = PodPhase.running;
  is_ready = true;
  created = created;
  is_deleted = false;
}

abbrev idle_pods : List Pod
idle_pods = pod_at "p1" "Idle" 125 ∷ pod_at "p2" "Idle" 10 ∷ pod_at "p3" "Idle" 70 ∷ []

-- Every write is accepted as sent.
abbrev server : List Pod → List Claim → (String → Answer Pod) → Server
server pods claims pod = record {
  pods = λ _ _. ok pods;
  claims = λ _. ok claims;
  pools = λ _. ok [];
  pod = λ _. pod;
  cn_set = λ _ _. err not_found;
  other_owner = λ _ _ _. err not_found;
  log_set = λ _ _. ok tt;
  has_client = λ _ _. true;
  write_pod = λ _ p. ok p;
  write_claim = λ _ c. ok c;
  store = λ _ _. patched;
  stores_cached = λ _ _. none;
  labels_cleared = λ _ _. ok tt;
  now = λ _. 100;
  now_text = λ _. "now";
  json = record { marshal = λ _. ""; unmarshal = λ _. none };
  pod_uuid = λ p. p.name;
}

abbrev start : Claim → ClaimState
start c = record { claim = c; calls = [] }

abbrev gone_server : Server
gone_server = server [] [] (λ _. err not_found)

abbrev free_server : Server
free_server = server idle_pods (seeking ∷ holding ∷ []) (λ _. err not_found)

holder_found : holders "p2" (build_pod_claim_index "c1" (seeking ∷ holding ∷ [])) ≡ holding ∷ []
unfolding holders build_pod_claim_index is_skipped is_terminating add_holder
holder_found = refl

holders-build_pod_claim_index_example :
    holders "p2" (build_pod_claim_index "c1" (seeking ∷ holding ∷ []))
    ≡ other_holders "c1" "p2" (seeking ∷ holding ∷ [])
holders-build_pod_claim_index_example =
    holders-build_pod_claim_index "c1" "p2" (seeking ∷ holding ∷ [])

-- The pod that another claim holds is passed over; the seconds within the minute decide.
order_of_idle : map (λ p. p.name) (sort (priority seeking) idle_pods) ≡ "p1" ∷ "p2" ∷ "p3" ∷ []
unfolding sort priority previously_owned lookup second_of
order_of_idle = refl

sort-InOrder_example :
    InOrder seeking (sort (priority seeking) idle_pods)
    × Perm (sort (priority seeking) idle_pods) idle_pods
sort-InOrder_example = sort-InOrder seeking idle_pods

select_cn-exclusive_example :
    Ends
      (λ _ t. Extends (IsAttempt seeking (seeking ∷ holding ∷ [])) [] t.calls)
      (λ _ t. Extends (IsAttempt seeking (seeking ∷ holding ∷ [])) [] t.calls)
      (select_cn free_server [] (start seeking))
select_cn-exclusive_example =
    select_cn-exclusive free_server (start seeking) (seeking ∷ holding ∷ []) [] refl

abbrev leaving : Claim
leaving = claim_at "c3" ClaimPhase.bound "p2"

abbrev owned_pods : List Pod
owned_pods = pod_at "p2" "Bound" 10 ∷ []

abbrev leave_server : Server
leave_server = server owned_pods (leaving ∷ holding ∷ []) (λ _. err not_found)

finalize-releases_example :
    Ends
      (λ b t.
        ((b ≡ true) ↔ (owned_pods ≡ []))
        × Extends (IsRelease leave_server leaving owned_pods (leaving ∷ holding ∷ [])) [] t.calls)
      (λ _ t.
        Extends (IsRelease leave_server leaving owned_pods (leaving ∷ holding ∷ [])) [] t.calls)
      (finalize leave_server (start leaving))
finalize-releases_example =
    finalize-releases leave_server (start leaving) owned_pods (leaving ∷ holding ∷ []) refl refl

selected_after_write_example :
    (claimed_selector holding (own_labels seeking []) ≡ false)
    × (claimed_selector holding (transfer_labels leaving seeking []) ≡ false)
    × (claimed_selector holding (reclaim_labels seeking []) ≡ false)
    × (idle_selector holding (own_labels seeking []) ≡ false)
    × (idle_selector holding (transfer_labels leaving seeking []) ≡ false)
selected_after_write_example = selected_after_write holding seeking leaving []

abbrev idle_labels : Map
idle_labels = (cn_pod_phase_label, "Idle") ∷ ("app", "cn") ∷ []

zone_only : (j v : String) → lookup j leaving.spec.additional_pod_labels ≡ some v → "zone" ≡ j
unfolding lookup
zone_only j v h = (=s_iff "zone" j).0 (ground arith)

clean : IsClean leaving holding idle_labels
unfolding lookup
clean = record {
  no_set = refl;
  no_owner = refl;
  adds_no_set = refl;
  adds_no_owner = refl;
  lacks_added = λ j v h. subst (λ i. lookup i idle_labels ≡ none) (zone_only j v h) refl;
}

transfer_labels-own_labels_example :
    lookup "zone" (transfer_labels leaving holding (own_labels leaving idle_labels))
    ≡ lookup "zone" (own_labels holding idle_labels)
transfer_labels-own_labels_example =
    transfer_labels-own_labels leaving holding idle_labels "zone" clean

abbrev source : PodRef
source = record { pod_name = "p1"; node_name = "n1" }

abbrev moving : Claim
moving = record {
  name = "c4";
  labels = [];
  annotations = [];
  created = 0;
  is_deleted = false;
  spec = record sp { source_pod = some source };
  status = record st { store = record no_store { bound_time = some 80 } };
}
  where
    sp : ClaimSpec
    sp = spec_at "p2" none []

    st : ClaimStatus
    st = no_status

abbrev drained_server : Server
drained_server = server [] [] (λ _. ok (pod_at "p1" "Idle" 10))

migrate-Waits_example :
    Ends
      (λ _ _. HasLeft drained_server source (start moving))
      (Waits drained_server source (start moving))
      (migrate drained_server (start moving))
migrate-Waits_example = migrate-Waits drained_server source (start moving) refl

observe-IsLost_example :
    Ends
      (λ _ t. Settled gone_server (start holding) t)
      (λ e t. Refused gone_server (start holding) e t)
      (observe gone_server (start holding))
observe-IsLost_example =
    observe-IsLost gone_server (start holding) refl (λ e. ground (arith, (=s_iff "p2" "").1 e))

abbrev claimed_pod : Pod
claimed_pod = record p { labels = (pod_claimed_by_label, "c1") ∷ [] }
  where
    p : Pod
    p = pod_at "p2" "Bound" 10

woken : requests_for_pod (some (seeking ∷ holding ∷ [])) claimed_pod ≡ "c1" ∷ "c2" ∷ []
unfolding requests_for_pod lookup is_indexed contains_request index_claim_by_pod_name
woken = refl

requests_for_pod-cover_example :
    (contains_request (requests_for_pod (some (seeking ∷ holding ∷ [])) claimed_pod) "c2" ≡ (
      not ("c2" =s "")
        && has pod_claimed_by_label claimed_pod.labels
        && get pod_claimed_by_label claimed_pod.labels =s "c2"
      || named_by "p2" "c2" (seeking ∷ holding ∷ [])))
    × (distinct (requests_for_pod (some (seeking ∷ holding ∷ [])) claimed_pod) ≡ true)
requests_for_pod-cover_example = requests_for_pod-cover (seeking ∷ holding ∷ []) claimed_pod "c2"
