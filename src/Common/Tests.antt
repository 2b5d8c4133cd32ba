-- ===== src/Common/Tests.antt =====
-- A concrete collection of store status, and its theorem at that input.
use matrixone_operator.Base.{
  keep_if, ◌=s◌, not, ℕ, String, ◌≡◌, refl, Bool, true, false, List, [], ◌∷◌,
}
use matrixone_operator.Api.Pod.{Pod, PodPhase}
use matrixone_operator.Common.Failover.{
  up, down, Store, FailoverStatus, find_store, previous_stores, apply_fns, keep_time, fresh_store,
  store_of, collect_store_status,
}
use matrixone_operator.Common.Failover.Transition.{AreStoresOf, collect_store_status-IsStoreOf}

abbrev pod_at : String → Bool → Pod
pod_at name ready = record {
  name = name;
  labels = [];
  annotations = [];
  node_name = "n1";
  phase = PodPhase.running;
  is_ready = ready;
  created = 0;
  is_deleted = false;
}

abbrev store_at : String → String → ℕ → Store
store_at name phase time = record { pod_name = name; phase = phase; last_transition_time = time }

abbrev before : FailoverStatus
before = record {
  available_stores = store_at "log-0" up 5 ∷ store_at "log-1" up 5 ∷ [];
  failed_stores = store_at "log-2" down 7 ∷ [];
}

abbrev pods : List Pod
pods = pod_at "log-0" true ∷ pod_at "log-1" false ∷ pod_at "log-2" false ∷ []

-- The store that fails now gets the new time.
collected : collect_store_status 100 (λ p. p.is_ready) [] before pods ≡ record {
  available_stores = store_at "log-0" up 5 ∷ [];
  failed_stores = store_at "log-1" down 100 ∷ store_at "log-2" down 7 ∷ [];
}
unfolding collect_store_status store_of fresh_store keep_time find_store previous_stores apply_fns
collected = refl

collect_store_status-IsStoreOf_example :
    (ss : List Store) × AreStoresOf 100 (λ p. p.is_ready) [] before pods ss
    × ((collect_store_status 100 (λ p. p.is_ready) [] before pods).available_stores
        ≡ keep_if (λ s. s.phase =s "Up") ss)
    × ((collect_store_status 100 (λ p. p.is_ready) [] before pods).failed_stores
        ≡ keep_if (λ s. not (s.phase =s "Up")) ss)
collect_store_status-IsStoreOf_example =
    collect_store_status-IsStoreOf 100 (λ p. p.is_ready) [] before pods
