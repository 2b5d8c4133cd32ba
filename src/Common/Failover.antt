-- ===== src/Common/Failover.antt =====
-- Which stores of a set are up and since when: CollectStoreStatus of
-- pkg/controllers/common/failover.go.
pub mod Transition
use matrixone_operator.Base.{
  ◌=s◌, if◌then◌else◌, ℕ, String, Bool, Option, none, some, List, [], ◌∷◌, ◌++◌,
}
use matrixone_operator.Api.Pod.{Pod}

-- StorePhaseUp and StorePhaseDown.
abbrev pub up : String
up = "Up"

abbrev pub down : String
down = "Down"

-- v1alpha1.Store
pub record Store : Type 0 where
  pub pod_name : String
  pub phase : String
  pub last_transition_time : ℕ

pub record FailoverStatus : Type 0 where
  pub available_stores : List Store
  pub failed_stores : List Store

abbrev pub is_up : String → Bool
is_up phase = phase =s up

-- `m[store.PodName] = store` for each store: the last one of a name is found.
unfoldable pub find_store : String → List Store → Option Store
find_store name [] = none
find_store name (s ∷ ss) = elim (find_store name ss) [
  | some later ↦ some later
  | none ↦ if s.pod_name =s name then some s else none
]

-- The failed stores are entered first, then the available ones.
unfoldable pub previous_stores : FailoverStatus → List Store
previous_stores st = st.failed_stores ++ st.available_stores

-- `for _, fn := range fns { fn(&store) }`
unfoldable pub apply_fns : List (Store → Store) → Store → Store
apply_fns [] s = s
apply_fns (f ∷ fs) s = apply_fns fs (f s)

unfoldable pub keep_time : Option Store → Store → Store
keep_time none s = s
keep_time (some previous) s =
    if previous.phase =s s.phase
    then record s { last_transition_time = previous.last_transition_time }
    else s

module _ (now : ℕ) (is_available : Pod → Bool) (fns : List (Store → Store)) where
  -- The store of a pod before its time is looked up.
  unfoldable pub fresh_store : Pod → Store
  fresh_store p = apply_fns fns (record {
    pod_name = p.name;
    phase = if is_available p then up else down;
    last_transition_time = now;
  })

  unfoldable pub store_of : List Store → Pod → Store
  store_of previous p = let s = fresh_store p in keep_time (find_store s.pod_name previous) s

  -- `append` to one of the two lists.
  add_store : Store → FailoverStatus → FailoverStatus
  add_store s st =
      if is_up s.phase
      then record st { available_stores = st.available_stores ++ s ∷ [] }
      else record st { failed_stores = st.failed_stores ++ s ∷ [] }

  collect : List Store → List Pod → FailoverStatus → FailoverStatus
  unfolding add_store
  collect previous [] st = st
  collect previous (p ∷ ps) st = collect previous ps (add_store (store_of previous p) st)

  unfoldable pub collect_store_status : FailoverStatus → List Pod → FailoverStatus
  unfolding collect
  collect_store_status st pods =
      collect (previous_stores st) pods (record { available_stores = []; failed_stores = [] })
