-- ===== src/Common/Failover/Transition.antt =====
-- What the status of the stores says after it is collected.
use matrixone_operator.Base.{
  if◌then◌else◌, ◌=s◌, String, Bool-cases, keep_if, All, ℕ, ◌≡◌, refl, sym, ◌∙◌, inl, inr, Bool,
  true, false, ◌≢◌, =s_iff, ap, ◌⊎◌, not, Option, none, some, List, [], ◌∷◌, ◌++◌, map, arith,
}
use matrixone_operator.Api.Pod.{Pod}
use mathlib.Core.List.{append_assoc, append-nil}
use matrixone_operator.Common.Failover.{
  Store, FailoverStatus, is_up, apply_fns, find_store, previous_stores, fresh_store, keep_time,
  store_of, add_store, collect, collect_store_status,
}

-- The last store of a name in a list.
pub record IsLast (name : String) (q : Store) (ss : List Store) : Type 0 where
  pub before : List Store
  pub after : List Store
  pub split : ss ≡ before ++ q ∷ after
  pub named : (q.pod_name =s name) ≡ true
  pub last : All (λ s. (s.pod_name =s name) ≡ false) after

-- What looking for a name in a list finds.
abbrev Looked : String → List Store → Option Store → Type 0
Looked name ss none = All (λ s. (s.pod_name =s name) ≡ false) ss
Looked name ss (some q) = IsLast name q ss

find_further :
    (name : String) (s : Store) (ss : List Store) (o : Option Store)
    → Looked name ss o
    → Looked name
        (s ∷ ss)
        (elim o [ some later ↦ some later | none ↦ if s.pod_name =s name then some s else none ])
find_further name s ss (some q) h = record {
  before = s ∷ IsLast.before h;
  after = IsLast.after h;
  split = ap (◌∷◌ s) (IsLast.split h);
  named = IsLast.named h;
  last = IsLast.last h;
}
find_further name s ss none h = elim (Bool-cases (s.pod_name =s name)) [
  | inl e ↦ rw e (record { before = []; after = ss; split = refl; named = e; last = h })
  | inr e ↦ rw e (e, h)
]

find_store-Looked : (name : String) (ss : List Store) → Looked name ss (find_store name ss)
unfolding find_store
find_store-Looked name [] = tt
find_store-Looked name (s ∷ ss) =
    find_further name s ss (find_store name ss) (find_store-Looked name ss)

-- The time of a store `s` that is collected as `fresh`. The stores before are the failed ones, then
-- the available ones, and the last one of the name counts: so an available one before a failed one.
pub data IsTimed (st : FailoverStatus) (fresh s : Store) : Type 0 where
  unseen :
      All (λ q. (q.pod_name =s fresh.pod_name) ≡ false) (st.failed_stores ++ st.available_stores)
      → s ≡ fresh
      → IsTimed st fresh s
  still :
      (q : Store)
      → IsLast fresh.pod_name q (st.failed_stores ++ st.available_stores)
      → q.phase ≡ fresh.phase
      → s ≡ record fresh { last_transition_time = q.last_transition_time }
      → IsTimed st fresh s
  changed :
      (q : Store)
      → IsLast fresh.pod_name q (st.failed_stores ++ st.available_stores)
      → q.phase ≢ fresh.phase
      → s ≡ fresh
      → IsTimed st fresh s

keep_time-IsTimed :
    (st : FailoverStatus) (s : Store) (o : Option Store)
    → Looked s.pod_name (st.failed_stores ++ st.available_stores) o
    → IsTimed st s (keep_time o s)
unfolding keep_time
keep_time-IsTimed st s none h = unseen h refl
keep_time-IsTimed st s (some q) h = elim (Bool-cases (q.phase =s s.phase)) [
  | inl e ↦ rw e (still q h ((=s_iff q.phase s.phase).0 e) refl)
  | inr e ↦ rw e (changed q h (λ f. ground (arith, e, (=s_iff q.phase s.phase).1 f)) refl)
]

module _ (now : ℕ) (is_available : Pod → Bool) (fns : List (Store → Store))
    (previous : List Store) where
  abbrev pub stores : List Pod → List Store
  stores ps = map (store_of now is_available fns previous) ps

  abbrev pub ups : List Store → List Store
  ups ss = keep_if (λ s. is_up s.phase) ss

  abbrev pub downs : List Store → List Store
  downs ss = keep_if (λ s. not (is_up s.phase)) ss

  add_store-split :
      (s : Store) (st : FailoverStatus) (us ds : List Store)
      → ((add_store now is_available fns s st).available_stores ++ us
          ≡ st.available_stores ++ (if is_up s.phase then s ∷ us else us))
        × ((add_store now is_available fns s st).failed_stores ++ ds
            ≡ st.failed_stores ++ (if not (is_up s.phase) then s ∷ ds else ds))
  unfolding add_store
  add_store-split s st us ds = elim (Bool-cases (is_up s.phase)) [
    | inl e ↦ rw e (append_assoc st.available_stores (s ∷ []) us, refl)
    | inr e ↦ rw e (refl, append_assoc st.failed_stores (s ∷ []) ds)
  ]

  collect-ups :
      (ps : List Pod) (st : FailoverStatus)
      → ((collect now is_available fns previous ps st).available_stores
          ≡ st.available_stores ++ ups (stores ps))
        × ((collect now is_available fns previous ps st).failed_stores
            ≡ st.failed_stores ++ downs (stores ps))
  unfolding collect
  collect-ups [] st = (sym (append-nil st.available_stores), sym (append-nil st.failed_stores))
  collect-ups (p ∷ ps) st = (
    (collect-ups ps next).0
        ∙ (add_store-split (store_of now is_available fns previous p) st _ (downs (stores ps))).0,
    (collect-ups ps next).1
        ∙ (add_store-split (store_of now is_available fns previous p) st (ups (stores ps)) _).1,
  )
    where
      next : FailoverStatus
      next = add_store now is_available fns (store_of now is_available fns previous p) st

-- The stores of the pods, one for each, in the order of the pods. Each is Up exactly if its pod is
-- available; the caller's functions are then applied to it, and its time is found.
module _ (now : ℕ) (is_available : Pod → Bool) (fns : List (Store → Store))
    (st : FailoverStatus) where
  abbrev pub IsStoreOf : Pod → Store → Type 0
  IsStoreOf p s =
      ((is_available p ≡ true)
        × IsTimed st
            (apply_fns fns (record { pod_name = p.name; phase = "Up"; last_transition_time = now }))
            s)
      ⊎ ((is_available p ≡ false)
          × IsTimed st
              (apply_fns fns
                (record { pod_name = p.name; phase = "Down"; last_transition_time = now }))
              s)

  abbrev pub AreStoresOf : List Pod → List Store → Type 0
  AreStoresOf [] [] = Unit {0}
  AreStoresOf [] (s ∷ ss) = ⊥
  AreStoresOf (p ∷ ps) [] = ⊥
  AreStoresOf (p ∷ ps) (s ∷ ss) = IsStoreOf p s × AreStoresOf ps ss

  timed : (s : Store) → IsTimed st s (keep_time (find_store s.pod_name (previous_stores st)) s)
  unfolding previous_stores
  timed s = keep_time-IsTimed st s _ (find_store-Looked s.pod_name (previous_stores st))

  store_of-IsStoreOf :
      (p : Pod) → IsStoreOf p (store_of now is_available fns (previous_stores st) p)
  unfolding store_of fresh_store
  store_of-IsStoreOf p = elim (Bool-cases (is_available p)) [
    | inl e ↦ rw e (inl (refl, timed _))
    | inr e ↦ rw e (inr (refl, timed _))
  ]

  stores-AreStoresOf :
      (ps : List Pod) → AreStoresOf ps (stores now is_available fns (previous_stores st) ps)
  stores-AreStoresOf [] = tt
  stores-AreStoresOf (p ∷ ps) = (store_of-IsStoreOf p, stores-AreStoresOf ps)

-- CollectStoreStatus makes one store for each pod, in the order of the pods, and lists those whose
-- phase is Up as available and the others as failed. A store begins with its pod's name, the phase
-- Up exactly if the pod is available, or else Down, and the time of the collection, and the
-- caller's functions are applied to it. Its transition time is then that of the last store of its
-- name among the failed stores before followed by the available ones, if that had the same phase;
-- otherwise it stays as it is.
pub collect_store_status-IsStoreOf :
    (now : ℕ) (is_available : Pod → Bool) (fns : List (Store → Store)) (st : FailoverStatus)
    (pods : List Pod)
    → (ss : List Store) × AreStoresOf now is_available fns st pods ss
      × ((collect_store_status now is_available fns st pods).available_stores
          ≡ keep_if (λ s. s.phase =s "Up") ss)
      × ((collect_store_status now is_available fns st pods).failed_stores
          ≡ keep_if (λ s. not (s.phase =s "Up")) ss)
unfolding collect_store_status
collect_store_status-IsStoreOf now is_available fns st pods = (
  stores now is_available fns (previous_stores st) pods,
  stores-AreStoresOf now is_available fns st pods,
  both.0,
  both.1,
)
  where
    none_yet : FailoverStatus
    none_yet = record { available_stores = []; failed_stores = [] }

    both :
        ((collect now is_available fns (previous_stores st) pods none_yet).available_stores
          ≡ ups now is_available fns
              (previous_stores st)
              (stores now is_available fns (previous_stores st) pods))
        × ((collect now is_available fns (previous_stores st) pods none_yet).failed_stores
            ≡ downs now is_available fns
                (previous_stores st)
                (stores now is_available fns (previous_stores st) pods))
    both = collect-ups now is_available fns (previous_stores st) pods none_yet
