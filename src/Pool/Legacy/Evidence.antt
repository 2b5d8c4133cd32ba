-- ===== src/Pool/Legacy/Evidence.antt =====
-- What a reconciliation of a pool has seen of its sets, pods and claims.
use matrixone_operator.Base.{
  All, inl, inr, ◌=s◌, count_if, keep_if, ℕ, ◌+◌, ◌≤◌, ◌≡◌, ◌⊎◌, true, false, not, some, List, [],
  ◌∷◌, map,
}
use matrixone_operator.Base.Map.{Map, get}
use matrixone_operator.Base.Run.{ok}
use matrixone_operator.Api.Keys.{pool_name_label, instance_label_key}
use matrixone_operator.Api.Claim.{Claim}
use matrixone_operator.Api.Pod.{Pod}
use matrixone_operator.Base.{IsAmong}
use matrixone_operator.Base.Trace.{Extends-trans, ◌⊑◌}
use matrixone_operator.Pool.Order.{pod_in_use}
use matrixone_operator.Pool.State.{
  read_set, SetSpec, SetItem, CnPool, get_max_pods, PoolCall, list_sets, list_pods, list_claims,
  update_set, create_set, PoolServer,
}
use matrixone_operator.Pool.Build.{owned_labels}
use matrixone_operator.Pool.Legacy.{Walk, direct_labels}
use matrixone_operator.Pool.Scale.{PoolSet, desired_replicas}

-- The pods that are not being deleted, and of those the ones in use and the others.
abbrev live : List Pod → List Pod
live ps = keep_if (λ p. not p.is_deleted) ps

abbrev pub live_in_use : List Pod → ℕ
live_in_use ps = count_if pod_in_use (live ps)

-- What a set with these pods keeps.
abbrev pub kept : List Pod → Walk
kept ps = record {
  replicas = live_in_use ps;
  to_delete = map (λ p. p.name) (keep_if (λ p. not (pod_in_use p)) (live ps));
}

-- What the server answered in a run that began after the calls `base`. Each statement is about the
-- calls `past` made by some time, and so stays true as calls are added.
module _ (k : PoolServer) (base : List PoolCall) where
  -- The call was made after `cs`.
  abbrev Made : PoolCall → List PoolCall → List PoolCall → Type 0
  Made c cs past = (base ⊑ cs) × (c ∷ cs ⊑ past)

  -- What the server listed.
  abbrev pub Pods : Map → List Pod → List PoolCall → Type 0
  Pods ls pods past = (cs : List PoolCall) × Made (list_pods ls) cs past × (k.pods cs ls ≡ ok pods)

  abbrev pub Claims : Map → List Claim → List PoolCall → Type 0
  Claims ls claims past =
      (cs : List PoolCall) × Made (list_claims ls) cs past × (k.claims cs ls ≡ ok claims)

  -- The pods that the selector of a set selects.
  abbrev pub PodsOf : SetItem → List Pod → List PoolCall → Type 0
  PodsOf i pods past =
      (((i.label_selector =s "") ≡ true) × (pods ≡ []))
      ⊎ ((ls : Map) × (k.parse_selector i.label_selector ≡ some ls) × Pods ls pods past)

  -- The server answered the set, or the writing of it, with that number of replicas in its status.
  abbrev pub Status : SetItem → ℕ → List PoolCall → Type 0
  Status i n past =
      (cs : List PoolCall) × (((spec : SetSpec) × ((Made (create_set i.name i.labels spec) cs past
              × (k.set_created cs i.name spec ≡ ok n))
            ⊎ (Made (update_set i.name spec) cs past × (k.set_updated cs i.name spec ≡ ok n))))
        ⊎ ((found : SetItem) × Made (read_set i.name) cs past
            × (k.set cs i.name ≡ ok found)
            × (found.status_replicas ≡ n)))

  pub Pods-later :
      {ls : Map} {pods : List Pod} {xs ys : List PoolCall}
      → xs ⊑ ys
      → Pods ls pods xs
      → Pods ls pods ys
  Pods-later g (cs, m, e) = (cs, (m.0, Extends-trans m.1 g), e)

  pub PodsOf-later :
      (i : SetItem) {pods : List Pod} {xs ys : List PoolCall}
      → xs ⊑ ys
      → PodsOf i pods xs
      → PodsOf i pods ys
  PodsOf-later i g (inl h) = inl h
  PodsOf-later i g (inr (ls, e, h)) = inr (ls, e, Pods-later g h)

  pub Status-later :
      (i : SetItem) {n : ℕ} {xs ys : List PoolCall} → xs ⊑ ys → Status i n xs → Status i n ys
  Status-later i g (cs, inl (spec, inl (m, e))) =
      (cs, inl (spec, inl ((m.0, Extends-trans m.1 g), e)))
  Status-later i g (cs, inl (spec, inr (m, e))) =
      (cs, inl (spec, inr ((m.0, Extends-trans m.1 g), e)))
  Status-later i g (cs, inr (found, m, e, r)) = (cs, inr (found, (m.0, Extends-trans m.1 g), e, r))

module _ (k : PoolServer) (p : CnPool) (d : SetItem) (base : List PoolCall) where
  abbrev pub Sets : List SetItem → List PoolCall → Type 0
  Sets sets past =
      (cs : List PoolCall) × Made k base (list_sets (owned_labels p)) cs past
      × (k.sets cs (owned_labels p) ≡ ok sets)

  pub Sets-later :
      {sets : List SetItem} {xs ys : List PoolCall} → xs ⊑ ys → Sets sets xs → Sets sets ys
  Sets-later g (cs, m, e) = (cs, (m.0, Extends-trans m.1 g), e)

  abbrev pub IsListed : SetItem → List PoolCall → Type 0
  IsListed i past = (sets : List SetItem) × Sets sets past × IsAmong i sets

  -- A set of the pool that is not the one that it wants now.
  abbrev pub IsLegacy : SetItem → List PoolCall → Type 0
  IsLegacy i past = IsListed i past × ((i.name =s d.name) ≡ false)

  pub IsLegacy-later :
      (i : SetItem) {xs ys : List PoolCall} → xs ⊑ ys → IsLegacy i xs → IsLegacy i ys
  IsLegacy-later i g ((sets, l, m), e) = ((sets, Sets-later g l, m), e)

  -- A pod of a former revision: of a legacy set, or a direct one of another set than the current.
  pub data IsOld (q : Pod) (past : List PoolCall) : Type 0 where
    of_set :
        (i : SetItem) (pods : List Pod)
        → IsLegacy i past
        → PodsOf k base i pods past
        → IsAmong q pods
        → IsOld q past
    direct :
        (pods : List Pod)
        → Pods k base (direct_labels p) pods past
        → IsAmong q pods
        → (get instance_label_key q.labels =s d.name) ≡ false
        → IsOld q past

  pub IsOld-later : {q : Pod} {xs ys : List PoolCall} → xs ⊑ ys → IsOld q xs → IsOld q ys
  IsOld-later g (of_set i pods l o m) =
      of_set i pods (IsLegacy-later i g l) (PodsOf-later k base i g o) m
  IsOld-later g (direct pods o m e) = direct pods (Pods-later k base g o) m e

  -- The pods in use of the legacy sets of a list, in all.
  pub data IsTotal (past : List PoolCall) : List SetItem → ℕ → Type 0 where
    none_listed : IsTotal past [] 0
    current_listed :
        (i : SetItem) (is : List SetItem) (n : ℕ)
        → (i.name =s d.name) ≡ true
        → IsTotal past is n
        → IsTotal past (i ∷ is) n
    legacy_listed :
        (i : SetItem) (is : List SetItem) (n : ℕ) (pods : List Pod)
        → (i.name =s d.name) ≡ false
        → PodsOf k base i pods past
        → IsTotal past is n
        → IsTotal past (i ∷ is) (live_in_use pods + n)

  pub IsTotal-later :
      {xs ys : List PoolCall} {is : List SetItem} {n : ℕ}
      → xs ⊑ ys
      → IsTotal xs is n
      → IsTotal ys is n
  IsTotal-later g none_listed = none_listed
  IsTotal-later g (current_listed i is n e h) = current_listed i is n e (IsTotal-later g h)
  IsTotal-later g (legacy_listed i is n pods e o h) =
      legacy_listed i is n pods e (PodsOf-later k base i g o) (IsTotal-later g h)

  -- The pods of the current set, the one of the built set's name among the listed ones: those of its
  -- selector, and none only where no listed set has the name.
  pub data CurrentPods (sets : List SetItem) (pods : List Pod) (past : List PoolCall) : Type 0 where
    unlisted : All (λ i. (i.name =s d.name) ≡ false) sets → pods ≡ [] → CurrentPods sets pods past
    of_current :
        (i : SetItem)
        → IsAmong i sets
        → (i.name =s d.name) ≡ true
        → PodsOf k base i pods past
        → CurrentPods sets pods past

  pub CurrentPods-later :
      (sets : List SetItem) {pods : List Pod} {xs ys : List PoolCall}
      → xs ⊑ ys
      → CurrentPods sets pods xs
      → CurrentPods sets pods ys
  CurrentPods-later sets g (unlisted h e) = unlisted h e
  CurrentPods-later sets g (of_current i m e o) = of_current i m e (PodsOf-later k base i g o)

  -- The scaling is enough for the pods in use, the pending claims and the idle pods to keep, and these
  -- are within the limit, with the pods in use of legacy sets.
  pub record IsEnough (set : PoolSet) (past : List PoolCall) : Type 0 where
    pub sets : List SetItem
    pub legacy : ℕ
    pub pods : List Pod
    pub claims : List Claim
    pub listed : Sets sets past
    pub total : IsTotal past sets legacy
    pub current : CurrentPods sets pods past
    pub nominated : Claims k base ((pool_name_label, p.name) ∷ []) claims past
    pub enough : desired_replicas p.max_idle pods claims ≤ set.replicas
    pub within : legacy + desired_replicas p.max_idle pods claims ≤ get_max_pods p

  pub IsEnough-later :
      {set : PoolSet} {xs ys : List PoolCall} → xs ⊑ ys → IsEnough set xs → IsEnough set ys
  IsEnough-later g h = record {
    sets = h.sets;
    legacy = h.legacy;
    pods = h.pods;
    claims = h.claims;
    listed = Sets-later g h.listed;
    total = IsTotal-later g h.total;
    current = CurrentPods-later h.sets g h.current;
    nominated = (h.nominated.0, (h.nominated.1.0, Extends-trans h.nominated.1.1 g), h.nominated.2);
    enough = h.enough;
    within = h.within;
  }
