-- ===== src/Pool/Sync.antt =====
-- A reconciliation of a pool: Sync, listNominatedClaims, Finalize and the handlers of watched objects
-- of pkg/controllers/cnpool/controller.go.
pub mod Scaling
pub mod Safe
pub mod Live
use matrixone_operator.Base.{
  ◌=s◌, if◌then◌else◌, ℕ, String, Bool, true, Option, none, some, List, [], ◌∷◌,
}
use matrixone_operator.Base.Map.{Map, lookup}
use matrixone_operator.Base.Run.{
  not_found, conflict, refused, api, Answer, ok, err, done, fail, M, ◌>>=◌, ◌>>◌, pure, throw,
}
use matrixone_operator.Api.Keys.{pool_name_label}
use matrixone_operator.Api.Claim.{Claim}
use matrixone_operator.Api.Pod.{Pod}
use matrixone_operator.Pool.State.{
  SetItem, CnPool, PoolState, PoolServer, list_sets, list_claims, delete_all_sets, called, ask,
  Written,
}
use matrixone_operator.Pool.Build.{owned_labels, build_cn_set}
use matrixone_operator.Pool.Legacy.{
  direct_labels, is_empty, pods_with, pods_of_set, sync_legacy_sets, reclaim_direct_pods,
}
use matrixone_operator.Pool.Scale.{scale_pool}

-- The set of that name among the listed ones; of several the last.
abbrev last_of : Option SetItem → SetItem → Option SetItem
last_of none i = some i
last_of (some j) i = some j

unfoldable pub current_set : String → List SetItem → Option SetItem
current_set name [] = none
current_set name (i ∷ is) =
    let rest = current_set name is in if i.name =s name then last_of rest i else rest

-- The requests for a pod and for a claim: the pool that it names.
abbrev request_of : Option String → List String
request_of none = []
request_of (some name) = name ∷ []

unfoldable pub pool_of_pod : Pod → List String
pool_of_pod p = request_of (lookup pool_name_label p.labels)

unfoldable pub pool_of_claim : Claim → List String
pool_of_claim c = if c.spec.pool_name =s "" then [] else c.spec.pool_name ∷ []

abbrev pub nominated : CnPool → Map
nominated p = (pool_name_label, p.name) ∷ []

module _ (k : PoolServer) where
  abbrev pub owned_sets : CnPool → M PoolState (List SetItem)
  owned_sets p = ask (list_sets (owned_labels p)) (λ cs. k.sets cs (owned_labels p))

  unfoldable pub list_nominated_claims : CnPool → M PoolState (List Claim)
  list_nominated_claims p = ask (list_claims (nominated p)) (λ cs. k.claims cs (nominated p))

  -- No set, no pods.
  abbrev pub pods_of_current : Option SetItem → M PoolState (List Pod)
  pods_of_current none = pure []
  pods_of_current (some i) = pods_of_set k i

  -- What follows the sets of former revisions.
  unfoldable pub sync_current : CnPool → SetItem → List SetItem → ℕ → M PoolState (Written k)
  sync_current p d sets legacy = do
    direct ← pods_with k (direct_labels p)
    _ ← reclaim_direct_pods k d.name direct
    pods ← pods_of_current (current_set d.name sets)
    claims ← list_nominated_claims p
    scale_pool k p d legacy pods claims

  unfoldable pub sync_sets : CnPool → SetItem → M PoolState (Written k)
  sync_sets p d = do
    sets ← owned_sets p
    legacy ← sync_legacy_sets k d.name sets
    sync_current p d sets legacy

  unfoldable pub sync : CnPool → M PoolState (Written k)
  sync p = build_cn_set k p >>= sync_sets p

  abbrev pub none_left : Answer (List SetItem) → M PoolState Bool
  none_left (ok sets) = pure (is_empty sets)
  none_left (err not_found) = pure true
  none_left (err conflict) = throw (api conflict)
  none_left (err refused) = throw (api refused)

  abbrev pub look_again : CnPool → Answer (Unit {0}) → M PoolState Bool
  look_again p (ok _) s =
      none_left (k.sets s.calls (owned_labels p)) (called (list_sets (owned_labels p)) s)
  look_again p (err not_found) s = done true s
  look_again p (err conflict) s = fail (api conflict) s
  look_again p (err refused) s = fail (api refused) s

  -- True: the finalizer can be removed.
  unfoldable pub finalize : CnPool → M PoolState Bool
  finalize p s =
      look_again p (k.all_sets_deleted s.calls) (called (delete_all_sets (owned_labels p)) s)
