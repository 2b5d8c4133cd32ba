-- ===== src/Pool/Legacy.antt =====
-- The sets and pods of a pool's former revisions: syncLegacySet, reclaimLegacyCNClaim,
-- iterateCNSetLivePods and iterateDirectLivePods of pkg/controllers/cnpool/controller.go.
pub mod Evidence
pub mod Allowed
pub mod Kept
pub mod Writes
pub mod Safe
pub mod Runs
pub mod Gone
pub mod Drained
use matrixone_operator.Base.{
  ◌==◌, ◌=s◌, if◌then◌else◌, ℕ, ◌+◌, String, Bool, true, false, not, ◌&&◌, ◌||◌, Option, none, some,
  List, [], ◌∷◌,
}
use matrixone_operator.Base.Map.{Map, get, insert}
use matrixone_operator.Base.Run.{
  not_found, conflict, refused, api, failed, Answer, ok, err, M, ◌>>=◌, ◌>>◌, pure, throw,
}
use matrixone_operator.Api.Keys.{
  phase_bound, direct_pod_label, pod_claimed_by_label, cn_pod_phase_label, pool_name_label,
  pod_outdated_label, instance_label_key,
}
use matrixone_operator.Api.Pod.{Pod}
use matrixone_operator.Pool.Order.{pod_in_use}
use matrixone_operator.Pool.State.{
  Overlay, SetSpec, SetItem, CnPool, list_pods, read_claim, outdate_claim, delete_set, PoolState,
  PoolServer, called, ask, Written, create_owned_or_update,
}

-- What a walk over the live pods of a legacy set finds: how many are in use, and the others.
pub record Walk : Type 0 where
  pub replicas : ℕ
  pub to_delete : List String

abbrev pub labelled_outdated : Option Overlay → Overlay
labelled_outdated none = record {
  pod_labels = insert pod_outdated_label "y" [];
  pod_annotations = [];
}
labelled_outdated (some o) = record o { pod_labels = insert pod_outdated_label "y" o.pod_labels }

-- The closure that shrinks a legacy set.
unfoldable pub shrink : Walk → SetSpec → SetSpec
shrink w spec = record spec {
  replicas = w.replicas;
  pods_to_delete = w.to_delete;
  overlay = some (labelled_outdated spec.overlay);
}

abbrev pub direct_labels : CnPool → Map
direct_labels p = (pool_name_label, p.name) ∷ (direct_pod_label, "y") ∷ []

abbrev pub orphan_labels : SetItem → Map
orphan_labels i = (instance_label_key, i.name) ∷ (direct_pod_label, "y") ∷ []

abbrev pub is_empty {ℓ} : {A : Type ℓ} → List A → Bool
is_empty [] = true
is_empty (x ∷ xs) = false

module _ (k : PoolServer) where
  abbrev pub outdate : String → M PoolState (Unit {0})
  outdate name = ask (outdate_claim name) (λ cs. k.claim_outdated cs name)

  abbrev pub on_claim : String → Answer (Unit {0}) → M PoolState (Unit {0})
  on_claim name (ok _) = outdate name
  on_claim name (err not_found) = throw failed
  on_claim name (err conflict) = throw (api conflict)
  on_claim name (err refused) = throw (api refused)

  abbrev pub reclaim_named : String → M PoolState (Unit {0})
  reclaim_named name s = on_claim name (k.claim s.calls name) (called (read_claim name) s)

  unfoldable pub reclaim_legacy_cn_claim : Pod → M PoolState (Unit {0})
  reclaim_legacy_cn_claim p =
      if not (get cn_pod_phase_label p.labels =s phase_bound)
      then pure tt
      else if get pod_claimed_by_label p.labels =s ""
      then pure tt
      else reclaim_named (get pod_claimed_by_label p.labels)

  abbrev pub pods_with : Map → M PoolState (List Pod)
  pods_with ls = ask (list_pods ls) (λ cs. k.pods cs ls)

  abbrev pub pods_selected : Option Map → M PoolState (List Pod)
  pods_selected none = throw failed
  pods_selected (some ls) = pods_with ls

  -- The pods that iterateCNSetLivePods walks over, the deleted ones included.
  unfoldable pub pods_of_set : SetItem → M PoolState (List Pod)
  pods_of_set i =
      if i.label_selector =s "" then pure [] else pods_selected (k.parse_selector i.label_selector)

  -- The walk that syncLegacySet makes.
  unfoldable pub walk : List Pod → M PoolState Walk
  walk [] = pure (record { replicas = 0; to_delete = [] })
  walk (p ∷ ps) =
      let rest = walk ps in
      if p.is_deleted
      then rest
      else if pod_in_use p
      then reclaim_legacy_cn_claim p
        >> (rest >>= λ w. pure (record w { replicas = w.replicas + 1 }))
      else rest >>= λ w. pure (record w { to_delete = p.name ∷ w.to_delete })

  -- The set is deleted once it is wanted, and is, without pods.
  abbrev pub remove : SetItem → M PoolState (Unit {0})
  remove i = ask (delete_set i.name) (λ cs. k.set_deleted cs i.name)

  abbrev pub collect_garbage : SetItem → Written k → List Pod → M PoolState (Unit {0})
  collect_garbage i (spec, n) orphans =
      if spec.replicas == 0 && n == 0 && is_empty orphans then remove i else pure tt

  -- The number of pods in use that the set keeps.
  unfoldable pub sync_legacy_set : SetItem → M PoolState ℕ
  sync_legacy_set i = do
    pods ← pods_of_set i
    w ← walk pods
    written ← create_owned_or_update k i (λ old. pure (shrink w old))
    orphans ← pods_with (orphan_labels i)
    _ ← collect_garbage i written orphans
    pure w.replicas

  -- The loop over the listed sets: all but the current one are legacy. The pods that they keep.
  unfoldable pub sync_legacy_sets : String → List SetItem → M PoolState ℕ
  sync_legacy_sets current [] = pure 0
  sync_legacy_sets current (i ∷ is) =
      let rest = sync_legacy_sets current is in
      if i.name =s current then rest else (do n ← sync_legacy_set i; m ← rest; pure (n + m))

  -- The walk over the direct pods: the claims of those of other sets are reclaimed.
  unfoldable pub reclaim_direct_pods : String → List Pod → M PoolState (Unit {0})
  reclaim_direct_pods current [] = pure tt
  reclaim_direct_pods current (p ∷ ps) =
      let rest = reclaim_direct_pods current ps in
      if p.is_deleted || get instance_label_key p.labels =s current
      then rest
      else reclaim_legacy_cn_claim p >> rest
