-- ===== src/Pool/Scale.antt =====
-- The scaling of a pool's current CNSet: the second half of Sync of
-- pkg/controllers/cnpool/controller.go, from the pods and claims that it has listed.
pub mod Marks
pub mod Safe
use matrixone_operator.Base.{
  ltb, leb, ◌=s◌, if◌then◌else◌, length, take, count_if, ℕ, ◌+◌, ◌-◌, max, String, Bool, true,
  false, Option, none, some, List, [], ◌∷◌, ◌++◌, map,
}
use matrixone_operator.Base.Map.{get, insert, delete}
use matrixone_operator.Api.Keys.{phase_terminating, cn_pod_phase_label, pod_outdated_label}
use matrixone_operator.Base.Run.{resync, M, ◌>>=◌, ◌>>◌, pure, throw}
use matrixone_operator.Api.Claim.{ClaimPhase, Claim}
use matrixone_operator.Api.Pod.{Pod}
use matrixone_operator.Base.Sort.{sort}
use matrixone_operator.Pool.State.{
  Overlay, SetSpec, SetItem, CnPool, get_max_pods, PoolCall, update_pod, PoolState, PoolServer,
  Written, create_owned_or_update,
}
use matrixone_operator.Api.Version.{Version}
use matrixone_operator.Pool.Build.{sync_cn_set_spec}
use matrixone_operator.Pool.Order.{pod_in_use, deletion_order}

-- The parts of a CNSet that scaling writes, and whether it paused for pending claims.
pub record PoolSet : Type 0 where
  pub paused : Bool
  pub replicas : ℕ
  pub pods_to_delete : List String

-- The pods of the current set, sorted by their use.
pub record Census : Type 0 where
  pub in_use : ℕ
  pub idle : List Pod
  pub terminating : List Pod

no_census : Census
no_census = record { in_use = 0; idle = []; terminating = [] }

is_terminating_pod : Pod → Bool
is_terminating_pod p = get cn_pod_phase_label p.labels =s phase_terminating

-- `DeletionTimestamp != nil`
unfoldable pub is_deleted_pod : Pod → Bool
is_deleted_pod p = p.is_deleted

-- One pod is counted; the lists are those of the pods after it.
count_pod : Pod → Census → Census
unfolding is_terminating_pod
count_pod p c =
    if is_deleted_pod p
    then c
    else if pod_in_use p
    then record c { in_use = c.in_use + 1 }
    else if is_terminating_pod p
    then record c { terminating = p ∷ c.terminating }
    else record c { idle = p ∷ c.idle }

-- iterateCNSetLivePods with the function that Sync gives it.
unfoldable pub take_census : List Pod → Census
unfolding count_pod no_census
take_census [] = no_census
take_census (p ∷ ps) = count_pod p (take_census ps)

is_pending : ClaimPhase → Bool
is_pending ClaimPhase.pending = true
is_pending ClaimPhase.unset = false
is_pending ClaimPhase.bound = false
is_pending ClaimPhase.lost = false
is_pending ClaimPhase.outdated = false

unfoldable pub pending_claims : List Claim → ℕ
unfolding is_pending
pending_claims cs = count_if (λ c. is_pending c.status.phase) cs

unfoldable pub pod_names : List Pod → List String
pod_names ps = map (λ p. p.name) ps

-- The pods in use, one for each pending claim, and the idle ones that the pool keeps.
unfoldable pub desired_replicas : ℕ → List Pod → List Claim → ℕ
desired_replicas max_idle pods claims = (take_census pods).in_use + pending_claims claims + max_idle

unfoldable pub terminating_pod : Pod → Pod
terminating_pod p = record p { labels = insert cn_pod_phase_label phase_terminating p.labels }

-- The idle pods that go, given how many may.
unfoldable pub chosen_pods : ℕ → List Pod → List Pod
chosen_pods count idle =
    if ltb count (length idle)
    then take count (sort deletion_order idle)
    else sort deletion_order idle

-- Whether the server accepts an update, given those made before.
module _ (accepts : List PoolCall → Pod → Bool) where
  -- The loop that marks pods: one whose update is refused is passed over. The pods marked.
  unfoldable pub terminate : List Pod → M PoolState (List Pod)
  terminate [] = pure []
  terminate (p ∷ ps) = λ s.
      let rest = terminate ps in
      let marked = record s { calls = update_pod (terminating_pod p) ∷ s.calls } in
      if accepts s.calls (terminating_pod p)
      then (do deleted ← rest; pure (p ∷ deleted)) marked
      else rest marked

  -- Pods go and the set shrinks by as many, but not below what is desired.
  unfoldable pub scale_down : ℕ → ℕ → Census → M PoolState PoolSet
  scale_down desired spec c = do
    deleted ←
        terminate (chosen_pods (max (c.in_use + length c.idle - desired) (spec - desired)) c.idle)
    pure (record {
      paused = false;
      replicas = max (spec - length deleted) desired;
      pods_to_delete = pod_names c.terminating ++ pod_names deleted;
    })

  -- The closure that writes the set: `spec` is the number of replicas that it has.
  unfoldable pub scale_set : ℕ → ℕ → ℕ → Census → M PoolState PoolSet
  unfolding scale_down
  scale_set desired pending spec c =
      if leb desired spec
      then if ltb 0 pending
        then pure
            (record { paused = true; replicas = spec; pods_to_delete = pod_names c.terminating })
        else scale_down desired spec c
      else pure
          (record { paused = false; replicas = desired; pods_to_delete = pod_names c.terminating })

abbrev without_outdated : Option Overlay → Option Overlay
without_outdated none = none
without_outdated (some o) = some (record o { pod_labels = delete pod_outdated_label o.pod_labels })

-- The specification with the scaling written into it. A paused one returns before its last step.
unfoldable pub scaled_spec : (String → Option Version) → CnPool → PoolSet → SetSpec
scaled_spec parse p set =
    let spec = sync_cn_set_spec parse p p.template in
    record spec {
      replicas = set.replicas;
      pods_to_delete = set.pods_to_delete;
      overlay = if set.paused then spec.overlay else without_outdated spec.overlay;
    }

module _ (k : PoolServer) where
  -- The closure of the update; the specification that the server has gives the number of replicas.
  unfoldable pub rescale : CnPool → ℕ → ℕ → Census → SetSpec → M PoolState SetSpec
  rescale p desired pending c old = scale_set k.accepts desired pending old.replicas c >>= λ set.
      pure (scaled_spec k.parse_version p set)

  -- `legacy` counts the pods in use of outdated sets; `d` is the set as it is built.
  unfoldable pub scale_pool : CnPool → SetItem → ℕ → List Pod → List Claim → M PoolState (Written k)
  scale_pool p d legacy pods claims =
      let desired = desired_replicas p.max_idle pods claims in
      if ltb (get_max_pods p) (legacy + desired)
      then throw (resync 60)
      else create_owned_or_update k d (rescale p desired (pending_claims claims) (take_census pods))
