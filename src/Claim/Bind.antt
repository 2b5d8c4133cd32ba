-- ===== src/Claim/Bind.antt =====
-- Binding a claim to a pod: Bind, claimCN and syncBindPod of pkg/controllers/cnclaim/controller.go.
use matrixone_operator.Base.{
  ◌=s◌, if◌then◌else◌, ℕ, Bool, true, false, not, ◌&&◌, Option, none, some, List, [], ◌∷◌,
}
use matrixone_operator.Base.Map.{Map, get, has, insert}
use matrixone_operator.Api.Keys.{
  phase_bound, direct_pod_label, pod_claimed_by_label, cn_pod_phase_label, pool_name_label,
  lifecycle_state_key, lifecycle_normal,
}
use matrixone_operator.Base.Run.{resync, done, M, ◌>>=◌, ◌>>◌, pure, throw}
use matrixone_operator.Api.Claim.{ClaimPhase, StoreStatus, WorkState, ClaimStatus, Claim}
use matrixone_operator.Api.Pod.{Pod}
use matrixone_operator.Api.Sets.{Pool}
use matrixone_operator.Claim.State.{
  list_pools, patch_claim, update_claim, update_status, ClaimState, Server, perform, send_claim,
  set_status,
}
use matrixone_operator.Claim.Select.{find_pods, select_cn}
use matrixone_operator.Claim.Store.{to_store_labels, to_store_status, patch_cn_store}

abbrev pub retry_bind_interval : ℕ
retry_bind_interval = 5

abbrev pub retry_patch_interval : ℕ
retry_patch_interval = 15

-- Whether a pod of a CloneSet has left its normal lifecycle state.
unfoldable pub is_unsettled : Pod → Bool
is_unsettled p =
    not (has direct_pod_label p.labels)
    && not (get lifecycle_state_key p.labels =s lifecycle_normal)

-- The claim that refers to the pod.
unfoldable pub refer_to : Pod → Claim → Claim
refer_to p c = record c {
  labels = insert pool_name_label (get pool_name_label p.labels) c.labels;
  spec = record spec {
    pod_name = p.name;
    node_name = p.node_name;
    pool_name = get pool_name_label p.labels;
  };
}
  where
    open c use {spec}

bound_phase : ClaimPhase → ClaimPhase
bound_phase ClaimPhase.unset = ClaimPhase.bound
bound_phase ClaimPhase.pending = ClaimPhase.bound
bound_phase ClaimPhase.bound = ClaimPhase.bound
bound_phase ClaimPhase.lost = ClaimPhase.lost
bound_phase ClaimPhase.outdated = ClaimPhase.outdated

or_now : ℕ → Option ℕ → Option ℕ
or_now now none = some now
or_now now (some t) = some t

-- The store keeps its bound time as long as it is the same pod's.
kept_time : ℕ → StoreStatus → StoreStatus → StoreStatus
kept_time now old new =
    if old.pod_name =s new.pod_name
    then record new { bound_time = old.bound_time }
    else record new { bound_time = some now }

unfoldable pub bound_status : ℕ → StoreStatus → ClaimStatus → ClaimStatus
unfolding bound_phase or_now kept_time
bound_status now new st = record st {
  phase = bound_phase st.phase;
  bound_time = or_now now st.bound_time;
  store = kept_time now st.store new;
}

-- The first pool whose pods the claim selects.
unfoldable pub matching_pool : Claim → List Pool → Option Pool
matching_pool c [] = none
matching_pool c (p ∷ ps) =
    let rest = matching_pool c ps in if c.spec.selector p.pod_labels then some p else rest

-- The claim nominated to a pool.
unfoldable pub nominate : Pool → Claim → Claim
nominate p c = record c {
  labels = insert pool_name_label p.name c.labels;
  spec = record spec { pool_name = p.name };
}
  where
    open c use {spec}

-- The labels of the pods that an earlier run has claimed.
unfoldable pub claimed_selector : Claim → Map → Bool
claimed_selector c m =
    has cn_pod_phase_label m
    && get cn_pod_phase_label m =s phase_bound
    && has pod_claimed_by_label m
    && get pod_claimed_by_label m =s c.name

module _ (k : Server) where
  abbrev patch_claim_with : (Claim → Claim) → M ClaimState (Unit {0})
  patch_claim_with f s = send_claim k patch_claim (f s.claim) s

  abbrev save_status : M ClaimState (Unit {0})
  save_status s = send_claim k update_status s.claim s

  abbrev bind_status : StoreStatus → M ClaimState (Unit {0})
  bind_status new s = set_status (bound_status (k.now s.calls) new s.claim.status) s

  -- syncBindPod once the pod is settled.
  unfoldable pub bind_settled : Pod → M ClaimState (Unit {0})
  bind_settled p = λ s.
      (do
        cn ← patch_cn_store k p WorkState.working (some (to_store_labels s.claim.spec.cn_labels))
        patch_claim_with (refer_to p)
        bind_status (to_store_status cn p)
        save_status)
        s

  unfoldable pub sync_bind_pod : Pod → M ClaimState (Unit {0})
  unfolding bind_settled
  sync_bind_pod p = elim (is_unsettled p) [
    | true ↦ throw (resync retry_patch_interval)
    | false ↦ bind_settled p
  ]

  bind_claimed : Option Pod → M ClaimState (Option Pod)
  bind_claimed none = pure none
  bind_claimed (some p) = do sync_bind_pod p; pure (some p)

  unfoldable pub claim_cn : List Pod → M ClaimState (Option Pod)
  unfolding bind_claimed
  claim_cn orphans = do claimed ← select_cn k orphans; bind_claimed claimed

  -- Nominates the claim to the first matching pool.
  nominate_to : Option Pool → M ClaimState (Unit {0})
  nominate_to none = throw (resync retry_bind_interval)
  nominate_to (some p) = λ s. send_claim k update_claim (nominate p s.claim) s

  unfoldable pub find_pool : M ClaimState (Unit {0})
  unfolding nominate_to
  find_pool = λ s.
      (do pools ← perform list_pools (k.pools s.calls); nominate_to (matching_pool s.claim pools)) s

  -- Without a pod, a claim that has no pool yet looks for one.
  pool_unless_claimed : Option Pod → M ClaimState (Unit {0})
  pool_unless_claimed (some p) = pure tt
  pool_unless_claimed none = λ s. if s.claim.spec.pool_name =s "" then find_pool s else done tt s

  abbrev find_orphans : M ClaimState (List Pod)
  find_orphans s = find_pods k (claimed_selector s.claim) s

  abbrev set_pending : M ClaimState (Unit {0})
  set_pending s = set_status (record st { phase = ClaimPhase.pending }) s
    where
      st : ClaimStatus
      st = s.claim.status

  -- Bind always asks to come back.
  unfoldable pub bind : M ClaimState (Unit {0})
  unfolding claim_cn pool_unless_claimed
  bind = do
    set_pending
    orphans ← find_orphans
    claimed ← claim_cn orphans
    pool_unless_claimed claimed
    throw (resync retry_bind_interval)
