-- ===== src/Claim/Select.antt =====
-- Which pod a claim takes: selectCN, ensureOwnership and the priority order of
-- pkg/controllers/cnclaim/controller.go.
pub mod Exclusive
pub mod Order
use matrixone_operator.Base.{
  ◌==◌, ◌=s◌, if◌then◌else◌, ℕ, ◌%◌, String, Bool, true, false, not, ◌&&◌, ◌||◌, Option, none, some,
  List, [], ◌∷◌,
}
use matrixone_operator.Base.Map.{Map, get, has}
use matrixone_operator.Api.Keys.{
  phase_idle, cn_pod_phase_label, pool_name_label, pod_last_owner_label, pod_outdated_label,
}
use matrixone_operator.Base.Run.{
  not_found, conflict, refused, api, Answer, ok, err, done, fail, M, ◌>>=◌, ◌>>◌, pure,
}
use matrixone_operator.Base.Int.{ℤ, sub_ℕ}
use matrixone_operator.Api.Claim.{Claim}
use matrixone_operator.Api.Pod.{Pod}
use matrixone_operator.Base.Sort.{sort}
use matrixone_operator.Claim.State.{
  list_pods, list_claims, update_pod, ClaimState, Server, called, perform,
}
use matrixone_operator.Claim.Labels.{own_labels}
use matrixone_operator.Claim.Index.{ClaimIndex, holders, build_pod_claim_index}

-- The selector of the idle pods that fit a claim.
unfoldable pub idle_selector : Claim → Map → Bool
idle_selector c m =
    c.spec.selector m
    && in_phase_idle
    && (c.spec.pool_name =s "" || in_pool)
    && not (has pod_outdated_label m)
  where
    in_phase_idle : Bool
    in_phase_idle = has cn_pod_phase_label m && get cn_pod_phase_label m =s phase_idle

    in_pool : Bool
    in_pool = has pool_name_label m && get pool_name_label m =s c.spec.pool_name

unfoldable pub rank_of_owner : Option String → String → ℕ
rank_of_owner none last = 1
rank_of_owner (some owner) last = if last =s owner then 0 else 1

unfoldable pub previously_owned : Claim → Pod → ℕ
unfolding rank_of_owner
previously_owned c p = rank_of_owner c.spec.owner_name (get pod_last_owner_label p.labels)

-- `CreationTimestamp.Second()`: the second within the minute.
unfoldable pub second_of : ℕ → ℕ
second_of t = t % 60

unfoldable pub priority : Claim → Pod → Pod → ℤ
priority c a b =
    if not (previously_owned c a == previously_owned c b)
    then sub_ℕ (previously_owned c a) (previously_owned c b)
    else sub_ℕ (second_of a.created) (second_of b.created)

-- The pod that ensureOwnership sends.
unfoldable pub owned_pod : Claim → Pod → Pod
owned_pod c p = record p { labels = own_labels c p.labels }

abbrev pub has_holder : List Claim → Bool
has_holder [] = false
has_holder (c ∷ cs) = true

abbrev pub not_found_is_empty : Answer (List Pod) → Answer (List Pod)
not_found_is_empty (ok ps) = ok ps
not_found_is_empty (err not_found) = ok []
not_found_is_empty (err conflict) = err conflict
not_found_is_empty (err refused) = err refused

module _ (k : Server) where
  unfoldable pub ensure_ownership : Pod → M ClaimState Pod
  ensure_ownership p s =
      let sent = owned_pod s.claim p in perform (update_pod sent) (k.write_pod s.calls sent) s

  -- Pods are listed; an IsNotFound is an empty list.
  unfoldable pub find_pods : (Map → Bool) → M ClaimState (List Pod)
  find_pods test s = perform list_pods (not_found_is_empty (k.pods s.calls test)) s

  -- What one attempt leads to: on a conflict the next pod is tried.
  abbrev pub attempted : Pod → Answer Pod → M ClaimState (Option Pod) → M ClaimState (Option Pod)
  attempted sent (ok p) rest s = done (some p) (called (update_pod sent) s)
  attempted sent (err conflict) rest s = rest (called (update_pod sent) s)
  attempted sent (err not_found) rest s = fail (api not_found) (called (update_pod sent) s)
  attempted sent (err refused) rest s = fail (api refused) (called (update_pod sent) s)

  -- The loop over the idle pods.
  unfoldable pub try_pods : ClaimIndex → List Pod → M ClaimState (Option Pod)
  try_pods idx [] = pure none
  try_pods idx (p ∷ ps) = elim (has_holder (holders p.name idx)) [
    | true ↦ try_pods idx ps
    | false ↦ λ s.
        attempted (owned_pod s.claim p) (k.write_pod s.calls (owned_pod s.claim p))
          (try_pods idx ps) s
  ]

  abbrev pub claims_of_namespace : M ClaimState (List Claim)
  claims_of_namespace s = perform list_claims (k.claims s.calls) s

  unfoldable pub select_idle : M ClaimState (Option Pod)
  unfolding find_pods try_pods
  select_idle = λ s.
      (do
        idle ← find_pods (idle_selector s.claim)
        claims ← claims_of_namespace
        try_pods (build_pod_claim_index s.claim.name claims) (sort (priority s.claim) idle))
        s

  -- An orphan goes first.
  unfoldable pub select_cn : List Pod → M ClaimState (Option Pod)
  unfolding select_idle
  select_cn [] = select_idle
  select_cn (p ∷ ps) = pure (some p)
