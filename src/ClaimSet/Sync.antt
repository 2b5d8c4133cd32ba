-- ===== src/ClaimSet/Sync.antt =====
-- Sync, listOwnedClaims, cleanClaims and Finalize of pkg/controllers/cnclaimset/controller.go.
pub mod Lists
pub mod Effects
use matrixone_operator.Base.{
  ◌==◌, ◌=s◌, if◌then◌else◌, length, count_if, ℕ, Bool, true, false, ◌&&◌, ◌||◌, List, [], ◌∷◌,
  ◌++◌, map,
}
use matrixone_operator.Base.Run.{
  not_found, conflict, refused, api, resync, Answer, ok, err, done, M, ◌>>=◌, ◌>>◌, pure, throw,
}
use matrixone_operator.Api.Keys.{phase_bound, cn_pod_phase_label, claim_set_name_label}
use matrixone_operator.Api.Claim.{is_terminating, Claim, is_lost_phase, is_ready, ClaimSet}
use matrixone_operator.ClaimSet.State.{
  list_cached, list_direct, delete_claim, SetState, Server, perform, tolerant,
}
use matrixone_operator.ClaimSet.Scale.{instance_id, scale}

-- A claim that listOwnedClaims puts among the lost ones.
unfoldable pub is_dropped : Claim → Bool
is_dropped c = is_lost_phase c.status.phase || instance_id c =s "" || is_terminating c

-- The two lists that listOwnedClaims fills.
unfoldable pub owned_of : List Claim → List Claim
owned_of [] = []
owned_of (c ∷ cs) = let rest = owned_of cs in if is_dropped c then rest else c ∷ rest

unfoldable pub lost_of : List Claim → List Claim
lost_of [] = []
lost_of (c ∷ cs) = let rest = lost_of cs in if is_dropped c then c ∷ rest else rest

abbrev set_lists : List Claim → M SetState (Unit {0})
set_lists items s = done tt (record s { owned = owned_of items; lost = lost_of items })

-- Whether the counts of two lists agree.
unfoldable pub same_counts : List Claim → List Claim → Bool
same_counts cached direct =
    length (owned_of cached) == length (owned_of direct)
    && length (lost_of cached) == length (lost_of direct)

-- The status that Sync leaves.
unfoldable pub collect_status : ClaimSet → List Claim → ClaimSet
collect_status set owned = record set {
  status = record {
    replicas = length owned;
    ready_replicas = count_if is_ready owned;
    claims = map (λ c. c.status) owned;
    selector_labels = (claim_set_name_label, set.name) ∷ (cn_pod_phase_label, phase_bound) ∷ [];
  };
}

abbrev write_status : M SetState (Unit {0})
write_status s = done tt (record s { set = collect_status s.set s.owned })

module _ (k : Server) where
  abbrev items_cached : M SetState (List Claim)
  items_cached s = perform list_cached (k.claims_cached s.calls) s

  abbrev items_direct : M SetState (List Claim)
  items_direct s = perform list_direct (k.claims_direct s.calls) s

  -- Where the cached count is not that of the last status, the cache is compared with the server.
  unfoldable pub check_cache : List Claim → M SetState (Unit {0})
  check_cache items = λ s.
      if length (owned_of items) == s.set.status.replicas
      then done tt s
      else (do
        direct ← items_direct
        if same_counts items direct then pure tt else throw (resync 1))
          s

  unfoldable pub clean_claims : List Claim → M SetState (Unit {0})
  clean_claims [] = pure tt
  clean_claims (c ∷ cs) = elim (is_terminating c) [
    | true ↦ clean_claims cs
    | false ↦ λ s. (do tolerant (delete_claim c) (k.delete s.calls c); clean_claims cs) s
  ]

  abbrev clean_lost : M SetState (Unit {0})
  clean_lost s = clean_claims s.lost s

  unfoldable pub sync : ℕ → M SetState (Unit {0})
  unfolding check_cache clean_claims
  sync fuel = do
    items ← items_cached
    check_cache items
    set_lists items
    scale k fuel
    clean_lost
    write_status

  unfoldable pub delete_each : List Claim → M SetState (Unit {0})
  delete_each [] = pure tt
  delete_each (c ∷ cs) = λ s. (do tolerant (delete_claim c) (k.delete s.calls c); delete_each cs) s

  -- Finalize once the claims are listed.
  unfoldable pub finalize_items : List Claim → M SetState Bool
  unfolding delete_each
  finalize_items items =
      if length (owned_of items) == 0 && length (lost_of items) == 0
      then pure true
      else (do delete_each (owned_of items ++ lost_of items); pure false)

  abbrev finalize_listed : Answer (List Claim) → M SetState Bool
  finalize_listed (ok items) = finalize_items items
  finalize_listed (err not_found) = pure true
  finalize_listed (err conflict) = throw (api conflict)
  finalize_listed (err refused) = throw (api refused)

  unfoldable pub finalize : M SetState Bool
  unfolding finalize_items
  finalize s =
      finalize_listed (k.claims_cached s.calls) (record s { calls = list_cached ∷ s.calls })
