-- ===== src/Claim/Select/Exclusive.antt =====
-- A claim takes no pod that another claim holds.
use matrixone_operator.Base.{◌≡◌, refl, sym, ◌∙◌, subst, false, Option, List, [], ◌∷◌, arith}
use matrixone_operator.Base.Run.{
  not_found, conflict, refused, Answer, ok, err, Run, M, ◌>>=◌, Ends, Ends-map, answer, answer-Ends,
  ok-eq,
}
use matrixone_operator.Api.Claim.{Claim}
use matrixone_operator.Api.Pod.{Pod}
use matrixone_operator.Base.Trace.{Extends, same, more, Extends-trans, Only-if}
use matrixone_operator.Claim.State.{
  Call, list_pods, list_claims, update_pod, ClaimState, Server, called,
}
use matrixone_operator.Claim.Trace.{OnlyCalls}
use matrixone_operator.Claim.Index.{ClaimIndex, holders, build_pod_claim_index}
use matrixone_operator.Claim.Index.Refine.{other_holders, holders-build_pod_claim_index}
use matrixone_operator.Base.Sort.{sort}
use matrixone_operator.Claim.Select.{
  idle_selector, priority, owned_pod, has_holder, not_found_is_empty, attempted, find_pods,
  try_pods, select_idle, select_cn,
}

-- The calls that are allowed to a claim that looks for a pod: lists, and updates that take a pod which
-- none of the other claims holds.
pub data IsAttempt (c : Claim) (claims : List Claim) : Call → Type 0 where
  pods_listed : IsAttempt c claims list_pods
  claims_listed : IsAttempt c claims list_claims
  attempt :
      (p : Pod)
      → other_holders c.name p.name claims ≡ []
      → IsAttempt c claims (update_pod (owned_pod c p))

no_holder : (cs : List Claim) → has_holder cs ≡ false → cs ≡ []
no_holder [] e = refl
no_holder (c ∷ cs) e = ground arith

module _ (k : Server) (c : Claim) (claims : List Claim) where
  abbrev Sought {ℓ} : {A : Type ℓ} → ClaimState → Run ClaimState A → Type 0
  Sought s r =
      Ends (λ _ t. (t.claim ≡ c) × Extends (IsAttempt c claims) s.calls t.calls)
        (λ _ t. (t.claim ≡ c) × Extends (IsAttempt c claims) s.calls t.calls) r

  abbrev the_index : ClaimIndex
  the_index = build_pod_claim_index c.name claims

  IsAttempt-of :
      (d : Claim) (p : Pod)
      → d ≡ c
      → other_holders c.name p.name claims ≡ []
      → IsAttempt c claims (update_pod (owned_pod d p))
  IsAttempt-of d p e free =
      subst (λ d'. IsAttempt c claims (update_pod (owned_pod d' p))) (sym e) (attempt p free)

  attempt-Sought :
      (d : Claim) (p : Pod) (rest : M ClaimState (Option Pod)) (s : ClaimState)
      → d ≡ c
      → s.claim ≡ c
      → other_holders c.name p.name claims ≡ []
      → OnlyCalls c (IsAttempt c claims) rest
      → (a : Answer Pod) → Sought s (attempted k (owned_pod d p) a rest s)
  attempt-Sought d p rest s e i free h (ok q) = (i, more _ _ (IsAttempt-of d p e free) same)
  attempt-Sought d p rest s e i free h (err not_found) =
      (i, more _ _ (IsAttempt-of d p e free) same)
  attempt-Sought d p rest s e i free h (err refused) = (i, more _ _ (IsAttempt-of d p e free) same)
  attempt-Sought d p rest s e i free h (err conflict) =
      Ends-map _ _ _ _ (rest (called (update_pod (owned_pod d p)) s))
        (λ _ u q. (q.0, Extends-trans (more _ _ (IsAttempt-of d p e free) same) q.1))
        (λ _ u q. (q.0, Extends-trans (more _ _ (IsAttempt-of d p e free) same) q.1))
        (h (called (update_pod (owned_pod d p)) s) i)

  free_of :
      (p : Pod)
      → has_holder (holders p.name the_index) ≡ false
      → other_holders c.name p.name claims ≡ []
  free_of p e = sym (holders-build_pod_claim_index c.name p.name claims) ∙ no_holder _ e

  try_pods-OnlyCalls : (ps : List Pod) → OnlyCalls c (IsAttempt c claims) (try_pods k the_index ps)
  unfolding try_pods
  try_pods-OnlyCalls [] = λ s i. (i, same)
  try_pods-OnlyCalls (p ∷ ps) =
      Only-if _ _ _ (has_holder (holders p.name the_index)) _ _ (λ e. try_pods-OnlyCalls ps)
        (λ e s i.
          attempt-Sought s.claim p (try_pods k the_index ps) s i i (free_of p e)
            (try_pods-OnlyCalls ps) _)

-- Whatever the server answers, once it lists the claims as `claims`, selectCN makes no other calls
-- than the two lists and updates that take a pod to which no other live claim of `claims` refers,
-- whether it ends in a pod, in none or in an error.
pub select_cn-exclusive :
    (k : Server) (s : ClaimState) (claims : List Claim) (orphans : List Pod)
    → k.claims (list_pods ∷ s.calls) ≡ ok claims
    → Ends
        (λ _ t. Extends (IsAttempt s.claim claims) s.calls t.calls)
        (λ _ t. Extends (IsAttempt s.claim claims) s.calls t.calls)
        (select_cn k orphans s)
unfolding select_cn select_idle find_pods
select_cn-exclusive k s claims (p ∷ ps) listed = same
select_cn-exclusive k s claims [] listed =
    answer-Ends _ _ (called list_pods s)
      (not_found_is_empty (k.pods s.calls (idle_selector s.claim))) _ (λ idle _. tried_Ends idle)
      (λ e _. more _ _ pods_listed same)
  where
    before : ClaimState
    before = called list_claims (called list_pods s)

    both_listed : Extends (IsAttempt s.claim claims) s.calls (list_claims ∷ list_pods ∷ s.calls)
    both_listed = more _ _ claims_listed (more _ _ pods_listed same)

    Tried : Run ClaimState (Option Pod) → Type 0
    Tried r =
        Ends (λ _ t. Extends (IsAttempt s.claim claims) s.calls t.calls)
          (λ _ t. Extends (IsAttempt s.claim claims) s.calls t.calls) r

    tried :
        (idle : List Pod)
        → Tried (try_pods k (build_pod_claim_index s.claim.name claims) idle before)
    tried idle =
        Ends-map _ _ _ _ (try_pods k (build_pod_claim_index s.claim.name claims) idle before)
          (λ _ u q. Extends-trans both_listed q.1) (λ _ u q. Extends-trans both_listed q.1)
          (try_pods-OnlyCalls k s.claim claims idle before refl)

    tried_Ends :
        (idle : List Pod)
        → Tried (
            (answer (k.claims (list_pods ∷ s.calls)) >>= (λ cs.
                try_pods k (build_pod_claim_index s.claim.name cs) (sort (priority s.claim) idle)))
              before)
    tried_Ends idle =
        answer-Ends _ _ before (k.claims (list_pods ∷ s.calls)) _
          (λ cs q.
            subst
              (λ d. Tried (
                try_pods k (build_pod_claim_index s.claim.name d) (sort (priority s.claim) idle)
                  before))
              (ok-eq (sym listed ∙ q)) (tried (sort (priority s.claim) idle)))
          (λ e _. both_listed)
