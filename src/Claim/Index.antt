-- ===== src/Claim/Index.antt =====
-- Which other claims hold a pod: buildPodClaimIndex, podClaimedByOthers and claimNames of
-- pkg/controllers/cnclaim/controller.go. The API call is made by the callers.
pub mod Refine
use matrixone_operator.Base.{
  ◌=s◌, if◌then◌else◌, String, Bool, true, false, ◌||◌, List, [], ◌∷◌, ◌++◌,
}
use matrixone_operator.Api.Claim.{Claim, is_terminating}

-- `map[string][]v1alpha1.CNClaim`
abbrev pub ClaimIndex : Type 0
ClaimIndex = List (String × List Claim)

-- `index[name]`
unfoldable pub holders : String → ClaimIndex → List Claim
holders name [] = []
holders name ((n, cs) ∷ idx) = let rest = holders name idx in if n =s name then cs else rest

-- `index[name] = append(index[name], c)`
unfoldable pub add_holder : String → Claim → ClaimIndex → ClaimIndex
add_holder name c [] = (name, c ∷ []) ∷ []
add_holder name c ((n, cs) ∷ idx) =
    let rest = add_holder name c idx in
    if n =s name then (n, cs ++ c ∷ []) ∷ idx else (n, cs) ∷ rest

-- The claims that the loop passes over.
unfoldable pub is_skipped : String → Claim → Bool
is_skipped exclude c = c.name =s exclude || is_terminating c || c.spec.pod_name =s ""

unfoldable pub add_claims : String → List Claim → ClaimIndex → ClaimIndex
add_claims exclude [] idx = idx
add_claims exclude (c ∷ cs) idx =
    add_claims exclude cs (if is_skipped exclude c then idx else add_holder c.spec.pod_name c idx)

unfoldable pub build_pod_claim_index : String → List Claim → ClaimIndex
unfolding add_claims
build_pod_claim_index exclude claims = add_claims exclude claims []

unfoldable pub pod_claimed_by_others : String → String → List Claim → Bool
pod_claimed_by_others name exclude [] = false
pod_claimed_by_others name exclude (c ∷ cs) =
    let rest = pod_claimed_by_others name exclude cs in
    if c.name =s exclude || is_terminating c
    then rest
    else if c.spec.pod_name =s name
    then true
    else rest
