-- ===== src/Claim/Requests.antt =====
-- Which claims a pod's event wakes: indexClaimByPodName, requestsForPod and containsRequest of
-- pkg/controllers/cnclaim/controller.go. A request is the name of a claim of the pod's namespace.
pub mod Cover
use matrixone_operator.Base.{
  ◌=s◌, if◌then◌else◌, keep_if, String, Bool, false, ◌||◌, Option, none, some, List, [], ◌∷◌, ◌++◌,
}
use matrixone_operator.Base.Map.{lookup}
use matrixone_operator.Api.Keys.{pod_claimed_by_label}
use matrixone_operator.Api.Claim.{Claim}
use matrixone_operator.Api.Pod.{Pod}

unfoldable pub index_claim_by_pod_name : Claim → List String
index_claim_by_pod_name c = if c.spec.pod_name =s "" then [] else c.spec.pod_name ∷ []

unfoldable pub contains_request : List String → String → Bool
contains_request [] r = false
contains_request (q ∷ qs) r = q =s r || contains_request qs r

-- Whether the field index answers a claim for a pod's name.
unfoldable pub is_indexed : String → Claim → Bool
is_indexed name c = contains_request (index_claim_by_pod_name c) name

add_requests : List Claim → List String → List String
add_requests [] rs = rs
add_requests (c ∷ cs) rs =
    add_requests cs (if contains_request rs c.name then rs else rs ++ c.name ∷ [])

claimed_request : Option String → List String
claimed_request none = []
claimed_request (some name) = if name =s "" then [] else name ∷ []

-- `none`: the list of claims was refused. The list is answered by the field index.
unfoldable pub requests_for_pod : Option (List Claim) → Pod → List String
unfolding add_requests claimed_request
requests_for_pod none p = claimed_request (lookup pod_claimed_by_label p.labels)
requests_for_pod (some claims) p =
    add_requests (keep_if (is_indexed p.name) claims)
      (claimed_request (lookup pod_claimed_by_label p.labels))
