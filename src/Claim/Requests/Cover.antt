-- ===== src/Claim/Requests/Cover.antt =====
-- Which claims a pod's event wakes.
use matrixone_operator.Base.{
  ◌=s◌, =s_iff, Bool-cases, keep_if, String, ◌≡◌, refl, ◌∙◌, inl, inr, Bool, true, false, not, ◌&&◌,
  ◌||◌, Option, none, some, List, [], ◌∷◌, ◌++◌, arith,
}
use matrixone_operator.Base.Map.{lookup, get, has}
use matrixone_operator.Api.Keys.{pod_claimed_by_label}
use matrixone_operator.Api.Claim.{Claim}
use matrixone_operator.Api.Pod.{Pod}
use matrixone_operator.Claim.Requests.{
  index_claim_by_pod_name, contains_request, is_indexed, add_requests, claimed_request,
  requests_for_pod,
}

-- Whether a claim refers to the pod of this name.
unfoldable pub refers_to : String → Claim → Bool
refers_to pod c = not (pod =s "") && c.spec.pod_name =s pod

unfoldable pub named_by : String → String → List Claim → Bool
named_by pod name [] = false
named_by pod name (c ∷ cs) =
    let rest = named_by pod name cs in refers_to pod c && c.name =s name || rest

unfoldable pub distinct : List String → Bool
distinct [] = true
distinct (r ∷ rs) = let rest = distinct rs in not (contains_request rs r) && rest

contains-append :
    (rs : List String) (n r : String)
    → contains_request (rs ++ n ∷ []) r ≡ (contains_request rs r || n =s r)
unfolding contains_request
contains-append [] n r = ground arith
contains-append (q ∷ rs) n r = ground (arith, contains-append rs n r)

distinct-append :
    (rs : List String) (n : String)
    → distinct rs ≡ true
    → contains_request rs n ≡ false
    → distinct (rs ++ n ∷ []) ≡ true
unfolding distinct contains_request
distinct-append [] n h k = refl
distinct-append (q ∷ rs) n h k =
    ground (arith, distinct-append rs n, contains-append rs n q, =s_iff n q, =s_iff q n)

is_indexed_lem : (pod : String) (c : Claim) → is_indexed pod c ≡ refers_to pod c
unfolding is_indexed index_claim_by_pod_name refers_to contains_request
is_indexed_lem pod c =
    ground (arith, =s_iff c.spec.pod_name "", =s_iff c.spec.pod_name pod, =s_iff pod "")

contains-add_requests :
    (pod : String) (cs : List Claim) (rs : List String) (r : String)
    → contains_request (add_requests (keep_if (is_indexed pod) cs) rs) r
      ≡ (contains_request rs r || named_by pod r cs)
unfolding add_requests named_by
contains-add_requests pod [] rs r = ground arith
contains-add_requests pod (c ∷ cs) rs r = ground (
  arith,
  is_indexed_lem pod c,
  =s_iff c.name r,
  contains-append rs c.name r,
  contains-add_requests pod cs rs r,
  contains-add_requests pod cs (rs ++ c.name ∷ []) r,
)

distinct-add_requests :
    (cs : List Claim) (rs : List String) → distinct rs ≡ true → distinct (add_requests cs rs) ≡ true
unfolding add_requests
distinct-add_requests [] rs h = h
distinct-add_requests (c ∷ cs) rs h = elim (Bool-cases (contains_request rs c.name)) [
  | inl e ↦ rw e (distinct-add_requests cs rs h)
  | inr e ↦ rw e (distinct-add_requests cs (rs ++ c.name ∷ []) (distinct-append rs c.name h e))
]

claimed_request_lem :
    (o : Option String) (r : String)
    → contains_request (claimed_request o) r
      ≡ (not (r =s "") && elim o [ none ↦ false | some n ↦ n =s r ])
unfolding claimed_request contains_request
claimed_request_lem none r = ground arith
claimed_request_lem (some n) r = ground (arith, =s_iff n "", =s_iff n r, =s_iff r "")

claimed_request-distinct : (o : Option String) → distinct (claimed_request o) ≡ true
unfolding claimed_request distinct contains_request
claimed_request-distinct none = refl
claimed_request-distinct (some n) = ground arith

-- A pod's event wakes the claim `r` exactly if the pod's label names it, `r` not empty, or a claim
-- of that name in the list refers to the pod, the pod's name not empty; and no claim is woken
-- twice.
pub requests_for_pod-cover :
    (claims : List Claim) (p : Pod) (r : String)
    → (contains_request (requests_for_pod (some claims) p) r ≡ (
        not (r =s "") && has pod_claimed_by_label p.labels && get pod_claimed_by_label p.labels =s r
        || named_by p.name r claims))
      × (distinct (requests_for_pod (some claims) p) ≡ true)
unfolding requests_for_pod
requests_for_pod-cover claims p r = (
  contains-add_requests p.name claims (claimed_request (lookup pod_claimed_by_label p.labels)) r
      ∙ first,
  distinct-add_requests (keep_if (is_indexed p.name) claims) _
      (claimed_request-distinct (lookup pod_claimed_by_label p.labels)),
)
  where
    first :
        Path Bool
          (contains_request (claimed_request (lookup pod_claimed_by_label p.labels)) r
            || named_by p.name r claims)
          (not (r =s "")
              && has pod_claimed_by_label p.labels
              && get pod_claimed_by_label p.labels =s r
            || named_by p.name r claims)
    first = ground (arith, claimed_request_lem (lookup pod_claimed_by_label p.labels) r)
