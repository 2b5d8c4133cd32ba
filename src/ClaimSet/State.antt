-- ===== src/ClaimSet/State.antt =====
-- The state of a reconciliation of a CNClaimSet, and the calls of the API server that it makes
-- (pkg/controllers/cnclaimset/controller.go). The server is not part of the repository: each answer
-- is a parameter, which may depend on all calls made before.
use matrixone_operator.Base.{ℕ, String, ◌≡◌, refl, Bool, List, ◌∷◌}
use matrixone_operator.Base.Run.{
  not_found, conflict, refused, Error, api, Answer, ok, err, done, fail, M, ◌>>=◌, ◌>>◌, Ends,
}
use matrixone_operator.Api.Claim.{Claim, ClaimSet}
use matrixone_operator.Api.Pod.{Pod}

pub data Call : Type 0 where
  -- List of the selected claims, from the cache or from the server
  list_cached list_direct : Call
  create_claim : Claim → Call
  delete_claim : Claim → Call
  get_pod : String → Call

-- `calls` holds the latest call first. `drawn` counts the texts drawn from rand.String.
pub record SetState : Type 0 where
  pub set : ClaimSet
  pub owned : List Claim
  pub lost : List Claim
  pub drawn : ℕ
  pub calls : List Call

-- What the environment answers, given the calls made so far.
pub record Server : Type 0 where
  pub claims_cached : List Call → Answer (List Claim)
  pub claims_direct : List Call → Answer (List Claim)
  -- the object as the client leaves it when the server has answered
  pub create : List Call → Claim → Answer Claim
  -- whether the client decodes that answer into the map of labels that the object has, as
  -- encoding/json does
  pub shares_labels : Bool
  pub delete : List Call → Claim → Answer (Unit {0})
  pub pod : List Call → String → Answer Pod
  -- the n-th text of rand.String(LengthOfInstanceID)
  pub sample : ℕ → String

-- A call: it is recorded, and an error of the server ends the run.
abbrev pub perform {ℓ} : {A : Type ℓ} → Call → Answer A → M SetState A
perform c (ok a) s = done a (record s { calls = c ∷ s.calls })
perform c (err e) s = fail (api e) (record s { calls = c ∷ s.calls })

-- A delete that tolerates IsNotFound.
abbrev pub tolerant : Call → Answer (Unit {0}) → M SetState (Unit {0})
tolerant c (ok a) s = done tt (record s { calls = c ∷ s.calls })
tolerant c (err not_found) s = done tt (record s { calls = c ∷ s.calls })
tolerant c (err conflict) s = fail (api conflict) (record s { calls = c ∷ s.calls })
tolerant c (err refused) s = fail (api refused) (record s { calls = c ∷ s.calls })

-- The state after a call.
abbrev pub called : Call → SetState → SetState
called c s = record s { calls = c ∷ s.calls }

-- What follows a call holds if it holds after the call is recorded, for every answer.
module _ {ℓ κ} {A : Type ℓ} {B : Type 0} (Q : B → SetState → Type κ) (E : Error → SetState → Type κ)
    (c : Call) (s : SetState) where
  pub perform-Ends :
      (a : Answer A) (f : A → M SetState B)
      → ((x : A) → a ≡ ok x → Ends Q E (f x (called c s)))
      → ((e : Error) → E e (called c s))
      → Ends Q E ((perform c a >>= f) s)
  perform-Ends (ok x) f good bad = good x refl
  perform-Ends (err e) f good bad = bad (api e)

module _ {κ} {B : Type 0} (Q : B → SetState → Type κ) (E : Error → SetState → Type κ) (c : Call)
    (s : SetState) where
  pub tolerant-Ends :
      (a : Answer (Unit {0})) (m : M SetState B)
      → Ends Q E (m (called c s))
      → ((e : Error) → E e (called c s))
      → Ends Q E ((tolerant c a >> m) s)
  tolerant-Ends (ok x) m good bad = good
  tolerant-Ends (err not_found) m good bad = good
  tolerant-Ends (err conflict) m good bad = bad (api conflict)
  tolerant-Ends (err refused) m good bad = bad (api refused)
