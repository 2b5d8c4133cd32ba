-- ===== src/Claim/State.antt =====
-- The state of a reconciliation of a CNClaim (pkg/controllers/cnclaim), and the calls that it makes of
-- the API server and of HAKeeper. Neither is part of the repository: each answer is a parameter, which
-- may depend on all calls made before.
use matrixone_operator.Base.{ℕ, String, Bool, Option, List, ◌∷◌}
use matrixone_operator.Base.Run.{◌>>=◌, Answer, done, M, answer}
use matrixone_operator.Api.Claim.{CnLabel, WorkState, CnService, ClaimSpec, ClaimStatus, Claim}
use matrixone_operator.Api.Pod.{Pod}
use matrixone_operator.Base.Map.{Map}
use matrixone_operator.Api.Sets.{CnSet, Pool}
use matrixone_operator.Common.Owner.{OwnerKind}
use matrixone_operator.Common.Score.{Json}

-- logpb.CNStateLabel. No labels is not the same as the empty map of labels.
pub record StateLabel : Type 0 where
  pub uuid : String
  pub state : WorkState
  pub labels : Option (List CnLabel)

pub data Call : Type 0 where
  list_pods list_claims list_pools : Call
  get_pod : String → Call
  get_owner : OwnerKind → String → Call
  get_log_set : String → Call
  update_pod patch_pod : Pod → Call
  update_claim patch_claim update_status patch_status : Claim → Call
  patch_store : StateLabel → Call
  clear_labels : String → Call

-- `calls` holds the latest call first.
pub record ClaimState : Type 0 where
  pub claim : Claim
  pub calls : List Call

-- What HAKeeper answers to a patch.
pub data Patched : Type 0 where
  patched : Patched
  -- the text of the error contains "does not exist"
  absent : Patched
  rejected : Patched

-- What the environment answers, given the calls made so far. A write answers with the object as the
-- server returns it, which replaces the one in memory.
pub record Server : Type 0 where
  -- the pods of the namespace whose labels pass a test
  pub pods : List Call → (Map → Bool) → Answer (List Pod)
  pub claims : List Call → Answer (List Claim)
  pub pools : List Call → Answer (List Pool)
  pub pod : List Call → String → Answer Pod
  pub cn_set : List Call → String → Answer CnSet
  -- a set of another kind: whether it is there
  pub other_owner : List Call → OwnerKind → String → Answer (Unit {0})
  -- the LogSet; it stands for the HAKeeper client that its name selects
  pub log_set : List Call → String → Answer (Unit {0})
  -- whether the client manager has a client for the LogSet
  pub has_client : List Call → String → Bool
  pub write_pod : List Call → Pod → Answer Pod
  pub write_claim : List Call → Claim → Answer Claim
  pub store : List Call → StateLabel → Patched
  pub stores_cached : List Call → String → Option CnService
  pub labels_cleared : List Call → String → Answer (Unit {0})
  -- the clock, in seconds and as RFC 3339 text
  pub now : List Call → ℕ
  pub now_text : List Call → String
  pub json : Json
  -- v1alpha1.GetCNPodUUID
  pub pod_uuid : Pod → String

abbrev pub called : Call → ClaimState → ClaimState
called c s = record s { calls = c ∷ s.calls }

-- A call: it is recorded, and an error of the server ends the run.
abbrev pub perform {ℓ} : {A : Type ℓ} → Call → Answer A → M ClaimState A
perform c a s = answer a (called c s)

abbrev pub set_claim : Claim → M ClaimState (Unit {0})
set_claim c s = done tt (record s { claim = c })

abbrev pub set_status : ClaimStatus → M ClaimState (Unit {0})
set_status st s = done tt (record s { claim = record s.claim { status = st } })

abbrev pub set_spec : ClaimSpec → M ClaimState (Unit {0})
set_spec sp s = done tt (record s { claim = record s.claim { spec = sp } })

abbrev pub get_state : M ClaimState ClaimState
get_state s = done s s

-- A write of the claim: the claim in memory is the one sent, also where the server refuses it, and
-- then the one that the server returns.
abbrev pub send_claim : Server → (Claim → Call) → Claim → M ClaimState (Unit {0})
send_claim k call sent = λ s.
    (do
      c ← λ t. perform (call sent) (k.write_claim t.calls sent) (record t { claim = sent })
      set_claim c)
      s
