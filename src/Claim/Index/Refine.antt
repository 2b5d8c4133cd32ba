-- ===== src/Claim/Index/Refine.antt =====
-- The index of the claimed pods refines the search through all claims.
use matrixone_operator.Base.{
  ◌=s◌, if◌then◌else◌, =s_iff, keep_if, String, ◌≡◌, sym, Bool, not, ◌&&◌, List, [], ◌∷◌, ◌++◌,
  arith,
}
use matrixone_operator.Api.Claim.{Claim, is_terminating}
use mathlib.Core.List.{append_assoc, append-nil}
use matrixone_operator.Claim.Index.{
  ClaimIndex, holders, add_holder, is_skipped, add_claims, build_pod_claim_index,
}

-- Whether a claim other than `exclude`, which is not being deleted, refers to the pod.
unfoldable pub is_other_holder : String → String → Claim → Bool
is_other_holder exclude name c =
    not (c.name =s exclude)
    && not (is_terminating c)
    && not (c.spec.pod_name =s "")
    && c.spec.pod_name =s name

-- All claims that hold a pod beside `exclude`.
unfoldable pub other_holders : String → String → List Claim → List Claim
other_holders exclude name cs = keep_if (is_other_holder exclude name) cs

holders-add_holder :
    (name pod : String) (c : Claim) (idx : ClaimIndex)
    → holders name (add_holder pod c idx)
      ≡ (if pod =s name then holders name idx ++ c ∷ [] else holders name idx)
unfolding holders add_holder
holders-add_holder name pod c [] = ground (arith, =s_iff pod name)
holders-add_holder name pod c ((n, cs) ∷ idx) =
    ground (arith, =s_iff pod name, =s_iff n name, =s_iff n pod, holders-add_holder name pod c idx)

holders-add_claims :
    (exclude name : String) (cs : List Claim) (idx : ClaimIndex)
    → holders name (add_claims exclude cs idx) ≡ holders name idx ++ other_holders exclude name cs
unfolding add_claims other_holders is_other_holder is_skipped
holders-add_claims exclude name [] idx = sym (append-nil (holders name idx))
holders-add_claims exclude name (c ∷ cs) idx = ground (
  arith,
  holders-add_claims exclude name cs idx,
  holders-add_claims exclude name cs (add_holder c.spec.pod_name c idx),
  holders-add_holder name c.spec.pod_name c idx,
  append_assoc (holders name idx) (c ∷ []) (other_holders exclude name cs),
)

-- The index that buildPodClaimIndex builds in one pass gives for each pod name exactly the claims,
-- in the order of the list, that are not the excluded one, are not being deleted and refer to a
-- pod of that name; for the empty name it gives none.
pub holders-build_pod_claim_index :
    (exclude name : String) (cs : List Claim)
    → holders name (build_pod_claim_index exclude cs) ≡ other_holders exclude name cs
unfolding build_pod_claim_index holders
holders-build_pod_claim_index exclude name cs = holders-add_claims exclude name cs []
