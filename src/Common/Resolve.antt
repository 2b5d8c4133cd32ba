-- ===== src/Common/Resolve.antt =====
-- ResolveCNSet and ResolveLogSet of pkg/controllers/common/cnstore.go, given the reads of the API
-- server.
use matrixone_operator.Base.{String, Option, none, some, List}
use matrixone_operator.Base.Map.{Map}
use matrixone_operator.Base.Run.{failed, M, ◌>>=◌, ◌>>◌, pure, throw}
use matrixone_operator.Api.Sets.{CnSet}
use matrixone_operator.Base.Trace.{Only, Only-bind, Only-then, Only-fail, same}
use matrixone_operator.Common.Owner.{OwnerKind, cn_set, dn_set, log_set, proxy_set, owner_ref}

module _ {S : Type 0} (read_set : String → M S CnSet)
    (read_other : OwnerKind → String → M S (Unit {0})) where
  -- A set of another kind is read, and is then no CNSet.
  get_owner_set : Option (OwnerKind × String) → M S CnSet
  get_owner_set none = throw failed
  get_owner_set (some (cn_set, name)) = read_set name
  get_owner_set (some (dn_set, name)) = do read_other dn_set name; throw failed
  get_owner_set (some (log_set, name)) = do read_other log_set name; throw failed
  get_owner_set (some (proxy_set, name)) = do read_other proxy_set name; throw failed

  unfoldable pub resolve_cn_set : Map → M S CnSet
  unfolding get_owner_set
  resolve_cn_set labels = get_owner_set (owner_ref labels)

module _ {S : Type 0} {A : Type 0} (read_log_set : String → M S A) where
  get_dependency : Option String → M S (String × A)
  get_dependency none = throw failed
  get_dependency (some name) = do ls ← read_log_set name; pure (name, ls)

  -- The LogSet with its name.
  unfoldable pub resolve_log_set : CnSet → M S (String × A)
  unfolding get_dependency
  resolve_log_set cs = get_dependency cs.log_set

module _ {S : Type 0} {C : Type 0} (calls : S → List C) (I : S → Type 0) (P : C → Type 0) where
  pub resolve_cn_set-Only :
      (read_set : String → M S CnSet) (read_other : OwnerKind → String → M S (Unit {0}))
      (labels : Map)
      → ((name : String) → Only calls I P (read_set name))
      → ((kind : OwnerKind) (name : String) → Only calls I P (read_other kind name))
      → Only calls I P (resolve_cn_set read_set read_other labels)
  unfolding resolve_cn_set get_owner_set
  resolve_cn_set-Only read_set read_other labels f g =
      elim (owner_ref labels) as (λ o. Only calls I P (get_owner_set read_set read_other o)) [
        | none ↦ Only-fail calls I P CnSet failed
        | some (cn_set, name) ↦ f name
        | some (dn_set, name) ↦
            Only-then calls I P _ _ (g dn_set name) (Only-fail calls I P CnSet failed)
        | some (log_set, name) ↦
            Only-then calls I P _ _ (g log_set name) (Only-fail calls I P CnSet failed)
        | some (proxy_set, name) ↦
            Only-then calls I P _ _ (g proxy_set name) (Only-fail calls I P CnSet failed)
      ]

  pub resolve_log_set-Only :
      {A : Type 0} (read_log_set : String → M S A) (cs : CnSet)
      → ((name : String) → Only calls I P (read_log_set name))
      → Only calls I P (resolve_log_set read_log_set cs)
  unfolding resolve_log_set get_dependency
  resolve_log_set-Only {A} read_log_set cs f =
      elim cs.log_set as (λ o. Only calls I P (get_dependency read_log_set o)) [
        | none ↦ Only-fail calls I P (String × A) failed
        | some name ↦ Only-bind calls I P _ _ (f name) (λ x s i. (i, same))
      ]
