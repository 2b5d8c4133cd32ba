-- ===== src/Claim/Labels/Writes.antt =====
-- The label writes of a claim, key by key.
use matrixone_operator.Base.{
  ◌=s◌, if◌then◌else◌, String, ◌≡◌, refl, ◌∙◌, false, Option, none, some, arith,
}
use matrixone_operator.Base.Map.{
  Map, lookup, get, insert, insert_all, delete_all, lookup-insert, lookup-delete,
}
use matrixone_operator.Api.Keys.{
  phase_bound, pod_claimed_by_label, cn_pod_phase_label, pod_owner_name_label, claim_set_name_label,
}
use matrixone_operator.Api.Claim.{Claim}
use matrixone_operator.Claim.Labels.{
  own_labels, transfer_labels, insert_unless_empty, insert_some, insert_or_delete,
  insert_some_or_delete,
}

pub insert_unless_empty_lem :
    (k v j : String) (m : Map)
    → lookup j (insert_unless_empty k v m)
      ≡ (if v =s "" then lookup j m else if k =s j then some v else lookup j m)
unfolding insert_unless_empty
insert_unless_empty_lem k v j m = ground (arith, lookup-insert k j v m)

pub insert_or_delete_lem :
    (k v j : String) (m : Map)
    → lookup j (insert_or_delete k v m)
      ≡ (if k =s j then (if v =s "" then none else some v) else lookup j m)
unfolding insert_or_delete
insert_or_delete_lem k v j m = ground (arith, lookup-insert k j v m, lookup-delete k j m)

-- A write to another key.
pub insert_other :
    (k v j : String) (m : Map) → (k =s j) ≡ false → lookup j (insert k v m) ≡ lookup j m
insert_other k v j m e = ground (arith, lookup-insert k j v m)

pub insert_unless_empty_other :
    (k v j : String) (m : Map)
    → (k =s j) ≡ false
    → lookup j (insert_unless_empty k v m) ≡ lookup j m
insert_unless_empty_other k v j m e = ground (arith, insert_unless_empty_lem k v j m)

pub insert_some_other :
    (k : String) (v : Option String) (j : String) (m : Map)
    → (k =s j) ≡ false
    → lookup j (insert_some k v m) ≡ lookup j m
unfolding insert_some
insert_some_other k none j m e = refl
insert_some_other k (some w) j m e = insert_other k w j m e

pub insert_some_or_delete_lem :
    (k : String) (v : Option String) (j : String) (m : Map)
    → lookup j (insert_some_or_delete k v m) ≡ (if k =s j then v else lookup j m)
unfolding insert_some_or_delete
insert_some_or_delete_lem k none j m = lookup-delete k j m
insert_some_or_delete_lem k (some w) j m = lookup-insert k j w m

pub insert_some_or_delete_other :
    (k : String) (v : Option String) (j : String) (m : Map)
    → (k =s j) ≡ false
    → lookup j (insert_some_or_delete k v m) ≡ lookup j m
insert_some_or_delete_other k v j m e = ground (arith, insert_some_or_delete_lem k v j m)

insert_or_delete_other :
    (k v j : String) (m : Map) → (k =s j) ≡ false → lookup j (insert_or_delete k v m) ≡ lookup j m
insert_or_delete_other k v j m e = ground (arith, insert_or_delete_lem k v j m)

-- Labels under which a pod is bound to the claim of this name.
abbrev pub IsBoundTo : String → Map → Type 0
IsBoundTo name m =
    (lookup cn_pod_phase_label m ≡ some phase_bound) × (lookup pod_claimed_by_label m ≡ some name)

-- The writes that ensureOwnership makes after those of the additional labels.
abbrev pub bound : Claim → Map → Map
bound c m = insert pod_claimed_by_label c.name (insert cn_pod_phase_label phase_bound m)

abbrev pub with_set : Claim → Map → Map
with_set c m = insert_unless_empty claim_set_name_label (get claim_set_name_label c.labels) m

abbrev pub with_set_only : Claim → Map → Map
with_set_only c m = insert_or_delete claim_set_name_label (get claim_set_name_label c.labels) m

pub bound_lem :
    (c : Claim) (m : Map) (j : String)
    → lookup j (bound c m) ≡ (
        if pod_claimed_by_label =s j
        then some c.name
        else if cn_pod_phase_label =s j
        then some phase_bound
        else lookup j m)
bound_lem c m j = ground (
  arith,
  lookup-insert pod_claimed_by_label j c.name (insert cn_pod_phase_label phase_bound m),
  lookup-insert cn_pod_phase_label j phase_bound m,
)

-- A key that is neither the claim set's nor the owner's.
pub own_key :
    (c : Claim) (m : Map) (j : String)
    → (pod_owner_name_label =s j) ≡ false
    → (claim_set_name_label =s j) ≡ false
    → lookup j (own_labels c m) ≡ lookup j (bound c (insert_all c.spec.additional_pod_labels m))
unfolding own_labels
own_key c m j e f =
    insert_some_other pod_owner_name_label c.spec.owner_name j
      (with_set c (bound c (insert_all c.spec.additional_pod_labels m))) e
    ∙ insert_unless_empty_other claim_set_name_label (get claim_set_name_label c.labels) j
        (bound c (insert_all c.spec.additional_pod_labels m)) f

abbrev pub replaced : Claim → Claim → Map → Map
replaced from to m =
    insert_all to.spec.additional_pod_labels (delete_all from.spec.additional_pod_labels m)

pub transfer_key :
    (from to : Claim) (m : Map) (j : String)
    → (pod_owner_name_label =s j) ≡ false
    → (claim_set_name_label =s j) ≡ false
    → lookup j (transfer_labels from to m) ≡ lookup j (bound to (replaced from to m))
unfolding transfer_labels
transfer_key from to m j e f =
    insert_some_or_delete_other pod_owner_name_label to.spec.owner_name j
      (with_set_only to (bound to (replaced from to m))) e
    ∙ insert_or_delete_other claim_set_name_label (get claim_set_name_label to.labels) j
        (bound to (replaced from to m)) f

pub own_labels-IsBoundTo : (c : Claim) (m : Map) → IsBoundTo c.name (own_labels c m)
own_labels-IsBoundTo c m = (
  own_key c m cn_pod_phase_label refl refl ∙ bound_lem c _ cn_pod_phase_label,
  own_key c m pod_claimed_by_label refl refl ∙ bound_lem c _ pod_claimed_by_label,
)

pub transfer_labels-IsBoundTo :
    (from to : Claim) (m : Map) → IsBoundTo to.name (transfer_labels from to m)
transfer_labels-IsBoundTo from to m = (
  transfer_key from to m cn_pod_phase_label refl refl ∙ bound_lem to _ cn_pod_phase_label,
  transfer_key from to m pod_claimed_by_label refl refl ∙ bound_lem to _ pod_claimed_by_label,
)
