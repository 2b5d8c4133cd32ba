-- ===== src/Claim/Labels/Handover.antt =====
-- A pod that one claim hands over to another carries the labels of the other.
use matrixone_operator.Base.{
  ◌=s◌, if◌then◌else◌, =s_iff, =s_refl, Bool-cases, Option-cases, String, ◌≡◌, refl, sym, ap, ◌∙◌,
  subst, inl, inr, false, Option, none, some, [], ◌∷◌, arith,
}
use matrixone_operator.Base.Map.{
  Map, lookup, get, insert, insert_all, delete_all, lookup-insert, lookup-insert_all,
  lookup-delete_all,
}
use matrixone_operator.Api.Keys.{
  pod_claimed_by_label, cn_pod_phase_label, pod_owner_name_label, claim_set_name_label,
}
use matrixone_operator.Api.Claim.{Claim}
use matrixone_operator.Claim.Labels.{own_labels, transfer_labels, insert_some}
use matrixone_operator.Claim.Labels.Writes.{
  bound, bound_lem, insert_or_delete_lem, insert_some_or_delete_lem, insert_some_or_delete_other,
  insert_some_other, insert_unless_empty_lem, insert_unless_empty_other, own_key, replaced,
  transfer_key, with_set, with_set_only,
}

-- A loop of writes depends on the map only key by key.
insert_all-ext :
    (src m n : Map) (j : String)
    → lookup j m ≡ lookup j n
    → lookup j (insert_all src m) ≡ lookup j (insert_all src n)
unfolding insert_all
insert_all-ext [] m n j h = h
insert_all-ext ((k, v) ∷ src) m n j h =
    insert_all-ext src (insert k v m) (insert k v n) j
      (ground (arith, lookup-insert k j v m, lookup-insert k j v n))

-- What a pod must look like for a clean handover: it carries none of the labels that the claim `from`
-- writes, and the claim `to` adds no label of its own under a managed key.
pub record IsClean (from to : Claim) (m : Map) : Type 0 where
  pub no_set : lookup claim_set_name_label m ≡ none
  pub no_owner : lookup pod_owner_name_label m ≡ none
  pub adds_no_set : lookup claim_set_name_label to.spec.additional_pod_labels ≡ none
  pub adds_no_owner : lookup pod_owner_name_label to.spec.additional_pod_labels ≡ none
  pub lacks_added :
      (j v : String) → lookup j from.spec.additional_pod_labels ≡ some v → lookup j m ≡ none

-- The labels that no claim manages.
stripped_key :
    (from to : Claim) (m : Map) (j : String)
    → ((i v : String) → lookup i from.spec.additional_pod_labels ≡ some v → lookup i m ≡ none)
    → (pod_owner_name_label =s j) ≡ false
    → (claim_set_name_label =s j) ≡ false
    → (pod_claimed_by_label =s j) ≡ false
    → (cn_pod_phase_label =s j) ≡ false
    → lookup j (delete_all from.spec.additional_pod_labels (own_labels from m)) ≡ lookup j m
stripped_key from to m j lacks e f g h =
    elim (Option-cases (lookup j from.spec.additional_pod_labels)) [
      | inl absent ↦ ground (
        arith,
        lookup-delete_all from.spec.additional_pod_labels j (own_labels from m),
        own_key from m j e f,
        bound_lem from (insert_all from.spec.additional_pod_labels m) j,
        lookup-insert_all from.spec.additional_pod_labels j m absent,
      )
      | inr (v, there) ↦ ground (
        arith,
        lookup-delete_all from.spec.additional_pod_labels j (own_labels from m),
        lacks j v there,
      )
    ]

insert_some_same :
    (k : String) (v : Option String) (m : Map)
    → lookup k m ≡ none
    → lookup k (insert_some k v m) ≡ v
unfolding insert_some
insert_some_same k none m h = h
insert_some_same k (some w) m h = ground (arith, lookup-insert k k w m, =s_refl k)

-- The labels of the claim `to` on a pod that carried none of its keys.
abbrev added : Claim → Map → Map
added c m = bound c (insert_all c.spec.additional_pod_labels m)

owner_key_after :
    (from to : Claim) (m : Map)
    → IsClean from to m
    → lookup pod_owner_name_label (transfer_labels from to (own_labels from m))
      ≡ lookup pod_owner_name_label (own_labels to m)
unfolding transfer_labels own_labels
owner_key_after from to m clean =
    insert_some_or_delete_lem pod_owner_name_label to.spec.owner_name pod_owner_name_label
      (with_set_only to (bound to (replaced from to (own_labels from m))))
    ∙ sym (
        insert_some_same pod_owner_name_label to.spec.owner_name (with_set to (added to m)) (
          insert_unless_empty_other claim_set_name_label (get claim_set_name_label to.labels)
            pod_owner_name_label (added to m) refl
          ∙ bound_lem to (insert_all to.spec.additional_pod_labels m) pod_owner_name_label
          ∙ lookup-insert_all to.spec.additional_pod_labels pod_owner_name_label m
              clean.adds_no_owner
          ∙ clean.no_owner))

set_key_after :
    (from to : Claim) (m : Map)
    → IsClean from to m
    → lookup claim_set_name_label (transfer_labels from to (own_labels from m))
      ≡ lookup claim_set_name_label (own_labels to m)
unfolding transfer_labels own_labels
set_key_after from to m clean =
    insert_some_or_delete_other pod_owner_name_label to.spec.owner_name claim_set_name_label
      (with_set_only to (bound to (replaced from to (own_labels from m)))) refl
    ∙ insert_or_delete_lem claim_set_name_label (get claim_set_name_label to.labels)
        claim_set_name_label (bound to (replaced from to (own_labels from m)))
    ∙ same_set
    ∙ sym (
        insert_some_other pod_owner_name_label to.spec.owner_name claim_set_name_label
          (with_set to (added to m)) refl
        ∙ insert_unless_empty_lem claim_set_name_label (get claim_set_name_label to.labels)
            claim_set_name_label (added to m))
  where
    no_set_before : lookup claim_set_name_label (added to m) ≡ none
    no_set_before =
        bound_lem to (insert_all to.spec.additional_pod_labels m) claim_set_name_label
        ∙ lookup-insert_all to.spec.additional_pod_labels claim_set_name_label m clean.adds_no_set
        ∙ clean.no_set

    same_set :
        Path
          (Option String)
          (if get claim_set_name_label to.labels =s ""
            then none
            else some (get claim_set_name_label to.labels))
          (if get claim_set_name_label to.labels =s ""
            then lookup claim_set_name_label (added to m)
            else some (get claim_set_name_label to.labels))
    same_set =
        ap
          (λ o.
            if get claim_set_name_label to.labels =s ""
            then o
            else some (get claim_set_name_label to.labels))
          (sym no_set_before)

other_key_after :
    (from to : Claim) (m : Map) (j : String)
    → IsClean from to m
    → (pod_owner_name_label =s j) ≡ false
    → (claim_set_name_label =s j) ≡ false
    → lookup j (transfer_labels from to (own_labels from m)) ≡ lookup j (own_labels to m)
other_key_after from to m j clean e f =
    transfer_key from to (own_labels from m) j e f
    ∙ bound_lem to (replaced from to (own_labels from m)) j
    ∙ elim (Bool-cases (pod_claimed_by_label =s j)) [
      | inl g ↦
          ground
            (arith, own_key to m j e f, bound_lem to (insert_all to.spec.additional_pod_labels m) j)
      | inr g ↦ elim (Bool-cases (cn_pod_phase_label =s j)) [
        | inl h ↦
            ground (
              arith,
              own_key to m j e f,
              bound_lem to (insert_all to.spec.additional_pod_labels m) j,
            )
        | inr h ↦ ground (
          arith,
          own_key to m j e f,
          bound_lem to (insert_all to.spec.additional_pod_labels m) j,
          insert_all-ext to.spec.additional_pod_labels
              (delete_all from.spec.additional_pod_labels (own_labels from m)) m j
              (stripped_key from to m j clean.lacks_added e f g h),
        )
      ]
    ]

-- A pod that was clean, was labelled by the claim `from` and was then transferred to the claim
-- `to` has the same value under every label key as if `to` had labelled it at once. Clean is: no
-- claim-set or owner label, no key of the additional labels of `from`; and `to` adds no claim-set
-- or owner label of its own.
pub transfer_labels-own_labels :
    (from to : Claim) (m : Map) (j : String)
    → IsClean from to m
    → lookup j (transfer_labels from to (own_labels from m)) ≡ lookup j (own_labels to m)
transfer_labels-own_labels from to m j clean = elim (Bool-cases (pod_owner_name_label =s j)) [
  | inl e ↦
      subst
        (λ i. lookup i (transfer_labels from to (own_labels from m)) ≡ lookup i (own_labels to m))
        ((=s_iff pod_owner_name_label j).0 e) (owner_key_after from to m clean)
  | inr e ↦ elim (Bool-cases (claim_set_name_label =s j)) [
    | inl f ↦
        subst
          (λ i. lookup i (transfer_labels from to (own_labels from m)) ≡ lookup i (own_labels to m))
          ((=s_iff claim_set_name_label j).0 f) (set_key_after from to m clean)
    | inr f ↦ other_key_after from to m j clean e f
  ]
]
