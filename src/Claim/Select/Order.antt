-- ===== src/Claim/Select/Order.antt =====
-- The order in which the idle pods are tried.
use matrixone_operator.Base.{
  ◌==◌, ◌=s◌, if◌then◌else◌, Option-cases, All, ℕ, ◌%◌, ◌≤◌, ◌≡◌, refl, ap, inl, inr, Bool, true,
  false, not, none, some, List, [], ◌∷◌, arith,
}
use matrixone_operator.Base.Map.{get}
use matrixone_operator.Api.Keys.{pod_last_owner_label}
use matrixone_operator.Base.Int.{
  ℤ, sub_ℕ, is_neg, is_pos, or_else, AtMost, IsOrder, sub_ℕ-IsOrder, or_else-IsOrder,
  SameSign-IsOrder,
}
use matrixone_operator.Api.Claim.{Claim}
use matrixone_operator.Api.Pod.{Pod}
use mathlib.Core.List.{Perm}
use matrixone_operator.Base.Sort.{sort, IsSorted, sort-IsSorted, sort-perm}
use matrixone_operator.Claim.Select.{previously_owned, second_of, priority, rank_of_owner}

-- The pod carries the owner of the claim as its last owner.
unfoldable pub was_owned : Claim → Pod → Bool
was_owned c p = elim c.spec.owner_name [
  | none ↦ false
  | some owner ↦ get pod_last_owner_label p.labels =s owner
]

-- `b` may not stand before `a`.
abbrev pub MayPrecede : Claim → Pod → Pod → Type 0
MayPrecede c a b =
    (was_owned c b ≡ true → was_owned c a ≡ true)
    × (was_owned c a ≡ was_owned c b → a.created % 60 ≤ b.created % 60)

-- Of any two pods of a list, the first may precede the second.
abbrev pub InOrder : Claim → List Pod → Type 0
InOrder c [] = Unit {0}
InOrder c (p ∷ ps) = All (λ q. MayPrecede c p q) ps × InOrder c ps

unequal_first : (x y : ℕ) (d : ℤ) → (if not (x == y) then sub_ℕ x y else d) ≡ or_else (sub_ℕ x y) d
unequal_first x y d = ground arith

pub priority-IsOrder : (c : Claim) → IsOrder (priority c)
unfolding priority
priority-IsOrder c =
    SameSign-IsOrder (priority c)
      (λ a b.
        or_else (sub_ℕ (previously_owned c a) (previously_owned c b))
          (sub_ℕ (second_of a.created) (second_of b.created)))
      (λ a b. (ap is_neg (by_rank a b), ap is_pos (by_rank a b)))
      (or_else-IsOrder (sub_ℕ-IsOrder (previously_owned c))
        (sub_ℕ-IsOrder (λ p. second_of p.created)))
  where
    by_rank :
        (a b : Pod)
        → priority c a b
          ≡ or_else
              (sub_ℕ (previously_owned c a) (previously_owned c b))
              (sub_ℕ (second_of a.created) (second_of b.created))
    by_rank a b = unequal_first (previously_owned c a) (previously_owned c b) _

rank_was_owned : (c : Claim) (p : Pod) → previously_owned c p ≡ (if was_owned c p then 0 else 1)
unfolding previously_owned rank_of_owner was_owned
rank_was_owned c p = elim (Option-cases c.spec.owner_name) [
  | inl e ↦ rw e refl
  | inr (owner, e) ↦ rw e refl
]

may_precede : (c : Claim) (a b : Pod) → AtMost (priority c a b) → MayPrecede c a b
unfolding priority second_of
may_precede c a b h = (
  λ o. ground (arith, h, o, rank_was_owned c a, rank_was_owned c b),
  λ e. ground (arith, h, e, rank_was_owned c a, rank_was_owned c b),
)

All-follow :
    (c : Claim) (p : Pod) (ps : List Pod)
    → All (λ q. AtMost (priority c p q)) ps
    → All (λ q. MayPrecede c p q) ps
All-follow c p [] h = tt
All-follow c p (q ∷ ps) h = (may_precede c p q h.0, All-follow c p ps h.1)

sorted-InOrder : (c : Claim) (ps : List Pod) → IsSorted (priority c) ps → InOrder c ps
sorted-InOrder c [] h = tt
sorted-InOrder c (p ∷ ps) h = (All-follow c p ps h.0, sorted-InOrder c ps h.1)

-- The idle pods are tried in an order in which the pods that the claim's owner had before come
-- first and, among equals, the creation times ascend by their second within the minute; the order
-- has the same pods as the list.
pub sort-InOrder :
    (c : Claim) (ps : List Pod) → InOrder c (sort (priority c) ps) × Perm (sort (priority c) ps) ps
sort-InOrder c ps = (
  sorted-InOrder c (sort (priority c) ps) (sort-IsSorted (priority-IsOrder c) ps),
  sort-perm (priority c) ps,
)
