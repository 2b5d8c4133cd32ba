-- ===== src/ClaimSet/Scale/In.antt =====
-- scaleIn: which claims it deletes, and which it keeps.
use matrixone_operator.Base.{
  leb, Bool-cases, length, take, drop, keep_if, take-append-drop, length-take, All, ℕ, zero, suc,
  ◌≤◌, min, ◌≡◌, refl, ap, ◌∙◌, subst, inl, inr, not, List, [], ◌∷◌, ◌++◌, map, arith,
}
use matrixone_operator.Base.Run.{Ends, Ends-bind, Ends-map}
use matrixone_operator.Api.Claim.{Claim}
use matrixone_operator.Base.Trace.{◌⊑◌, same, more, Extends-trans}
use matrixone_operator.Base.Int.{AtMost}
use mathlib.Core.List.{Perm, reverse}
use mathlib.Core.List.Perm
use matrixone_operator.Base.Sort.{
  length-sort, All-sort, IsSorted-take-drop, sort-perm, sort-IsSorted,
}
use matrixone_operator.ClaimSet.Order.{ClaimAndPod, claim_deletion_order}
use matrixone_operator.ClaimSet.Order.Contract.{claim_deletion_order-IsOrder}
use matrixone_operator.ClaimSet.State.{delete_claim, SetState, Server, called, tolerant-Ends}
use matrixone_operator.ClaimSet.Scale.{
  is_migrating, collect, delete_claims, delete_first, deletion_queue, scale_in,
}
use matrixone_operator.ClaimSet.Scale.Read.{
  deletions, Reads, deletions_push, IsPodOf, IsPodOf-later, Parts, collect-Parts,
}

module _ (k : Server) where
  -- The loop of the deletions: on success all are deleted, in order; on an error nothing but the
  -- calls has changed either.
  delete_claims-deletions :
      (cps : List ClaimAndPod) (s : SetState)
      → Ends
          (λ _ t.
            (t ≡ record s { calls = t.calls })
            × (s.calls ⊑ t.calls)
            × (deletions t.calls ≡ reverse (map (λ c. c.claim) cps) ++ deletions s.calls))
          (λ e t. t ≡ record s { calls = t.calls })
          (delete_claims k cps s)
  unfolding delete_claims
  delete_claims-deletions [] s = (refl, same, refl)
  delete_claims-deletions (c ∷ cps) s =
      tolerant-Ends _ _ (delete_claim c.claim) s (k.delete s.calls c.claim) (delete_claims k cps)
        (Ends-map _ _ _ _ (delete_claims k cps (called (delete_claim c.claim) s))
          (λ _ u p. (p.0, Extends-trans (more _ _ tt same) p.1, p.2 ∙ deletions_push c cps s))
          (λ _ u q. ground arith) (delete_claims-deletions cps (called (delete_claim c.claim) s)))
        (λ e. refl)

-- Where all is taken, nothing is left to compare with.
All-nothing_left :
    (xs ys : List ClaimAndPod)
    → ys ≡ []
    → All (λ g. All (λ x. AtMost (claim_deletion_order g x)) ys) xs
All-nothing_left [] ys e = tt
All-nothing_left (x ∷ xs) ys e = (rw e tt, All-nothing_left xs ys e)

drop_all : (n : ℕ) (xs : List ClaimAndPod) → length xs ≤ n → drop n xs ≡ []
drop_all zero [] h = refl
drop_all (suc n) [] h = refl
drop_all zero (x ∷ xs) h = absurd (omega arith)
drop_all (suc n) (x ∷ xs) h = drop_all n xs (omega arith)

deletion_queue-perm : (count : ℕ) (cps : List ClaimAndPod) → Perm (deletion_queue count cps) cps
unfolding deletion_queue
deletion_queue-perm count cps = elim (Bool-cases (leb (length cps) count)) [
  | inl all ↦ rw all Perm.rfl
  | inr some_left ↦ rw some_left (sort-perm claim_deletion_order cps)
]

length-deletion_queue :
    (count : ℕ) (cps : List ClaimAndPod) → length (deletion_queue count cps) ≡ length cps
unfolding deletion_queue
length-deletion_queue count cps = ground (arith, length-sort claim_deletion_order cps)

deletion_queue_ranked :
    (count : ℕ) (cps : List ClaimAndPod)
    → let queue = deletion_queue count cps in
      let number = min count (length cps) in
      All
        (λ g. All (λ x. AtMost (claim_deletion_order g x)) (drop number queue))
        (take number queue)
unfolding deletion_queue
deletion_queue_ranked count cps = elim (Bool-cases (leb (length cps) count)) [
  | inl all ↦ rw all (
      All-nothing_left (take (min count (length cps)) cps) _
        (drop_all (min count (length cps)) cps (ground arith)))
  | inr some_left ↦ rw some_left (
      IsSorted-take-drop claim_deletion_order (min count (length cps)) _
        (sort-IsSorted claim_deletion_order-IsOrder cps))
]

queue_keeps :
    (P : ClaimAndPod → Type 0) (count : ℕ) (cps : List ClaimAndPod)
    → All P cps
    → All P (deletion_queue count cps)
unfolding deletion_queue
queue_keeps P count cps h = elim (Bool-cases (leb (length cps) count)) [
  | inl all ↦ rw all h
  | inr some_left ↦ rw some_left (All-sort P claim_deletion_order cps h)
]

-- What a scale-in by `count` has done: the claims that are gone and those that stay.
pub record ScaledIn (k : Server) (count : ℕ) (s t : SetState) : Type 0 where
  pub gone : List ClaimAndPod
  pub stay : List ClaimAndPod
  pub deleted : deletions t.calls ≡ reverse (map (λ c. c.claim) gone) ++ deletions s.calls
  pub owned : t.owned ≡ map (λ c. c.claim) stay ++ keep_if is_migrating s.owned
  pub all : Perm (map (λ c. c.claim) (gone ++ stay)) (keep_if (λ c. not (is_migrating c)) s.owned)
  pub number : length gone ≡ min count (length (gone ++ stay))
  pub ranked : All (λ g. All (λ x. AtMost (claim_deletion_order g x)) stay) gone
  pub lost : t.lost ≡ s.lost
  pub pods : All (IsPodOf k s.calls t.calls) (gone ++ stay)

module _ (k : Server) where
  delete_first-ScaledIn :
      (count : ℕ) (s t : SetState) (parts : List ClaimAndPod × List Claim)
      → Parts k s.calls s.owned parts
      → Reads s t
      → All (IsPodOf k s.calls t.calls) parts.0
      → Ends (λ _ u. ScaledIn k count s u) (λ e u. u.owned ≡ s.owned) (delete_first k count parts t)
  unfolding delete_first
  delete_first-ScaledIn count s t parts h r of_pods =
      Ends-bind _ _ (delete_claims k (take number queue) t) _
        (Ends-map _ _ _ _ (delete_claims k (take number queue) t) (λ _ u p. p)
          (λ e u q. ap (λ x. x.owned) q ∙ r.owned)
          (delete_claims-deletions k (take number queue) t))
        (λ _ u p. record {
          gone = take number queue;
          stay = drop number queue;
          deleted = p.2 ∙ ap (◌++◌ (reverse (map (λ c. c.claim) (take number queue)))) r.deleted;
          owned = ap (◌++◌ (map (λ c. c.claim) (drop number queue))) h.1;
          all = rw (take-append-drop number queue) (
              subst (Perm (map (λ c. c.claim) queue)) h.0
                (Perm.map (λ c. c.claim) (deletion_queue-perm count parts.0)));
          number = omega (
            arith,
            length-take number queue,
            ap (λ l. length l) (take-append-drop number queue),
            length-deletion_queue count parts.0,
          );
          ranked = deletion_queue_ranked count parts.0;
          lost = ap (λ x. x.lost) p.0 ∙ r.lost;
          pods =
              rw (take-append-drop number queue)
                (IsPodOf-later k s.calls queue p.1 (queue_keeps _ count parts.0 of_pods));
        })
    where
      queue : List ClaimAndPod
      queue = deletion_queue count parts.0

      number : ℕ
      number = min count (length parts.0)

  -- scaleIn on success deletes exactly the claims `gone`, in order, and keeps `stay` and every
  -- migrating claim: `gone` and `stay` together are the owned claims that are not migrating, up to
  -- order; `gone` has `count` of them, or all if there are fewer; no claim of `stay` is strictly
  -- before one of `gone` in the deletion order, in which each claim stands with the pod that the
  -- server answered for it in this run, or with none where it names no pod, is Lost or its pod was
  -- not found; the lost claims are unchanged. On an error the owned claims are as they were.
  pub scale_in-ScaledIn :
      (count : ℕ) (s : SetState)
      → Ends (λ _ t. ScaledIn k count s t) (λ e t. t.owned ≡ s.owned) (scale_in k count s)
  unfolding scale_in
  scale_in-ScaledIn count s =
      Ends-bind _ _ (collect k s.owned s) (delete_first k count)
        (Ends-map _ _ _ _ (collect k s.owned s) (λ r t p. p) (λ e t r. r.owned)
          (collect-Parts k s.calls s.owned s same))
        (λ parts t p. delete_first-ScaledIn count s t parts p.0 p.1 p.3)
