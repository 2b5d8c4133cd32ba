-- ===== src/ClaimSet/Scale/Read.antt =====
-- The first loop of scaleIn: the owned claims with their pods, and those that are migrating.
use matrixone_operator.Base.{
  Option, none, some, ◌=s◌, =s_iff, ◌||◌, ◌⊎◌, true, Bool-cases, keep_if, All, ◌≡◌, refl, sym, ap,
  ◌∙◌, inl, inr, not, List, [], ◌∷◌, ◌++◌, map, arith,
}
use matrixone_operator.Base.Run.{
  not_found, conflict, refused, Answer, ok, err, Run, Ends-ite, Ends, Ends-bind, Ends-map,
}
use matrixone_operator.Api.Claim.{Claim, ClaimPhase, is_lost_phase}
use matrixone_operator.Api.Pod.{Pod}
use matrixone_operator.Base.Trace.{◌⊑◌, same, more, Extends-trans}
use mathlib.Core.List.{reverse, reverse-cons, append_assoc}
use matrixone_operator.ClaimSet.Order.{ClaimAndPod}
use matrixone_operator.ClaimSet.State.{Call, get_pod, delete_claim, SetState, Server}
use matrixone_operator.ClaimSet.Scale.{is_migrating, collect, get_claimed_pod, absent_pod}

-- The claims that a history of calls deletes, the latest first.
abbrev deleted_by : Call → List Claim → List Claim
deleted_by (delete_claim c) cs = c ∷ cs
deleted_by _ cs = cs

unfoldable pub deletions : List Call → List Claim
deletions [] = []
deletions (c ∷ cs) = deleted_by c (deletions cs)

-- What a read leaves alone: all but the calls, which delete nothing more.
pub record Reads (s t : SetState) : Type 0 where
  pub owned : t.owned ≡ s.owned
  pub lost : t.lost ≡ s.lost
  pub set : t.set ≡ s.set
  pub deleted : deletions t.calls ≡ deletions s.calls

Reads-trans : {s t u : SetState} → Reads s t → Reads t u → Reads s u
Reads-trans a b = ground arith

pub deletions_push :
    (c : ClaimAndPod) (cps : List ClaimAndPod) (s : SetState)
    → reverse (map (λ c. c.claim) cps) ++ deletions (delete_claim c.claim ∷ s.calls)
      ≡ reverse (map (λ c. c.claim) (c ∷ cps)) ++ deletions s.calls
unfolding deletions
deletions_push c cps s =
    sym (append_assoc (reverse (map (λ c. c.claim) cps)) (c.claim ∷ []) (deletions s.calls))
    ∙ ap (λ l. l ++ deletions s.calls) (sym (reverse-cons c.claim (map (λ c. c.claim) cps)))

-- The pod beside a claim is the one that a run found that began after the calls `base` and has made
-- the calls `past`: none for a claim that names no pod or is Lost, and otherwise what the server
-- answered to the reading of the claim's pod.
pub data IsPodOf (k : Server) (base past : List Call) (x : ClaimAndPod) : Type 0 where
  unasked :
      (x.claim.spec.pod_name ≡ "") ⊎ (x.claim.status.phase ≡ ClaimPhase.lost)
      → x.pod ≡ none
      → IsPodOf k base past x
  found :
      (p : Pod) (cs : List Call)
      → base ⊑ cs
      → get_pod x.claim.spec.pod_name ∷ cs ⊑ past
      → k.pod cs x.claim.spec.pod_name ≡ ok p
      → x.pod ≡ some p
      → IsPodOf k base past x
  missing :
      (cs : List Call)
      → base ⊑ cs
      → get_pod x.claim.spec.pod_name ∷ cs ⊑ past
      → k.pod cs x.claim.spec.pod_name ≡ err not_found
      → x.pod ≡ none
      → IsPodOf k base past x

is_lost_phase_lem : (f : ClaimPhase) → is_lost_phase f ≡ true → f ≡ ClaimPhase.lost
is_lost_phase_lem ClaimPhase.lost h = refl
is_lost_phase_lem ClaimPhase.unset h = ground (arith, h)
is_lost_phase_lem ClaimPhase.pending h = ground (arith, h)
is_lost_phase_lem ClaimPhase.bound h = ground (arith, h)
is_lost_phase_lem ClaimPhase.outdated h = ground (arith, h)

no_pod :
    (c : Claim)
    → (c.spec.pod_name =s "" || is_lost_phase c.status.phase) ≡ true
    → (c.spec.pod_name ≡ "") ⊎ (c.status.phase ≡ ClaimPhase.lost)
no_pod c h = elim (Bool-cases (c.spec.pod_name =s "")) [
  | inl e ↦ inl ((=s_iff c.spec.pod_name "").0 e)
  | inr o ↦ inr (is_lost_phase_lem c.status.phase (ground (arith, h, o)))
]

module _ (k : Server) (base : List Call) where
  pub IsPodOf-later :
      (xs : List ClaimAndPod) {past more_calls : List Call}
      → past ⊑ more_calls
      → All (IsPodOf k base past) xs
      → All (IsPodOf k base more_calls) xs
  IsPodOf-later [] g h = tt
  IsPodOf-later (x ∷ xs) {past} {more_calls} g h = (later h.0, IsPodOf-later xs g h.1)
    where
      later : IsPodOf k base past x → IsPodOf k base more_calls x
      later (unasked e n) = unasked e n
      later (found p cs b m e n) = found p cs b (Extends-trans m g) e n
      later (missing cs b m e n) = missing cs b (Extends-trans m g) e n

  -- What reading the pod of a claim gives.
  abbrev PodRead : Claim → SetState → Run SetState (Option Pod) → Type 0
  PodRead c s r =
      Ends
        (λ p t.
          IsPodOf k base t.calls (record { claim = c; pod = p }) × Reads s t × (s.calls ⊑ t.calls))
        (λ e t. Reads s t) r

  absent_pod-PodRead :
      (c : Claim) (s : SetState) (a : Answer Pod)
      → base ⊑ s.calls
      → k.pod s.calls c.spec.pod_name ≡ a
      → PodRead c s (absent_pod k c.spec.pod_name a s)
  unfolding deletions
  absent_pod-PodRead c s (ok p) b e =
      (found p s.calls b same e refl, ground arith, more _ _ tt same)
  absent_pod-PodRead c s (err not_found) b e =
      (missing s.calls b same e refl, ground arith, more _ _ tt same)
  absent_pod-PodRead c s (err conflict) b e = ground arith
  absent_pod-PodRead c s (err refused) b e = ground arith

  get_claimed_pod-PodRead :
      (c : Claim) (s : SetState) → base ⊑ s.calls → PodRead c s (get_claimed_pod k c s)
  unfolding get_claimed_pod
  get_claimed_pod-PodRead c s b =
      Ends-ite _ _ (c.spec.pod_name =s "" || is_lost_phase c.status.phase) _ _
        (λ h. (unasked (no_pod c h) refl, ground arith, same))
        (λ _. absent_pod-PodRead c s (k.pod s.calls c.spec.pod_name) b refl)

  -- The two parts of the owned claims.
  abbrev pub Parts : List Claim → List ClaimAndPod × List Claim → Type 0
  Parts cs r =
      (map (λ c. c.claim) r.0 ≡ keep_if (λ c. not (is_migrating c)) cs)
      × (r.1 ≡ keep_if is_migrating cs)

  pub collect-Parts :
      (cs : List Claim) (s : SetState)
      → base ⊑ s.calls
      → Ends
          (λ r t. Parts cs r × Reads s t × (s.calls ⊑ t.calls) × All (IsPodOf k base t.calls) r.0)
          (λ e t. Reads s t)
          (collect k cs s)
  unfolding collect
  collect-Parts [] s b = ((refl, refl), ground arith, same, tt)
  collect-Parts (c ∷ cs) s b = elim (Bool-cases (is_migrating c)) [
    | inl m ↦
        rw (m, collect)
          (Ends-bind _ _ (collect k cs s) _ (collect-Parts cs s b)
            (λ r t p. ((p.0.0, ap (◌∷◌ c) p.0.1), p.1, p.2, p.3)))
    | inr o ↦
        rw (o, collect)
          (Ends-bind _ _ (get_claimed_pod k c s) _ (get_claimed_pod-PodRead c s b)
            (λ pod t (is_pod, before, g).
              Ends-bind
                {P = λ r u.
                  Parts cs r × Reads s u × (t.calls ⊑ u.calls) × All (IsPodOf k base u.calls) r.0}
                _ _ (collect k cs t) _
                (Ends-map _ _ _ _ (collect k cs t)
                  (λ r u p. (p.0, Reads-trans before p.1, p.2, p.3))
                  (λ e u after. Reads-trans before after) (collect-Parts cs t (Extends-trans b g)))
                (λ r u p. (
                  (ap (◌∷◌ c) p.0.0, p.0.1),
                  p.1,
                  Extends-trans g p.2,
                  ((IsPodOf-later (record { claim = c; pod = pod } ∷ []) p.2 (is_pod, tt)).0, p.3),
                ))))
  ]
