-- ===== src/Pool/Scale/Marks.antt =====
-- Which pods a scaling marks, and how many replicas it leaves.
use matrixone_operator.Base.{
  ltb, leb, Bool-cases, length, All, ℕ, suc, ◌+◌, ◌-◌, ◌≤◌, ◌<◌, max, ◌≡◌, refl, inl, inr, Bool,
  true, false, List, [], ◌∷◌, arith,
}
use matrixone_operator.Base.Run.{Ends, Ends-bind, Ends-map, Ends-ite}
use matrixone_operator.Api.Pod.{Pod}
use matrixone_operator.Base.{IsAmong}
use matrixone_operator.Base.Run.{Ends-choice}
use matrixone_operator.Base.Sort.{sort, All-sort, All-take}
use matrixone_operator.Base.Trace.{Extends, same, more, Extends-trans}
use matrixone_operator.Pool.Order.{pod_in_use, deletion_order}
use matrixone_operator.Pool.State.{PoolCall, update_pod, PoolState}
use matrixone_operator.Pool.Scale.{
  PoolSet, Census, is_deleted_pod, is_terminating_pod, count_pod, take_census, terminating_pod,
  chosen_pods, terminate, scale_down, scale_set,
}

-- A pod that may be marked: it is one of the pods, not being deleted and not in use.
abbrev pub IsSpare : List Pod → Pod → Type 0
IsSpare pods p = IsAmong p pods × (is_deleted_pod p ≡ false) × (pod_in_use p ≡ false)

-- The only calls of a scaling: marking such pods.
pub data IsMarking (pods : List Pod) : PoolCall → Type 0 where
  marking : (p : Pod) → IsSpare pods p → IsMarking pods (update_pod (terminating_pod p))

count_pod-IsSpare :
    (pods : List Pod) (p : Pod) (c : Census)
    → IsAmong p pods
    → All (IsSpare pods) c.idle
    → All (IsSpare pods) (count_pod p c).idle
unfolding count_pod
count_pod-IsSpare pods p c m h = elim (Bool-cases (is_deleted_pod p)) [
  | inl e ↦ rw (e, count_pod) h
  | inr e ↦ elim (Bool-cases (pod_in_use p)) [
    | inl f ↦ rw (e, f, count_pod) h
    | inr f ↦ elim (Bool-cases (is_terminating_pod p)) [
      | inl g ↦ rw (e, f, g, count_pod) h
      | inr g ↦ rw (e, f, g, count_pod) ((m, e, f), h)
    ]
  ]
]

pub idle-IsSpare :
    (pods ps : List Pod) → All (λ p. IsAmong p pods) ps → All (IsSpare pods) (take_census ps).idle
unfolding take_census
idle-IsSpare pods [] m = tt
idle-IsSpare pods (p ∷ ps) m =
    count_pod-IsSpare pods p (take_census ps) m.0 (idle-IsSpare pods ps m.1)

module _ (pods : List Pod) where
  chosen-IsSpare :
      (n : ℕ) (ps : List Pod) → All (IsSpare pods) ps → All (IsSpare pods) (chosen_pods n ps)
  unfolding chosen_pods
  chosen-IsSpare n ps h = elim (Bool-cases (ltb n (length ps))) [
    | inl e ↦ rw e (
        All-take (IsSpare pods) n (sort deletion_order ps)
          (All-sort (IsSpare pods) deletion_order ps h))
    | inr e ↦ rw e (All-sort (IsSpare pods) deletion_order ps h)
  ]

module _ (accepts : List PoolCall → Pod → Bool) (pods : List Pod) where
  -- The pods marked are at most as many as the pods given, and only spare ones are updated.
  terminate-marks :
      (ps : List Pod) (s : PoolState)
      → All (IsSpare pods) ps
      → Ends
          (λ deleted t. (length deleted ≤ length ps) × Extends (IsMarking pods) s.calls t.calls)
          (λ _ _. true ≡ false)
          (terminate accepts ps s)
  unfolding terminate
  terminate-marks [] s h = (ground arith, same)
  terminate-marks (p ∷ ps) s h =
      Ends-ite _ _ (accepts s.calls (terminating_pod p)) _ _
        (λ _.
          Ends-bind
            {P = λ deleted t.
              (length deleted ≤ length ps)
              × Extends (IsMarking pods) (update_pod (terminating_pod p) ∷ s.calls) t.calls}
            (λ deleted t.
              (length deleted ≤ suc (length ps)) × Extends (IsMarking pods) s.calls t.calls)
            (λ _ _. true ≡ false) (terminate accepts ps _) _ (terminate-marks ps _ h.1)
            (λ deleted t g.
              (ground (arith, g.0), Extends-trans (more _ _ (marking p h.0) same) g.1)))
        (λ _.
          Ends-map _ _ _ _ (terminate accepts ps _)
            (λ deleted t g.
              (ground (arith, g.0), Extends-trans (more _ _ (marking p h.0) same) g.1))
            (λ _ _ g. g) (terminate-marks ps _ h.1))

-- What a scaling of a set with these pods, that wants `desired` and had `spec` replicas, leaves.
pub record Scaled (pods : List Pod) (desired spec pending : ℕ) (s t : PoolState) (set : PoolSet)
    : Type 0 where
  pub enough : desired ≤ set.replicas
  pub bounded : set.replicas ≤ max desired spec
  pub grows : spec < desired → set.replicas ≡ desired
  pub no_loss : 0 < pending → t.calls ≡ s.calls
  pub marks : Extends (IsMarking pods) s.calls t.calls

module _ (accepts : List PoolCall → Pod → Bool) (pods : List Pod) where
  scale_down-Scaled :
      (desired spec pending : ℕ) (c : Census) (s : PoolState)
      → All (IsSpare pods) c.idle
      → desired ≤ spec
      → ltb 0 pending ≡ false
      → Ends
          (λ set t. Scaled pods desired spec pending s t set)
          (λ _ _. true ≡ false)
          (scale_down accepts desired spec c s)
  unfolding scale_down
  scale_down-Scaled desired spec pending c s h le none_pending =
      Ends-bind
        {P = λ deleted t.
          (length deleted ≤ length chosen) × Extends (IsMarking pods) s.calls t.calls}
        (λ set t. Scaled pods desired spec pending s t set) (λ _ _. true ≡ false)
        (terminate accepts chosen s) _
        (terminate-marks accepts pods chosen s (chosen-IsSpare pods _ c.idle h))
        (λ deleted t g. record {
          enough = ground arith;
          bounded = ground arith;
          grows = λ l. ground arith;
          no_loss = λ l. ground arith;
          marks = g.1;
        })
    where
      chosen : List Pod
      chosen = chosen_pods (max (c.in_use + length c.idle - desired) (spec - desired)) c.idle

  pub scale_set-Scaled :
      (desired pending spec : ℕ) (c : Census) (s : PoolState)
      → All (IsSpare pods) c.idle
      → Ends
          (λ set t. Scaled pods desired spec pending s t set)
          (λ _ _. true ≡ false)
          (scale_set accepts desired pending spec c s)
  unfolding scale_set
  scale_set-Scaled desired pending spec c s h =
      Ends-choice _ _ (leb desired spec) _ _ s
        (λ le.
          Ends-choice _ _ (ltb 0 pending) _ _ s
            (λ some_pending. record {
              enough = ground (arith, le);
              bounded = ground arith;
              grows = λ l. ground (arith, le, l);
              no_loss = λ _. refl;
              marks = same;
            })
            (λ none_pending.
              scale_down-Scaled desired spec pending c s h (ground (arith, le)) none_pending))
        (λ gt. record {
          enough = ground arith;
          bounded = ground (arith, gt);
          grows = λ _. refl;
          no_loss = λ _. refl;
          marks = same;
        })
