-- ===== src/Claim/Migrate/Complete.antt =====
-- When a migration ends, and before when it writes nothing.
use matrixone_operator.Base.{
  ℕ, ◌+◌, ◌≤◌, ◌≡◌, refl, sym, subst, ◌⊎◌, inl, inr, Option, none, some, [], ◌∷◌, arith,
}
use matrixone_operator.Base.Run.{
  not_found, conflict, refused, Error, resync, Answer, ok, err, fail, Ends, Ends-bind, Ends-map,
  Ends-ite, Ends-any,
}
use matrixone_operator.Api.Claim.{PodRef}
use matrixone_operator.Api.Pod.{Pod}
use matrixone_operator.Claim.State.{get_pod, ClaimState, Server, called}
use matrixone_operator.Claim.Reclaim.{reclaim_cn}
use matrixone_operator.Claim.Migrate.{
  propagation_delay, migration_resync_interval, SourcePhase, still_draining, still_bound, has_left,
  unknown_phase, source_phase, is_fresh, report_progress, complete_migration, drain_by_phase,
  drain_source, after_delay, found_source, migrate_from, migrate,
}

module _ (k : Server) (r : PodRef) (s : ClaimState) where
  -- The target has had the time to take traffic.
  abbrev pub HasWaited : Type 0
  HasWaited =
      (t : ℕ) × (s.claim.status.store.bound_time ≡ some t)
      × (t + propagation_delay ≤ k.now (get_pod r.pod_name ∷ s.calls))

  -- The source pod is gone, or it is drained, back in its pool or about to be deleted.
  abbrev pub HasLeft : Type 0
  HasLeft =
      (k.pod s.calls r.pod_name ≡ err not_found)
      ⊎ ((p : Pod) × (k.pod s.calls r.pod_name ≡ ok p) × (source_phase p ≡ has_left) × HasWaited)

  -- A run that has done more than to read the source pod has waited.
  abbrev pub Waits : Error → ClaimState → Type 0
  Waits e t =
      (t.calls ≡ get_pod r.pod_name ∷ s.calls)
      ⊎ (HasWaited ⊎ (k.pod s.calls r.pod_name ≡ err not_found))

  left_by_phase :
      (p : Pod) (ph : SourcePhase) (u : ClaimState)
      → Ends (λ _ _. ph ≡ has_left) (λ _ _. Unit {0}) (drain_by_phase k p ph u)
  unfolding drain_by_phase
  left_by_phase p still_draining u =
      Ends-bind {P = λ _ _. Unit {0}} _ _ (report_progress k p u)
        (λ _ v. fail (resync migration_resync_interval) v) (Ends-any _) (λ _ _ _. tt)
  left_by_phase p still_bound u =
      Ends-bind {P = λ _ _. Unit {0}} _ _ (reclaim_cn k [] p u) _ (Ends-any _) (λ q v _.
        Ends-bind {P = λ _ _. Unit {0}} _ _ (report_progress k q v)
          (λ _ w. fail (resync migration_resync_interval) w) (Ends-any _) (λ _ _ _. tt))
  left_by_phase p has_left u =
      Ends-map (λ _ _. Unit {0}) _ (λ _ _. Unit {0}) _ (complete_migration k u) (λ _ _ _. refl)
        (λ _ _ _. tt) (Ends-any _)
  left_by_phase p unknown_phase u = tt

  after_delay-left :
      (p : Pod) (o : Option ℕ)
      → s.claim.status.store.bound_time ≡ o
      → k.pod s.calls r.pod_name ≡ ok p
      → Ends (λ _ _. HasLeft) Waits (after_delay k p o (called (get_pod r.pod_name) s))
  unfolding after_delay is_fresh drain_source
  after_delay-left p none e f = inl refl
  after_delay-left p (some t) e f =
      Ends-ite _ _ (is_fresh (k.now (get_pod r.pod_name ∷ s.calls)) t) _ _ (λ _. inl refl)
        (λ late.
          Ends-map _ _ _ _ (drain_by_phase k p (source_phase p) (called (get_pod r.pod_name) s))
            (λ _ _ left. inr (p, f, left, (t, e, ground (arith, late))))
            (λ _ _ _. inr (inl (t, e, ground (arith, late))))
            (left_by_phase p (source_phase p) (called (get_pod r.pod_name) s)))

  found_source-left :
      (a : Answer Pod)
      → k.pod s.calls r.pod_name ≡ a
      → Ends (λ _ _. HasLeft) Waits (found_source k a (called (get_pod r.pod_name) s))
  unfolding found_source
  found_source-left (ok p) e = after_delay-left p s.claim.status.store.bound_time refl e
  found_source-left (err not_found) e =
      Ends-map _ _ _ _ (complete_migration k (called (get_pod r.pod_name) s)) (λ _ _ _. inl e)
        (λ _ _ _. inr (inr e)) (Ends-any _)
  found_source-left (err conflict) e = inl refl
  found_source-left (err refused) e = inl refl

-- migrate of a claim with a source pod succeeds only if the source is gone, or has left for its
-- pool or for deletion after the target was bound for the propagation delay; and if it fails
-- having done more than to read the source pod, that delay has passed or the source is gone.
pub migrate-Waits :
    (k : Server) (r : PodRef) (s : ClaimState)
    → s.claim.spec.source_pod ≡ some r
    → Ends (λ _ _. HasLeft k r s) (Waits k r s) (migrate k s)
unfolding migrate migrate_from
migrate-Waits k r s e =
    subst (λ o. Ends (λ _ _. HasLeft k r s) (Waits k r s) (migrate_from k o s)) (sym e)
      (found_source-left k r s (k.pod s.calls r.pod_name) refl)
