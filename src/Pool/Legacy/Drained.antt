-- ===== src/Pool/Legacy/Drained.antt =====
-- A legacy set without pods goes, where every call succeeds.
use matrixone_operator.Base.{
  ◌==◌, ◌=s◌, Bool-cases, ℕ, ◌+◌, String, ◌≡◌, refl, ap, ◌∙◌, inl, inr, true, false, ◌&&◌, List, [],
  ◌∷◌, arith,
}
use matrixone_operator.Base.Run.{ok, pure, answer}
use matrixone_operator.Api.Keys.{phase_bound, pod_claimed_by_label, cn_pod_phase_label}
use matrixone_operator.Api.Pod.{Pod}
use matrixone_operator.Base.Map.{Map, get}
use matrixone_operator.Base.Trace.{Extends-trans}
use matrixone_operator.Pool.Order.{pod_in_use}
use matrixone_operator.Pool.State.{
  ask, update, update_changed, SetSpec, SetItem, CnPool, list_pods, read_claim, read_set,
  outdate_claim, update_set, delete_set, PoolServer, PoolState, Written, called, write_found,
  create_owned_or_update,
}
use matrixone_operator.Pool.Legacy.{
  shrink, orphan_labels, reclaim_named, on_claim, reclaim_legacy_cn_claim, pods_with, pods_of_set,
  walk, collect_garbage, sync_legacy_set, sync_legacy_sets,
}
use matrixone_operator.Pool.Legacy.Evidence.{live_in_use, kept}
use matrixone_operator.Pool.Legacy.Kept.{kept-deleted, kept-used, kept-spare}
use matrixone_operator.Pool.Legacy.Runs.{
  IsServing, grown, IsAmong-Grows, Runs, Runs-bind, Runs-ask, Runs-pure, Runs-ite, Runs-map,
}
use matrixone_operator.Pool.Legacy.Gone.{
  pods_of, IsDrained, IsGone, AllGone, AllGone-skip, AllGone-more,
}

module _ (k : PoolServer) (p : CnPool) (sets : List SetItem) (pods : Map → List Pod)
    (status : String → ℕ) (serves : IsServing k p sets pods status) where
  reclaim_named-Runs :
      (name : String) (s : PoolState) → Runs (reclaim_named k name) s (λ _ _. Unit {0})
  reclaim_named-Runs name s = record {
    value = tt;
    end = called (outdate_claim name) (called (read_claim name) s);
    ran =
        ap (λ a. on_claim k name a (called (read_claim name) s)) (serves.claim_found s.calls name)
        ∙ ap (λ a. answer a (called (outdate_claim name) (called (read_claim name) s)))
            (serves.claim_written (read_claim name ∷ s.calls) name);
    holds = tt;
    grows =
        Extends-trans (grown (read_claim name) s)
          (grown (outdate_claim name) (called (read_claim name) s));
  }

  pub reclaim-Runs :
      (q : Pod) (s : PoolState) → Runs (reclaim_legacy_cn_claim k q) s (λ _ _. Unit {0})
  unfolding reclaim_legacy_cn_claim
  reclaim-Runs q s = elim (Bool-cases (get cn_pod_phase_label q.labels =s phase_bound)) [
    | inl e ↦ elim (Bool-cases (get pod_claimed_by_label q.labels =s "")) [
      | inl g ↦ rw (e, g) (Runs-pure tt s (λ _ _. Unit {0}) tt)
      | inr g ↦ rw (e, g) (reclaim_named-Runs (get pod_claimed_by_label q.labels) s)
    ]
    | inr e ↦ rw e (Runs-pure tt s (λ _ _. Unit {0}) tt)
  ]

  walk-Runs : (qs : List Pod) (s : PoolState) → Runs (walk k qs) s (λ w _. w ≡ kept qs)
  unfolding walk
  walk-Runs [] s = Runs-pure _ s _ refl
  walk-Runs (q ∷ qs) s =
      Runs-ite q.is_deleted _ _ s (λ w _. w ≡ kept (q ∷ qs))
        (λ e.
          Runs-map (walk k qs) s (λ w _. w ≡ kept qs) (λ w _. w ≡ kept (q ∷ qs)) (walk-Runs qs s)
            (λ w _ g _. kept-deleted q qs e w g))
        (λ e.
          Runs-ite (pod_in_use q) _ _ s (λ w _. w ≡ kept (q ∷ qs))
            (λ f.
              Runs-bind (reclaim_legacy_cn_claim k q) _ s (λ _ _. Unit {0})
                (λ w _. w ≡ kept (q ∷ qs)) (reclaim-Runs q s)
                (λ _ t _ _.
                  Runs-bind (walk k qs) _ t (λ w _. w ≡ kept qs) (λ w _. w ≡ kept (q ∷ qs))
                    (walk-Runs qs t)
                    (λ w u g _. Runs-pure _ u (λ v _. v ≡ kept (q ∷ qs)) (kept-used q qs w e f g))))
            (λ f.
              Runs-bind (walk k qs) _ s (λ w _. w ≡ kept qs) (λ w _. w ≡ kept (q ∷ qs))
                (walk-Runs qs s)
                (λ w u g _. Runs-pure _ u (λ v _. v ≡ kept (q ∷ qs)) (kept-spare q qs w e f g))))

  pub pods_with-Runs : (ls : Map) (s : PoolState) → Runs (pods_with k ls) s (λ ps _. ps ≡ pods ls)
  pods_with-Runs ls s =
      Runs-ask (list_pods ls) (λ cs. k.pods cs ls) s (pods ls) (λ ps _. ps ≡ pods ls)
        (serves.pods_listed s.calls ls) refl

  pub pods_of_set-Runs :
      (i : SetItem) (s : PoolState)
      → Runs (pods_of_set k i) s (λ ps _. ps ≡ pods_of k pods status i)
  unfolding pods_of_set
  pods_of_set-Runs i s = elim (Bool-cases (i.label_selector =s "")) [
    | inl e ↦ rw e (Runs-pure [] s (λ ps _. ps ≡ []) refl)
    | inr e ↦
        rw (e, (serves.parses i.label_selector).1)
          (pods_with-Runs (serves.parses i.label_selector).0 s)
  ]

  write-Runs :
      (i : SetItem) (mutate : SetSpec → SetSpec) (s : PoolState)
      → Runs
          (create_owned_or_update k i (λ old. pure (mutate old)))
          s
          (λ w _. ((old : SetSpec) × (w.0 ≡ mutate old)) × (w.1 ≡ status i.name))
  unfolding create_owned_or_update
  write-Runs i mutate s = record {
    value = written.value;
    end = written.end;
    ran =
        ap (λ a. write_found k i (λ old. pure (mutate old)) a (called (read_set i.name) s)) found.1
        ∙ written.ran;
    holds = written.holds;
    grows = Extends-trans (grown (read_set i.name) s) written.grows;
  }
    where
      found : (j : SetItem) × (k.set s.calls i.name ≡ ok j) × (j.status_replicas ≡ status i.name)
      found = serves.set_found s.calls i.name

      changed : SetSpec
      changed = mutate (SetItem.spec found.0)

      Wrote : Written k → PoolState → Type 0
      Wrote w _ = ((old : SetSpec) × (w.0 ≡ mutate old)) × (w.1 ≡ status i.name)

      written : Runs (update_changed k i found.0 changed) (called (read_set i.name) s) Wrote
      written =
          Runs-ite (k.deep_equal (SetItem.spec found.0) changed)
            (pure (changed, SetItem.status_replicas found.0)) (update k i changed)
            (called (read_set i.name) s) Wrote
            (λ _.
              Runs-pure _ (called (read_set i.name) s) Wrote
                ((SetItem.spec found.0, refl), found.2))
            (λ _.
              Runs-bind (ask (update_set i.name changed) (λ cs. k.set_updated cs i.name changed))
                (λ n. pure (changed, n)) (called (read_set i.name) s) (λ n _. n ≡ status i.name)
                Wrote
                (Runs-ask (update_set i.name changed) (λ cs. k.set_updated cs i.name changed)
                  (called (read_set i.name) s) (status i.name) (λ n _. n ≡ status i.name)
                  (serves.set_written (read_set i.name ∷ s.calls) i.name changed) refl)
                (λ n t e _. Runs-pure (changed, n) t Wrote ((SetItem.spec found.0, refl), e)))

  garbage-Runs :
      (i : SetItem) (v : Written k) (qs : List Pod) (s : PoolState)
      → (IsDrained k pods status i → (SetSpec.replicas v.0 ≡ 0) × (v.1 ≡ 0) × (qs ≡ []))
      → Runs (collect_garbage k i v qs) s (λ _ t. IsGone k pods status i t)
  garbage-Runs i (spec, n) [] s h =
      Runs-ite (spec.replicas == 0 && n == 0 && true) _ _ s (λ _ t. IsGone k pods status i t)
        (λ _.
          Runs-ask (delete_set i.name) (λ cs. k.set_deleted cs i.name) s tt
            (λ _ t. IsGone k pods status i t) (serves.set_gone s.calls i.name) (λ _. inl refl))
        (λ e.
          Runs-pure tt s (λ _ t. IsGone k pods status i t)
            (λ dr. ground (arith, e, (h dr).0, (h dr).1)))
  garbage-Runs i (spec, n) (q ∷ qs) s h =
      Runs-ite (spec.replicas == 0 && n == 0 && false) _ _ s (λ _ t. IsGone k pods status i t)
        (λ e. ground (arith, e))
        (λ e. Runs-pure tt s (λ _ t. IsGone k pods status i t) (λ dr. ground (arith, (h dr).2)))

  sync_legacy_set-Runs :
      (i : SetItem) (s : PoolState) → Runs (sync_legacy_set k i) s (λ _ t. IsGone k pods status i t)
  unfolding sync_legacy_set shrink
  sync_legacy_set-Runs i s =
      Runs-bind (pods_of_set k i) _ s (λ ps _. ps ≡ pods_of k pods status i)
        (λ _ t. IsGone k pods status i t) (pods_of_set-Runs i s)
        (λ ps t a _.
          Runs-bind (walk k ps) _ t (λ w _. w ≡ kept ps) (λ _ u. IsGone k pods status i u)
            (walk-Runs ps t)
            (λ w u b _.
              Runs-bind (create_owned_or_update k i (λ old. pure (shrink w old))) _ u
                (λ v _. ((old : SetSpec) × (v.0 ≡ shrink w old)) × (v.1 ≡ status i.name))
                (λ _ u. IsGone k pods status i u) (write-Runs i (shrink w) u)
                (λ v u c _.
                  Runs-bind (pods_with k (orphan_labels i)) _ u
                    (λ qs _. qs ≡ pods (orphan_labels i)) (λ _ u. IsGone k pods status i u)
                    (pods_with-Runs (orphan_labels i) u)
                    (λ qs u e _.
                      Runs-bind (collect_garbage k i v qs) _ u (λ _ t. IsGone k pods status i t)
                        (λ _ t. IsGone k pods status i t)
                        (garbage-Runs i v qs u (λ dr. (
                          ap (λ x. x.replicas) c.0.1
                              ∙ ap (λ x. x.replicas) b
                              ∙ ap live_in_use a
                              ∙ dr.0,
                          c.1 ∙ dr.1,
                          e ∙ dr.2,
                        )))
                        (λ _ t g _. Runs-pure w.replicas t (λ _ t. IsGone k pods status i t) g)))))

  pub sync_legacy_sets-Runs :
      (current : String) (is : List SetItem) (s : PoolState)
      → Runs (sync_legacy_sets k current is) s (λ _ t. AllGone k pods status current is t)
  unfolding sync_legacy_sets
  sync_legacy_sets-Runs current [] s =
      Runs-pure _ s (λ _ t. AllGone k pods status current [] t) (λ i m. elim m [ ])
  sync_legacy_sets-Runs current (j ∷ js) s =
      Runs-ite (j.name =s current) _ _ s (λ _ t. AllGone k pods status current (j ∷ js) t)
        (λ e.
          Runs-map (sync_legacy_sets k current js) s (λ _ t. AllGone k pods status current js t)
            (λ _ t. AllGone k pods status current (j ∷ js) t) (sync_legacy_sets-Runs current js s)
            (λ _ t h _. AllGone-skip k pods status current j js t e h))
        (λ _.
          Runs-bind (sync_legacy_set k j) _ s (λ _ t. IsGone k pods status j t)
            (λ _ t. AllGone k pods status current (j ∷ js) t) (sync_legacy_set-Runs j s)
            (λ n t g _.
              Runs-bind (sync_legacy_sets k current js) _ t
                (λ _ u. AllGone k pods status current (j ∷ js) u)
                (λ _ u. AllGone k pods status current (j ∷ js) u)
                (Runs-map (sync_legacy_sets k current js) t
                  (λ _ u. AllGone k pods status current js u)
                  (λ _ u. AllGone k pods status current (j ∷ js) u)
                  (sync_legacy_sets-Runs current js t)
                  (λ _ u h grew.
                    AllGone-more k pods status current j js u
                      (λ dr. IsAmong-Grows (delete_set j.name) t u (g dr) grew) h))
                (λ m u h _.
                  Runs-pure (n + m) u (λ _ v. AllGone k pods status current (j ∷ js) v) h)))
