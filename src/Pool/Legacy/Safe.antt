-- ===== src/Pool/Legacy/Safe.antt =====
-- Whole legacy sets, and the direct pods.
use matrixone_operator.Base.{
  ◌==◌, ◌=s◌, All, ℕ, ◌+◌, ◌≡◌, sym, ap, subst, true, false, ◌&&◌, ◌||◌, List, [], ◌∷◌, arith,
}
use matrixone_operator.Base.Map.{get}
use matrixone_operator.Base.Run.{◌>>=◌, pure, Ends-map}
use matrixone_operator.Api.Keys.{instance_label_key}
use matrixone_operator.Api.Pod.{Pod}
use matrixone_operator.Base.{IsAmong, All-given}
use matrixone_operator.Base.Trace.{◌⊑◌, Extends-trans, start}
use matrixone_operator.Pool.State.{
  PoolCall, SetSpec, SetItem, CnPool, update_set, create_set, delete_set, PoolServer, PoolState,
  Written, create_owned_or_update,
}
use matrixone_operator.Pool.Legacy.{
  reclaim_legacy_cn_claim, pods_with, pods_of_set, walk, remove, Walk, shrink, direct_labels,
  orphan_labels, pods_with, collect_garbage, sync_legacy_set, sync_legacy_sets, reclaim_direct_pods,
}
use matrixone_operator.Pool.Legacy.Evidence.{
  live_in_use, kept, Pods, PodsOf, PodsOf-later, Status, Status-later, IsLegacy, IsLegacy-later,
  of_set, direct, IsTotal, none_listed, current_listed, legacy_listed, Pods-later,
}
use matrixone_operator.Pool.Legacy.Allowed.{IsAllowed, shrinking, restoring, removing}
use matrixone_operator.Pool.Legacy.Kept.{
  Does, Does-bind, Does-ite, Anything, ask-Does, reclaim-Does, pods_with-Does, pods_of_set-Does,
  walk-Does,
}
use matrixone_operator.Pool.Legacy.Writes.{create_owned_or_update-Does}

module _ (k : PoolServer) (p : CnPool) (d : SetItem) (base : List PoolCall) where
  -- A legacy set is deleted only where it has no pods.
  garbage-Does :
      (i : SetItem) (pods : List Pod) (w : Written k) (orphans : List Pod) (s : PoolState)
      → IsLegacy k p d base i s.calls
      → PodsOf k base i pods s.calls
      → SetSpec.replicas w.0 ≡ live_in_use pods
      → Status k base i w.1 s.calls
      → Pods k base (orphan_labels i) orphans s.calls
      → Does k p d base Anything (collect_garbage k i w orphans) s
  garbage-Does i pods (spec, n) [] s l o e st listed =
      Does-ite k p d base Anything (spec.replicas == 0 && n == 0 && true) (remove k i) (pure tt) s
        (λ z.
          ask-Does k p d base (delete_set i.name) (λ cs. k.set_deleted cs i.name) Anything s
            (removing i pods l o (ground (arith, z, e))
              (subst (λ m. Status k base i m s.calls) (ground (arith, z)) st) listed)
            (λ _ _ _. tt))
        (λ _ _. (tt, start))
  garbage-Does i pods (spec, n) (q ∷ qs) s l o e st listed =
      Does-ite k p d base Anything (spec.replicas == 0 && n == 0 && false) (remove k i) (pure tt) s
        (λ z. ground (arith, z)) (λ _ _. (tt, start))

  -- What a legacy set keeps.
  abbrev Keeps : SetItem → ℕ → List PoolCall → Type 0
  Keeps i n past = (pods : List Pod) × PodsOf k base i pods past × (n ≡ live_in_use pods)

  abbrev Shrunk : SetItem → List Pod → SetSpec → List PoolCall → Type 0
  Shrunk i pods new past =
      ((old : SetSpec) × (new ≡ shrink (kept pods) old))
      × IsLegacy k p d base i past
      × PodsOf k base i pods past

  -- The set is written.
  shrink-Does :
      (i : SetItem) (pods : List Pod) (w : Walk) (s : PoolState)
      → IsLegacy k p d base i s.calls
      → PodsOf k base i pods s.calls
      → w ≡ kept pods
      → Does k p d base
          (λ v past. Shrunk i pods v.0 past × Status k base i v.1 past)
          (create_owned_or_update k i (λ old. pure (shrink w old)))
          s
  shrink-Does i pods w s l o e from =
      create_owned_or_update-Does k p d base (Shrunk i pods) i (λ old. pure (shrink w old)) s
        (λ old t g _. (
          (
            (old, ap (λ v. shrink v old) e),
            IsLegacy-later k p d base i g l,
            PodsOf-later k base i g o,
          ),
          start,
        ))
        (λ new t h.
          subst (λ v. IsAllowed k p d base t.calls (update_set i.name v)) (sym h.0.1)
            (shrinking i pods h.0.0 h.1 h.2))
        (λ new t h.
          subst (λ v. IsAllowed k p d base t.calls (create_set i.name i.labels v)) (sym h.0.1)
            (restoring i pods h.0.0 h.1 h.2))
        (λ new xs ys g h. (h.0, IsLegacy-later k p d base i g h.1, PodsOf-later k base i g h.2))
        from

  sync_legacy_set-Does :
      (i : SetItem) (s : PoolState)
      → IsLegacy k p d base i s.calls
      → Does k p d base (Keeps i) (sync_legacy_set k i) s
  unfolding sync_legacy_set shrink
  sync_legacy_set-Does i s l =
      Does-bind k p d base (PodsOf k base i) (Keeps i) (pods_of_set k i) _ s
        (pods_of_set-Does k p d base i s)
        (λ pods t o g.
          Does-bind k p d base (λ w _. w ≡ kept pods) (Keeps i) (walk k pods) _ t
            (walk-Does k p d base pods t
              (All-given _ pods (λ q m. of_set i pods (IsLegacy-later k p d base i g l) o m)))
            (λ w u e h.
              Does-bind k p d base (λ v past. Shrunk i pods v.0 past × Status k base i v.1 past)
                (Keeps i) (create_owned_or_update k i (λ old. pure (shrink w old))) _ u
                (shrink-Does i pods w u (IsLegacy-later k p d base i (Extends-trans g h) l)
                  (PodsOf-later k base i h o) e)
                (λ v x c j.
                  Does-bind k p d base (λ qs past. Pods k base (orphan_labels i) qs past) (Keeps i)
                    (pods_with k (orphan_labels i)) _ x
                    (pods_with-Does k p d base (orphan_labels i) x)
                    (λ qs y f r.
                      Does-bind k p d base Anything (Keeps i) (collect_garbage k i v qs)
                        (λ _. pure w.replicas) y
                        (garbage-Does i pods v qs y (IsLegacy-later k p d base i r c.0.1)
                          (PodsOf-later k base i r c.0.2) (ap (λ n. n.replicas) c.0.0.1)
                          (Status-later k base i r c.1) f)
                        (λ _ z _ q _. (
                          (
                            pods,
                            PodsOf-later k base i (Extends-trans r q) c.0.2,
                            ap (λ n. n.replicas) e,
                          ),
                          start,
                        ))))))

  -- The sets that are not the current one are legacy.
  abbrev pub AreLegacy : List SetItem → List PoolCall → Type 0
  AreLegacy sets past = All (λ i. (i.name =s d.name) ≡ false → IsLegacy k p d base i past) sets

  AreLegacy-later :
      (sets : List SetItem) (xs ys : List PoolCall)
      → xs ⊑ ys
      → AreLegacy sets xs
      → AreLegacy sets ys
  AreLegacy-later [] xs ys g h = tt
  AreLegacy-later (i ∷ is) xs ys g h =
      ((λ e. IsLegacy-later k p d base i g (h.0 e)), AreLegacy-later is xs ys g h.1)

  pub sync_legacy_sets-Does :
      (sets : List SetItem) (s : PoolState)
      → AreLegacy sets s.calls
      → Does k p d base
          (λ n past. IsTotal k p d base past sets n)
          (sync_legacy_sets k d.name sets)
          s
  unfolding sync_legacy_sets
  sync_legacy_sets-Does [] s h from = (none_listed, start)
  sync_legacy_sets-Does (i ∷ is) s h from =
      Does-ite k p d base (λ n past. IsTotal k p d base past (i ∷ is) n) (i.name =s d.name) _ _ s
        (λ e f.
          Ends-map _ _ _ _ (sync_legacy_sets k d.name is s)
            (λ n t g. (current_listed i is n e g.0, g.1)) (λ _ _ g. g)
            (sync_legacy_sets-Does is s h.1 f))
        (λ e.
          Does-bind k p d base (Keeps i) (λ n past. IsTotal k p d base past (i ∷ is) n)
            (sync_legacy_set k i) (λ n. sync_legacy_sets k d.name is >>= λ m. pure (n + m)) s
            (sync_legacy_set-Does i s (h.0 e))
            (λ n t g r.
              Does-bind k p d base (λ m past. IsTotal k p d base past is m)
                (λ n past. IsTotal k p d base past (i ∷ is) n) (sync_legacy_sets k d.name is)
                (λ m. pure (n + m)) t
                (sync_legacy_sets-Does is t (AreLegacy-later is s.calls t.calls r h.1))
                (λ m u f q _. (
                  subst (λ x. IsTotal k p d base u.calls (i ∷ is) (x + m)) (sym g.2)
                      (legacy_listed i is m g.0 e (PodsOf-later k base i q g.1) f),
                  start,
                ))))
        from

  pub reclaim_direct_pods-Does :
      (pods qs : List Pod) (s : PoolState)
      → Pods k base (direct_labels p) pods s.calls
      → All (λ q. IsAmong q pods) qs
      → Does k p d base Anything (reclaim_direct_pods k d.name qs) s
  unfolding reclaim_direct_pods
  reclaim_direct_pods-Does pods [] s o h from = (tt, start)
  reclaim_direct_pods-Does pods (q ∷ qs) s o h from =
      Does-ite k p d base Anything (q.is_deleted || get instance_label_key q.labels =s d.name) _ _ s
        (λ _. reclaim_direct_pods-Does pods qs s o h.1)
        (λ e.
          Does-bind k p d base Anything Anything (reclaim_legacy_cn_claim k q)
            (λ _. reclaim_direct_pods k d.name qs) s
            (reclaim-Does k p d base q s (direct pods o h.0 (ground (arith, e)))
              (ground (arith, e)))
            (λ _ t _ r. reclaim_direct_pods-Does pods qs t (Pods-later k base r o) h.1))
        from
