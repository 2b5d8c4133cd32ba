-- ===== src/Pool/Sync/Safe.antt =====
-- What a whole reconciliation of a pool may do.
use matrixone_operator.Base.{
  ◌=s◌, if◌then◌else◌, ℕ, String, ◌≡◌, refl, sym, subst, inl, inr, Bool, true, false, Option, none,
  some, List, [], ◌∷◌, arith,
}
use matrixone_operator.Base.Run.{Ends, Ends-map}
use matrixone_operator.Base.{IsAmong, All, ◌≢◌, All-given}
use mathlib.Core.Option.{some-injective}
use matrixone_operator.Base.Trace.{same, Extends-trans, Follows, start}
use matrixone_operator.Pool.State.{
  Written, ask, SetItem, CnPool, PoolCall, list_sets, list_claims, PoolServer, PoolState,
}
use matrixone_operator.Pool.Build.{
  owned_labels, sync_cn_set_spec, revision_of, with_hash, build_cn_set,
}
use matrixone_operator.Pool.Legacy.{
  reclaim_direct_pods, sync_legacy_sets, pods_with, pods_of_set, direct_labels, pods_of_set,
}
use matrixone_operator.Pool.Legacy.Evidence.{
  Pods, Claims, Sets, Sets-later, IsTotal, IsTotal-later, CurrentPods, unlisted, of_current,
  CurrentPods-later,
}
use matrixone_operator.Pool.Legacy.Allowed.{IsAllowed, asking}
use matrixone_operator.Pool.Legacy.Kept.{
  Does, Does-bind, Anything, ask-Does, pods_with-Does, pods_of_set-Does,
}
use matrixone_operator.Pool.Legacy.Safe.{sync_legacy_sets-Does, reclaim_direct_pods-Does}
use matrixone_operator.Pool.Sync.Scaling.{Enough, scale_pool-Does}
use matrixone_operator.Pool.Sync.{
  owned_sets, nominated, current_set, last_of, pods_of_current, list_nominated_claims, sync_current,
  sync_sets, sync,
}

module _ (d : SetItem) where
  abbrev Found : SetItem → List SetItem → Type 0
  Found i sets = IsAmong i sets × ((i.name =s d.name) ≡ true)

  last_of-Found :
      (j i : SetItem) (js : List SetItem) (b : Bool) (o : Option SetItem)
      → (j.name =s d.name) ≡ b
      → (o ≡ some i → Found i js)
      → (if b then last_of o j else o) ≡ some i
      → Found i (j ∷ js)
  last_of-Found j i js true none e g h = (
    inl (sym (some-injective _ _ h)),
    subst (λ (x : SetItem). (x.name =s d.name) ≡ true) (some-injective _ _ h) e,
  )
  last_of-Found j i js true (some x) e g h = (inr (g h).0, (g h).1)
  last_of-Found j i js false o e g h = (inr (g h).0, (g h).1)

  -- The set that is found is a listed one of the name.
  current_set-IsAmong :
      (sets : List SetItem) (i : SetItem) → current_set d.name sets ≡ some i → Found i sets
  unfolding current_set
  current_set-IsAmong [] i h = ground (arith, h)
  current_set-IsAmong (j ∷ js) i h =
      last_of-Found j i js (j.name =s d.name) (current_set d.name js) refl
        (current_set-IsAmong js i) h

  last_of-some : (j : SetItem) (o : Option SetItem) → last_of o j ≢ none
  last_of-some j none h = ground (arith, h)
  last_of-some j (some x) h = ground (arith, h)

  unnamed :
      (j : SetItem) (js : List SetItem) (o : Option SetItem)
      → (o ≡ none → All (λ i. (i.name =s d.name) ≡ false) js)
      → (b : Bool) → (j.name =s d.name) ≡ b
      → (if b then last_of o j else o) ≡ none
      → All (λ i. (i.name =s d.name) ≡ false) (j ∷ js)
  unnamed j js o rest true e h = absurd (last_of-some j o h)
  unnamed j js o rest false e h = (e, rest h)

  -- Where none is found, no listed set has the name.
  current_set-none :
      (sets : List SetItem)
      → current_set d.name sets ≡ none
      → All (λ i. (i.name =s d.name) ≡ false) sets
  unfolding current_set
  current_set-none [] h = tt
  current_set-none (j ∷ js) h =
      unnamed j js (current_set d.name js) (current_set-none js) (j.name =s d.name) refl h

module _ (k : PoolServer) (p : CnPool) (d : SetItem) (base : List PoolCall) where
  current-Does :
      (sets : List SetItem) (o : Option SetItem) (s : PoolState)
      → current_set d.name sets ≡ o
      → Does k p d base (CurrentPods k p d base sets) (pods_of_current k o) s
  current-Does sets none s e from = (unlisted (current_set-none d sets e) refl, start)
  current-Does sets (some i) s e from =
      Ends-map _ _ _ _ (pods_of_set k i s) (λ pods t h. (of_current i m.0 m.1 h.0, h.1))
        (λ _ _ h. h) (pods_of_set-Does k p d base i s from)
    where
      m : Found d i sets
      m = current_set-IsAmong d sets i e

  -- A reconciliation that ends well has written a set that scales enough.
  abbrev Done : Written k → List PoolCall → Type 0
  Done w past = Enough k p d base w.0 past

  sync_current-Does :
      (sets : List SetItem) (legacy : ℕ) (s : PoolState)
      → Sets k p d base sets s.calls
      → IsTotal k p d base s.calls sets legacy
      → Does k p d base Done (sync_current k p d sets legacy) s
  unfolding sync_current list_nominated_claims
  sync_current-Does sets legacy s a b =
      Does-bind k p d base (Pods k base (direct_labels p)) Done (pods_with k (direct_labels p)) _ s
        (pods_with-Does k p d base (direct_labels p) s)
        (λ direct t o g.
          Does-bind k p d base Anything Done (reclaim_direct_pods k d.name direct) _ t
            (reclaim_direct_pods-Does k p d base direct direct t o (All-given _ direct (λ _ m. m)))
            (λ _ u _ h.
              Does-bind k p d base (CurrentPods k p d base sets) Done
                (pods_of_current k (current_set d.name sets)) _ u
                (current-Does sets (current_set d.name sets) u refl)
                (λ pods v c i.
                  Does-bind k p d base (Claims k base (nominated p)) Done
                    (ask (list_claims (nominated p)) (λ cs. k.claims cs (nominated p))) _ v
                    (ask-Does k p d base (list_claims (nominated p))
                      (λ cs. k.claims cs (nominated p)) (Claims k base (nominated p)) v
                      (asking (list_claims (nominated p)) tt)
                      (λ claims from e. (v.calls, (from, same), e)))
                    (λ claims w n j. scale_pool-Does k p d base sets legacy pods claims w (record {
                      listed =
                          Sets-later k p d base
                            (Extends-trans g (Extends-trans h (Extends-trans i j))) a;
                      total =
                          IsTotal-later k p d base
                            (Extends-trans g (Extends-trans h (Extends-trans i j))) b;
                      current = CurrentPods-later k p d base sets j c;
                      nominated = n;
                    })))))

  pub sync_sets-Does : (s : PoolState) → Does k p d base Done (sync_sets k p d) s
  unfolding sync_sets
  sync_sets-Does s =
      Does-bind k p d base (Sets k p d base) Done (owned_sets k p) _ s
        (ask-Does k p d base (list_sets (owned_labels p)) (λ cs. k.sets cs (owned_labels p))
          (Sets k p d base) s (asking (list_sets (owned_labels p)) tt)
          (λ sets from e. (s.calls, (from, same), e)))
        (λ sets t a _.
          Does-bind k p d base (λ n past. IsTotal k p d base past sets n) Done
            (sync_legacy_sets k d.name sets) _ t
            (sync_legacy_sets-Does k p d base sets t
              (All-given _ sets (λ i m other. ((sets, a, m), other))))
            (λ legacy u b g. sync_current-Does sets legacy u (Sets-later k p d base g a) b))

-- A reconciliation of a pool, also one that ends in an error, does only this beside reading, each
-- on what the server answered earlier in the same reconciliation. For a legacy set, a listed one
-- whose name is not the built set's: it writes that the set keeps as many pods as it has live ones
-- in use and gives up the other live ones (a set with no selector in its status counts as having
-- no pods), and deletes it only if it has none in use, no replicas in the status answered to that
-- write and no direct pods listed. It outdates only claims that a live, bound pod of a legacy set,
-- or a direct one of another set, names. It marks as terminating only pods of the current set, the
-- listed one of the built set's name, that are neither in use nor being deleted. The current set
-- it writes with at least as many replicas as its pods in use, the pending claims and the idle
-- pods to keep need, and only if these and the pods in use of all legacy sets are within the
-- limit; and a reconciliation that ends well leaves it so. The condition is that the template has
-- a revision hash.
pub sync-Safe :
    (k : PoolServer) (p : CnPool) (h : String)
    → k.hash (revision_of k.parse_version (sync_cn_set_spec k.parse_version p p.template)) ≡ some h
    → (s : PoolState)
    → Ends
        (λ w t.
          Enough k p (with_hash k.parse_version p h) s.calls w.0 t.calls
          × Follows (IsAllowed k p (with_hash k.parse_version p h) s.calls) s.calls t.calls)
        (λ _ t. Follows (IsAllowed k p (with_hash k.parse_version p h) s.calls) s.calls t.calls)
        (sync k p s)
unfolding sync build_cn_set
sync-Safe k p h e s = rw e (sync_sets-Does k p (with_hash k.parse_version p h) s.calls s same)
