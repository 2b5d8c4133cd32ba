-- ===== src/Pool/Sync/Scaling.antt =====
-- The scaling of a pool's current set within a reconciliation.
use matrixone_operator.Base.{◌≤◌, ltb, ℕ, ◌+◌, ◌≡◌, sym, subst, List, [], ◌∷◌, arith}
use matrixone_operator.Base.Run.{Ends-map}
use matrixone_operator.Api.Keys.{pool_name_label}
use matrixone_operator.Api.Claim.{Claim}
use matrixone_operator.Api.Pod.{Pod}
use matrixone_operator.Base.Trace.{
  ◌⊑◌, Extends, same, more, Extends-trans, Extends-map, Follows, start, next,
}
use matrixone_operator.Pool.State.{
  SetSpec, SetItem, CnPool, get_max_pods, PoolCall, PoolServer, PoolState, create_owned_or_update,
  update_set, create_set,
}
use matrixone_operator.Pool.Scale.{
  pending_claims, take_census, PoolSet, desired_replicas, scaled_spec, rescale, scale_pool,
}
use matrixone_operator.Pool.Scale.Marks.{IsMarking, marking}
use matrixone_operator.Pool.Scale.Safe.{rescale_lem}
use matrixone_operator.Pool.Legacy.Evidence.{
  Claims, Sets, Sets-later, IsTotal, IsTotal-later, CurrentPods, CurrentPods-later, IsEnough,
  IsEnough-later,
}
use matrixone_operator.Pool.Legacy.Allowed.{IsAllowed, marking as marking_one, scaling, making}
use matrixone_operator.Pool.Legacy.Kept.{Does, Does-ite}
use matrixone_operator.Pool.Legacy.Writes.{create_owned_or_update-Does}

module _ (k : PoolServer) (p : CnPool) (d : SetItem) (base : List PoolCall) where
  mark_lem :
      (sets : List SetItem) (pods : List Pod) (xs ys : List PoolCall)
      → Sets k p d base sets xs
      → CurrentPods k p d base sets pods xs
      → Extends (IsMarking pods) xs ys
      → Follows (IsAllowed k p d base) xs ys
  mark_lem sets pods xs _ l o same = start
  mark_lem sets pods xs _ l o (more _ cs (marking q h) e) =
      next _ cs
        (marking_one q sets pods (Sets-later k p d base (Extends-map (λ _ _. tt) e) l)
          (CurrentPods-later k p d base sets (Extends-map (λ _ _. tt) e) o) h)
        (mark_lem sets pods xs cs l o e)

  -- The specification written scales enough.
  abbrev pub Enough : SetSpec → List PoolCall → Type 0
  Enough new past =
      (set : PoolSet) × IsEnough k p d base set past × (new ≡ scaled_spec k.parse_version p set)

  -- What a scaling begins with.
  pub record IsReady (sets : List SetItem) (legacy : ℕ) (pods : List Pod) (claims : List Claim)
      (past : List PoolCall) : Type 0 where
    pub listed : Sets k p d base sets past
    pub total : IsTotal k p d base past sets legacy
    pub current : CurrentPods k p d base sets pods past
    pub nominated : Claims k base ((pool_name_label, p.name) ∷ []) claims past

  rescale-Does :
      (sets : List SetItem) (legacy : ℕ) (pods : List Pod) (claims : List Claim) (old : SetSpec)
      (t : PoolState)
      → IsReady sets legacy pods claims t.calls
      → legacy + desired_replicas p.max_idle pods claims ≤ get_max_pods p
      → Does k p d base Enough
          (rescale k p
            (desired_replicas p.max_idle pods claims)
            (pending_claims claims)
            (take_census pods)
            old)
          t
  rescale-Does sets legacy pods claims old t r within from =
      Ends-map _ _ _ _
        (rescale k p (desired_replicas p.max_idle pods claims) (pending_claims claims)
          (take_census pods) old t)
        (λ new u h. (
          (
            h.0,
            IsEnough-later k p d base (Extends-map (λ _ _. tt) h.1.marks) (record {
              sets = sets;
              legacy = legacy;
              pods = pods;
              claims = claims;
              listed = r.listed;
              total = r.total;
              current = r.current;
              nominated = r.nominated;
              enough = h.1.enough;
              within = within;
            }),
            h.2,
          ),
          mark_lem sets pods t.calls u.calls r.listed r.current h.1.marks,
        ))
        (λ _ _ never. ground (arith, never)) (rescale_lem k p d pods claims old t)

  IsReady-later :
      (sets : List SetItem) (legacy : ℕ) (pods : List Pod) (claims : List Claim)
      (xs ys : List PoolCall)
      → xs ⊑ ys
      → IsReady sets legacy pods claims xs
      → IsReady sets legacy pods claims ys
  IsReady-later sets legacy pods claims xs ys g r = record {
    listed = Sets-later k p d base g r.listed;
    total = IsTotal-later k p d base g r.total;
    current = CurrentPods-later k p d base sets g r.current;
    nominated = (r.nominated.0, (r.nominated.1.0, Extends-trans r.nominated.1.1 g), r.nominated.2);
  }

  pub scale_pool-Does :
      (sets : List SetItem) (legacy : ℕ) (pods : List Pod) (claims : List Claim) (s : PoolState)
      → IsReady sets legacy pods claims s.calls
      → Does k p d base (λ w past. Enough w.0 past) (scale_pool k p d legacy pods claims) s
  unfolding scale_pool
  scale_pool-Does sets legacy pods claims s r =
      Does-ite k p d base (λ w past. Enough w.0 past)
        (ltb (get_max_pods p) (legacy + desired_replicas p.max_idle pods claims)) _ _ s
        (λ _ _. start)
        (λ within from.
          Ends-map _ _ _ _
            (create_owned_or_update k d
              (rescale k p (desired_replicas p.max_idle pods claims) (pending_claims claims)
                (take_census pods))
              s)
            (λ w t h. (h.0.0, h.1)) (λ _ _ h. h)
            (create_owned_or_update-Does k p d base Enough d
              (rescale k p (desired_replicas p.max_idle pods claims) (pending_claims claims)
                (take_census pods))
              s
              (λ old t g.
                rescale-Does sets legacy pods claims old t
                  (IsReady-later sets legacy pods claims s.calls t.calls g r)
                  (ground (arith, within)))
              (λ new t h.
                subst (λ v. IsAllowed k p d base t.calls (update_set d.name v)) (sym h.2)
                  (scaling h.0 h.1))
              (λ new t h.
                subst (λ v. IsAllowed k p d base t.calls (create_set d.name d.labels v)) (sym h.2)
                  (making h.0 h.1))
              (λ new xs ys g h. (h.0, IsEnough-later k p d base g h.1, h.2)) from))
