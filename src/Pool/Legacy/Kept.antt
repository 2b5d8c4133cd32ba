-- ===== src/Pool/Legacy/Kept.antt =====
-- The sets and pods of former revisions: a legacy set keeps its pods in use, and goes once it has none.
use matrixone_operator.Base.{
  if◌then◌else◌, Bool, ◌=s◌, All, suc, ◌+◌, String, ◌≡◌, refl, ap, ◌∙◌, inl, inr, true, false, not,
  Option, none, some, List, [], ◌∷◌, arith,
}
use matrixone_operator.Base.Map.{Map, get}
use matrixone_operator.Base.Run.{
  pure, ◌>>=◌, not_found, conflict, refused, Answer, ok, err, M, Ends, Ends-map, answer,
}
use matrixone_operator.Api.Keys.{phase_bound, pod_claimed_by_label, cn_pod_phase_label}
use matrixone_operator.Api.Pod.{Pod}
use matrixone_operator.Base.Trace.{
  ◌⊑◌, same, more, Extends-trans, Follows, start, next, Follows-trans, Gives, Gives-bind, Gives-ite,
}
use matrixone_operator.Pool.Order.{pod_in_use}
use matrixone_operator.Pool.State.{
  SetItem, CnPool, PoolCall, list_pods, read_claim, outdate_claim, PoolServer, PoolState, called,
  ask,
}
use matrixone_operator.Pool.Legacy.{
  Walk, outdate, on_claim, reclaim_named, reclaim_legacy_cn_claim, pods_with, pods_selected,
  pods_of_set, walk,
}
use matrixone_operator.Pool.Legacy.Evidence.{kept, Pods, PodsOf, IsOld, IsOld-later}
use matrixone_operator.Pool.Legacy.Allowed.{IsAllowed, asking, outdating}

-- A step of the walk, for each kind of pod.
pub kept-deleted :
    (q : Pod) (qs : List Pod) → q.is_deleted ≡ true → (w : Walk) → w ≡ kept qs → w ≡ kept (q ∷ qs)
kept-deleted q qs e w h = rw e h

pub kept-used :
    (q : Pod) (qs : List Pod) (w : Walk)
    → q.is_deleted ≡ false
    → pod_in_use q ≡ true
    → w ≡ kept qs
    → record w { replicas = w.replicas + 1 } ≡ kept (q ∷ qs)
unfolding pod_in_use
kept-used q qs w e f h =
    rw (e, f)
      (ap (λ n. record { replicas = n; to_delete = w.to_delete }) (omega arith)
        ∙ ap (λ (v : Walk). record { replicas = suc v.replicas; to_delete = v.to_delete }) h)

pub kept-spare :
    (q : Pod) (qs : List Pod) (w : Walk)
    → q.is_deleted ≡ false
    → pod_in_use q ≡ false
    → w ≡ kept qs
    → record w { to_delete = q.name ∷ w.to_delete } ≡ kept (q ∷ qs)
unfolding pod_in_use
kept-spare q qs w e f h =
    rw (e, f)
      (ap (λ (v : Walk). record { replicas = v.replicas; to_delete = q.name ∷ v.to_delete }) h)

abbrev pub Anything {ℓ} : {A : Type ℓ} → A → List PoolCall → Type 0
Anything _ _ = Unit {0}

module _ (k : PoolServer) (p : CnPool) (d : SetItem) (base : List PoolCall) where
  -- A step, in a run that began after `base`, that only does what is allowed.
  abbrev pub Does {ℓ} :
      {A : Type ℓ} → (A → List PoolCall → Type 0) → M PoolState A → PoolState → Type 0
  Does Q m s = Gives PoolState.calls (IsAllowed k p d base) base Q m s

  pub Does-bind {ℓ κ} :
      {A : Type ℓ} {B : Type κ} (Q : A → List PoolCall → Type 0) (R : B → List PoolCall → Type 0)
      (m : M PoolState A) (f : A → M PoolState B) (s : PoolState)
      → Does Q m s
      → ((a : A) (t : PoolState) → Q a t.calls → s.calls ⊑ t.calls → Does R (f a) t)
      → Does R (m >>= f) s
  Does-bind Q R m f s h g = Gives-bind PoolState.calls (IsAllowed k p d base) base Q R m f s h g

  pub Does-ite {ℓ} :
      {A : Type ℓ} (Q : A → List PoolCall → Type 0) (b : Bool) (m f : M PoolState A) (s : PoolState)
      → (b ≡ true → Does Q m s)
      → (b ≡ false → Does Q f s)
      → Does Q (if b then m else f) s
  Does-ite Q b m f s h g = Gives-ite PoolState.calls (IsAllowed k p d base) base Q b m f s h g

  pub ask-Does {ℓ} :
      {A : Type ℓ} (c : PoolCall) (f : List PoolCall → Answer A) (Q : A → List PoolCall → Type 0)
      (s : PoolState)
      → IsAllowed k p d base s.calls c
      → ((a : A) → base ⊑ s.calls → f s.calls ≡ ok a → Q a (c ∷ s.calls))
      → Does Q (ask c f) s
  ask-Does {A} c f Q s h good from = go (f s.calls) refl
    where
      go :
          (a : Answer A)
          → f s.calls ≡ a
          → Ends
              (λ a t. Q a t.calls × Follows (IsAllowed k p d base) s.calls t.calls)
              (λ _ t. Follows (IsAllowed k p d base) s.calls t.calls)
              (answer a (called c s))
      go (ok a) e = (good a from e, next c s.calls h start)
      go (err r) e = next c s.calls h start

  -- A question, and what follows it.
  pub after_question :
      {A : Type 0} (c : PoolCall) (Q : A → List PoolCall → Type 0) (m : M PoolState A)
      (s : PoolState)
      → IsAllowed k p d base s.calls c
      → Does Q m (called c s)
      → base ⊑ s.calls
      → Ends
          (λ a t. Q a t.calls × Follows (IsAllowed k p d base) s.calls t.calls)
          (λ _ t. Follows (IsAllowed k p d base) s.calls t.calls)
          (m (called c s))
  after_question c Q m s h g from =
      Ends-map _ (λ a t. Q a t.calls × Follows (IsAllowed k p d base) s.calls t.calls) _
        (λ _ t. Follows (IsAllowed k p d base) s.calls t.calls) (m (called c s))
        (λ _ t e. (e.0, Follows-trans (next c s.calls h start) e.1))
        (λ _ t e. Follows-trans (next c s.calls h start) e)
        (g (Extends-trans from (more c s.calls tt same)))

  reclaim_named-Does :
      (q : Pod) (s : PoolState)
      → IsOld k p d base q s.calls
      → q.is_deleted ≡ false
      → (get cn_pod_phase_label q.labels =s phase_bound) ≡ true
      → Does Anything (reclaim_named k (get pod_claimed_by_label q.labels)) s
  reclaim_named-Does q s old live bound from = go (k.claim s.calls name)
    where
      name : String
      name = get pod_claimed_by_label q.labels

      go :
          (a : Answer (Unit {0}))
          → Ends
              (λ _ t. Unit {0} × Follows (IsAllowed k p d base) s.calls t.calls)
              (λ _ t. Follows (IsAllowed k p d base) s.calls t.calls)
              (on_claim k name a (called (read_claim name) s))
      go (ok _) =
          after_question (read_claim name) Anything (outdate k name) s (asking (read_claim name) tt)
            (ask-Does (outdate_claim name) (λ cs. k.claim_outdated cs name) Anything
              (called (read_claim name) s)
              (outdating q (IsOld-later k p d base (more (read_claim name) s.calls tt same) old)
                live bound)
              (λ _ _ _. tt))
            from
      go (err not_found) = next (read_claim name) s.calls (asking (read_claim name) tt) start
      go (err conflict) = next (read_claim name) s.calls (asking (read_claim name) tt) start
      go (err refused) = next (read_claim name) s.calls (asking (read_claim name) tt) start

  pub reclaim-Does :
      (q : Pod) (s : PoolState)
      → IsOld k p d base q s.calls
      → q.is_deleted ≡ false
      → Does Anything (reclaim_legacy_cn_claim k q) s
  unfolding reclaim_legacy_cn_claim
  reclaim-Does q s old live =
      Does-ite Anything (not (get cn_pod_phase_label q.labels =s phase_bound)) _ _ s
        (λ _ _. (tt, start))
        (λ bound.
          Does-ite Anything (get pod_claimed_by_label q.labels =s "") _ _ s (λ _ _. (tt, start))
            (λ _. reclaim_named-Does q s old live (ground (arith, bound))))

  pub pods_with-Does :
      (ls : Map) (s : PoolState) → Does (λ pods past. Pods k base ls pods past) (pods_with k ls) s
  pods_with-Does ls s =
      ask-Does (list_pods ls) (λ cs. k.pods cs ls) (λ pods past. Pods k base ls pods past) s
        (asking (list_pods ls) tt) (λ pods from e. (s.calls, (from, same), e))

  selected-Does :
      (i : SetItem) (o : Option Map) (s : PoolState)
      → k.parse_selector i.label_selector ≡ o
      → Does (λ pods past. PodsOf k base i pods past) (pods_selected k o) s
  selected-Does i none s e from = start
  selected-Does i (some ls) s e from =
      ask-Does (list_pods ls) (λ cs. k.pods cs ls) (λ pods past. PodsOf k base i pods past) s
        (asking (list_pods ls) tt) (λ pods from g. inr (ls, e, (s.calls, (from, same), g))) from

  pub pods_of_set-Does :
      (i : SetItem) (s : PoolState)
      → Does (λ pods past. PodsOf k base i pods past) (pods_of_set k i) s
  unfolding pods_of_set
  pods_of_set-Does i s =
      Does-ite (λ pods past. PodsOf k base i pods past) (i.label_selector =s "") _ _ s
        (λ e _. (inl (e, refl), start)) (λ _. selected-Does i _ s refl)

  pub still-IsOld :
      (qs : List Pod) (s t : PoolState)
      → s.calls ⊑ t.calls
      → All (λ q. IsOld k p d base q s.calls) qs
      → All (λ q. IsOld k p d base q t.calls) qs
  still-IsOld [] s t g h = tt
  still-IsOld (q ∷ qs) s t g h = (IsOld-later k p d base g h.0, still-IsOld qs s t g h.1)

  abbrev one_more : Walk → M PoolState Walk
  one_more w = pure (record w { replicas = w.replicas + 1 })

  abbrev one_spare : Pod → Walk → M PoolState Walk
  one_spare q w = pure (record w { to_delete = q.name ∷ w.to_delete })

  pub walk-Does :
      (qs : List Pod) (s : PoolState)
      → All (λ q. IsOld k p d base q s.calls) qs
      → Does (λ w _. w ≡ kept qs) (walk k qs) s
  unfolding walk
  walk-Does [] s h from = (refl, start)
  walk-Does (q ∷ qs) s h from =
      Does-ite (λ w _. w ≡ kept (q ∷ qs)) q.is_deleted _ _ s
        (λ e _.
          Ends-map _ _ _ _ (walk k qs s) (λ w t g. (kept-deleted q qs e w g.0, g.1)) (λ _ _ g. g)
            (walk-Does qs s h.1 from))
        (λ e.
          Does-ite (λ w _. w ≡ kept (q ∷ qs)) (pod_in_use q) _ _ s
            (λ f.
              Does-bind Anything (λ w _. w ≡ kept (q ∷ qs)) (reclaim_legacy_cn_claim k q)
                (λ _. walk k qs >>= one_more) s (reclaim-Does q s h.0 e)
                (λ _ t _ g.
                  Does-bind (λ w _. w ≡ kept qs) (λ w _. w ≡ kept (q ∷ qs)) (walk k qs) one_more t
                    (walk-Does qs t (still-IsOld qs s t g h.1))
                    (λ w u g _ _. (kept-used q qs w e f g, start))))
            (λ f.
              Does-bind (λ w _. w ≡ kept qs) (λ w _. w ≡ kept (q ∷ qs)) (walk k qs) (one_spare q) s
                (walk-Does qs s h.1) (λ w u g _ _. (kept-spare q qs w e f g, start))))
        from
