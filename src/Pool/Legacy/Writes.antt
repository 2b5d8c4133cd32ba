-- ===== src/Pool/Legacy/Writes.antt =====
-- Writing a set of a pool, where what is written is allowed.
use matrixone_operator.Base.{refl, ◌≡◌, inl, inr, List, ◌∷◌}
use matrixone_operator.Base.Run.{
  not_found, conflict, refused, Answer, ok, err, M, ◌>>=◌, pure, Ends,
}
use matrixone_operator.Base.Trace.{◌⊑◌, same, more, Follows, start, next}
use matrixone_operator.Pool.State.{
  update_changed, PoolCall, ask, SetSpec, SetItem, CnPool, read_set, update_set, create_set,
  PoolServer, PoolState, called, Written, write_found, create_owned_or_update, update, create,
}
use matrixone_operator.Pool.Legacy.Evidence.{Status}
use matrixone_operator.Pool.Legacy.Allowed.{IsAllowed, asking}
use matrixone_operator.Pool.Legacy.Kept.{Does, Does-bind, Does-ite, ask-Does, after_question}

module _ (k : PoolServer) (p : CnPool) (d : SetItem) (base : List PoolCall) where
  -- Writing a set, where what is written is allowed.
  pub create_owned_or_update-Does :
      (Q : SetSpec → List PoolCall → Type 0) (i : SetItem) (mutate : SetSpec → M PoolState SetSpec)
      (s : PoolState)
      → ((old : SetSpec) (t : PoolState) → s.calls ⊑ t.calls → Does k p d base Q (mutate old) t)
      → ((new : SetSpec) (t : PoolState)
          → Q new t.calls
          → IsAllowed k p d base t.calls (update_set i.name new))
      → ((new : SetSpec) (t : PoolState)
          → Q new t.calls
          → IsAllowed k p d base t.calls (create_set i.name i.labels new))
      → ((new : SetSpec) (xs ys : List PoolCall) → xs ⊑ ys → Q new xs → Q new ys)
      → Does k p d base
          (λ w past. Q w.0 past × Status k base i w.1 past)
          (create_owned_or_update k i mutate)
          s
  unfolding create_owned_or_update
  create_owned_or_update-Does Q i mutate s h up new later from = go (k.set s.calls i.name) refl
    where
      R : Written k → List PoolCall → Type 0
      R w past = Q w.0 past × Status k base i w.1 past

      grown : s.calls ⊑ read_set i.name ∷ s.calls
      grown = more (read_set i.name) s.calls tt same

      go :
          (a : Answer SetItem)
          → k.set s.calls i.name ≡ a
          → Ends
              (λ w t. R w t.calls × Follows (IsAllowed k p d base) s.calls t.calls)
              (λ _ t. Follows (IsAllowed k p d base) s.calls t.calls)
              (write_found k i mutate a (called (read_set i.name) s))
      go (ok found) e =
          after_question k p d base (read_set i.name) R
            (mutate found.spec >>= update_changed k i found) s (asking (read_set i.name) tt)
            (Does-bind k p d base Q R (mutate found.spec) (update_changed k i found)
              (called (read_set i.name) s) (h found.spec (called (read_set i.name) s) grown)
              (λ spec t q g.
                Does-ite k p d base R (k.deep_equal found.spec spec)
                  (pure (spec, found.status_replicas)) (update k i spec) t
                  (λ _ _. ((q, (s.calls, inr (found, (from, g), e, refl))), start))
                  (λ _.
                    Does-bind k p d base (λ n past. Q spec past × Status k base i n past) R
                      (ask (update_set i.name spec) (λ cs. k.set_updated cs i.name spec))
                      (λ n. pure (spec, n)) t
                      (ask-Does k p d base (update_set i.name spec)
                        (λ cs. k.set_updated cs i.name spec)
                        (λ n past. Q spec past × Status k base i n past) t (up spec t q)
                        (λ n f e. (
                          later spec t.calls _ (more _ t.calls tt same) q,
                          (t.calls, inl (spec, inr ((f, same), e))),
                        )))
                      (λ n u g _ _. (g, start)))))
            from
      go (err not_found) e =
          after_question k p d base (read_set i.name) R (mutate i.spec >>= create k i) s
            (asking (read_set i.name) tt)
            (Does-bind k p d base Q R (mutate i.spec) (create k i) (called (read_set i.name) s)
              (h i.spec (called (read_set i.name) s) grown)
              (λ spec t q _.
                Does-bind k p d base (λ n past. Q spec past × Status k base i n past) R
                  (ask (create_set i.name i.labels spec) (λ cs. k.set_created cs i.name spec))
                  (λ n. pure (spec, n)) t
                  (ask-Does k p d base (create_set i.name i.labels spec)
                    (λ cs. k.set_created cs i.name spec)
                    (λ n past. Q spec past × Status k base i n past) t (new spec t q)
                    (λ n f e. (
                      later spec t.calls _ (more _ t.calls tt same) q,
                      (t.calls, inl (spec, inl ((f, same), e))),
                    )))
                  (λ n u g _ _. (g, start))))
            from
      go (err conflict) e = next (read_set i.name) s.calls (asking (read_set i.name) tt) start
      go (err refused) e = next (read_set i.name) s.calls (asking (read_set i.name) tt) start
