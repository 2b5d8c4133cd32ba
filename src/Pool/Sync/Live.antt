-- ===== src/Pool/Sync/Live.antt =====
-- What a reconciliation of a pool does where every call succeeds.
use matrixone_operator.Base.{
  ltb, ◌=s◌, ℕ, ◌+◌, String, ◌≡◌, refl, sym, subst, true, false, ◌||◌, Option, none, some, List, [],
  ◌∷◌, arith,
}
use matrixone_operator.Base.Run.{resync, M, ◌>>=◌, pure, Ends, Ends-bind, Ends-map, answer}
use matrixone_operator.Api.Keys.{instance_label_key}
use matrixone_operator.Api.Claim.{Claim}
use matrixone_operator.Api.Pod.{Pod}
use matrixone_operator.Base.Run.{Ends-choice}
use matrixone_operator.Base.Map.{Map, get}
use matrixone_operator.Base.Trace.{same, Extends-trans, Extends-map}
use matrixone_operator.Pool.State.{
  SetSpec, update_changed, SetItem, CnPool, get_max_pods, list_sets, list_claims, read_set,
  update_set, PoolServer, PoolState, Written, called, update, write_found, create_owned_or_update,
}
use matrixone_operator.Pool.Build.{
  owned_labels, sync_cn_set_spec, revision_of, with_hash, build_cn_set,
}
use matrixone_operator.Pool.Legacy.{
  reclaim_legacy_cn_claim, pods_with, pods_of_set, sync_legacy_sets, reclaim_direct_pods,
  direct_labels,
}
use matrixone_operator.Pool.Scale.{
  take_census, pending_claims, desired_replicas, rescale, scale_pool,
}
use matrixone_operator.Pool.Scale.Safe.{wanted, rescale_lem, Planned}
use matrixone_operator.Pool.Sync.{
  nominated, list_nominated_claims, pods_of_current, current_set, sync_current, sync_sets, sync,
  owned_sets,
}
use matrixone_operator.Pool.Legacy.Runs.{
  IsServing, Grows, grown, Runs, Runs-bind, Runs-ask, Runs-pure, Runs-ite, Runs-map, Runs-Ends,
}
use matrixone_operator.Pool.Legacy.Gone.{pods_of, AllGone, AllGone-Grows}
use matrixone_operator.Pool.Legacy.Drained.{
  reclaim-Runs, pods_with-Runs, pods_of_set-Runs, sync_legacy_sets-Runs,
}

module _ (k : PoolServer) (p : CnPool) (sets : List SetItem) (pods : Map → List Pod)
    (status : String → ℕ) (serves : IsServing k p sets pods status) where
  reclaim_direct_pods-Runs :
      (current : String) (qs : List Pod) (s : PoolState)
      → Runs (reclaim_direct_pods k current qs) s (λ _ _. Unit {0})
  unfolding reclaim_direct_pods
  reclaim_direct_pods-Runs current [] s = Runs-pure tt s (λ _ _. Unit {0}) tt
  reclaim_direct_pods-Runs current (q ∷ qs) s =
      Runs-ite (q.is_deleted || get instance_label_key q.labels =s current) _ _ s (λ _ _. Unit {0})
        (λ _. reclaim_direct_pods-Runs current qs s)
        (λ _.
          Runs-bind (reclaim_legacy_cn_claim k q) _ s (λ _ _. Unit {0}) (λ _ _. Unit {0})
            (reclaim-Runs k p sets pods status serves q s)
            (λ _ t _ _. reclaim_direct_pods-Runs current qs t))

  pods_of_current-Runs :
      (o : Option SetItem) (s : PoolState) → Runs (pods_of_current k o) s (λ _ _. Unit {0})
  pods_of_current-Runs none s = Runs-pure [] s (λ _ _. Unit {0}) tt
  pods_of_current-Runs (some i) s =
      Runs-map (pods_of_set k i) s (λ ps _. ps ≡ pods_of k pods status i) (λ _ _. Unit {0})
        (pods_of_set-Runs k p sets pods status serves i s) (λ _ _ _ _. tt)

  -- What comes before the scaling of the current set.
  list_nominated_claims-Runs :
      (s : PoolState) → Runs (list_nominated_claims k p) s (λ _ _. Unit {0})
  unfolding list_nominated_claims
  list_nominated_claims-Runs s =
      Runs-ask (list_claims (nominated p)) (λ cs. k.claims cs (nominated p)) s
        (serves.claims_listed s.calls (nominated p)).0 (λ _ _. Unit {0})
        (serves.claims_listed s.calls (nominated p)).1 tt

  scale_pool-Ends :
      (d : SetItem) (legacy : ℕ) (ps : List Pod) (claims : List Claim) (s : PoolState)
      → Ends
          (λ _ t. Grows s t)
          (λ e t. (e ≡ resync 60) × Grows s t)
          (scale_pool k p d legacy ps claims s)
  unfolding scale_pool create_owned_or_update
  scale_pool-Ends d legacy ps claims s =
      Ends-choice _ _ (ltb (get_max_pods p) (legacy + desired_replicas p.max_idle ps claims)) _ _ s
        (λ _. (refl, same))
        (λ _.
          subst
            (λ a.
              Ends (λ _ t. Grows s t) (λ e t. (e ≡ resync 60) × Grows s t)
                (write_found k d
                  (rescale k p (wanted k p d ps claims) (pending_claims claims) (take_census ps)) a
                  (called (read_set d.name) s)))
            (sym (serves.set_found s.calls d.name).1)
            (Ends-bind
              {P = λ new mid.
                Planned k p d ps claims (SetItem.spec found) (called (read_set d.name) s) new mid}
              (λ _ t. Grows s t) (λ e t. (e ≡ resync 60) × Grows s t) _ (update_changed k d found)
              (Ends-map {S = PoolState}
                (λ new mid.
                  Planned k p d ps claims (SetItem.spec found) (called (read_set d.name) s) new mid)
                _ (λ _ _. true ≡ false) (λ e t. (e ≡ resync 60) × Grows s t)
                (rescale k p (wanted k p d ps claims) (pending_claims claims) (take_census ps)
                  (SetItem.spec found) (called (read_set d.name) s))
                (λ _ _ h. h) (λ _ _ never. ground (arith, never))
                (rescale_lem k p d ps claims (SetItem.spec found) (called (read_set d.name) s)))
              (λ new mid h.
                Ends-choice {A = Written k} (λ _ t. Grows s t) (λ e t. (e ≡ resync 60) × Grows s t)
                  (k.deep_equal (SetItem.spec found) new)
                  (pure (new, SetItem.status_replicas found)) (update k d new) mid
                  (λ _. marked new mid h)
                  (λ _.
                    subst
                      (λ a.
                        Ends {A = Written k} (λ _ t. Grows s t) (λ e t. (e ≡ resync 60) × Grows s t)
                          ((answer a >>= λ n. pure (new, n)) (called (update_set d.name new) mid)))
                      (sym (serves.set_written mid.calls d.name new))
                      (Extends-trans (marked new mid h) (grown (update_set d.name new) mid))))))
    where
      found : SetItem
      found = (serves.set_found s.calls d.name).0

      marked :
          (new : SetSpec) (mid : PoolState)
          → Planned k p d ps claims (SetItem.spec found) (called (read_set d.name) s) new mid
          → Grows s mid
      marked new mid h =
          Extends-trans (grown (read_set d.name) s) (Extends-map (λ _ _. tt) h.1.marks)

  kept_by {ℓ} :
      {A : Type ℓ} (d : SetItem) (m : M PoolState A) (t : PoolState)
      → AllGone k pods status d.name sets t
      → Runs m t (λ _ _. Unit {0})
      → Runs m t (λ _ u. AllGone k pods status d.name sets u)
  kept_by d m t h r =
      Runs-map m t (λ _ _. Unit {0}) (λ _ u. AllGone k pods status d.name sets u) r
        (λ _ u _ g. AllGone-Grows k pods status d.name sets t u g h)

  -- From the walk over the direct pods on.
  sync_current-Ends :
      (d : SetItem) (legacy : ℕ) (s : PoolState)
      → AllGone k pods status d.name sets s
      → Ends
          (λ _ t. AllGone k pods status d.name sets t)
          (λ e t. (e ≡ resync 60) × AllGone k pods status d.name sets t)
          (sync_current k p d sets legacy s)
  unfolding sync_current
  sync_current-Ends d legacy s h =
      Runs-Ends (pods_with k (direct_labels p)) _ s (λ _ t. AllGone k pods status d.name sets t) _ _
        (kept_by d (pods_with k (direct_labels p)) s h (
          Runs-map _ s _ _ (pods_with-Runs k p sets pods status serves (direct_labels p) s)
            (λ _ _ _ _. tt)))
        (λ direct t h.
          Runs-Ends (reclaim_direct_pods k d.name direct) _ t
            (λ _ u. AllGone k pods status d.name sets u) _ _
            (kept_by d (reclaim_direct_pods k d.name direct) t h
              (reclaim_direct_pods-Runs d.name direct t))
            (λ _ t h.
              Runs-Ends (pods_of_current k (current_set d.name sets)) _ t
                (λ _ u. AllGone k pods status d.name sets u) _ _
                (kept_by d (pods_of_current k (current_set d.name sets)) t h
                  (pods_of_current-Runs (current_set d.name sets) t))
                (λ ps t h.
                  Runs-Ends (list_nominated_claims k p) _ t
                    (λ _ u. AllGone k pods status d.name sets u) _ _
                    (kept_by d (list_nominated_claims k p) t h (list_nominated_claims-Runs t))
                    (λ claims t h.
                      Ends-map _ _ _ _ (scale_pool k p d legacy ps claims t)
                        (λ _ u g. AllGone-Grows k pods status d.name sets t u g h)
                        (λ e u g. (g.0, AllGone-Grows k pods status d.name sets t u g.1 h))
                        (scale_pool-Ends d legacy ps claims t)))))

  -- Where every call succeeds and listing is answered alike throughout, a reconciliation of a pool
  -- whose template has a revision hash ends well, or asks to come back in a minute; and either way
  -- it has deleted every legacy set that is drained: with no live pod in use, no replicas in its
  -- status and no direct pods.
  pub sync-AllGone :
      (h : String)
      → k.hash (revision_of k.parse_version (sync_cn_set_spec k.parse_version p p.template))
        ≡ some h
      → (s : PoolState)
      → Ends
          (λ _ t. AllGone k pods status (SetItem.name (with_hash k.parse_version p h)) sets t)
          (λ e t.
            (e ≡ resync 60)
            × AllGone k pods status (SetItem.name (with_hash k.parse_version p h)) sets t)
          (sync k p s)
  unfolding sync build_cn_set sync_sets
  sync-AllGone h e s = rw e (
      Runs-Ends (owned_sets k p) _ s (λ is _. is ≡ sets) _ _
        (Runs-ask (list_sets (owned_labels p)) (λ cs. k.sets cs (owned_labels p)) s sets
          (λ is _. is ≡ sets) (serves.sets_listed s.calls) refl)
        (λ is t eq.
          subst
            (λ x.
              Ends {A = Written k}
                (λ _ u. AllGone k pods status (SetItem.name (with_hash k.parse_version p h)) sets u)
                (λ e u.
                  (e ≡ resync 60)
                  × AllGone k pods status (SetItem.name (with_hash k.parse_version p h)) sets u)
                ((sync_legacy_sets k (SetItem.name (with_hash k.parse_version p h)) x >>= λ legacy.
                    sync_current k p (with_hash k.parse_version p h) x legacy)
                  t))
            (sym eq)
            (Runs-Ends (sync_legacy_sets k (SetItem.name (with_hash k.parse_version p h)) sets) _ t
              (λ _ u. AllGone k pods status (SetItem.name (with_hash k.parse_version p h)) sets u) _
              _
              (sync_legacy_sets-Runs k p sets pods status serves
                (SetItem.name (with_hash k.parse_version p h)) sets t)
              (λ legacy u g. sync_current-Ends (with_hash k.parse_version p h) legacy u g))))
