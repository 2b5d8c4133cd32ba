-- ===== src/Pool/Scale/Safe.antt =====
-- What scaling a pool may do to its pods and its set.
use matrixone_operator.Base.{
  if◌then◌else◌, Bool, ltb, ltb→lt, ℕ, ◌+◌, ◌≤◌, ◌<◌, ◌≡◌, refl, ◌⊎◌, inl, inr, true, false, List,
  ◌∷◌, arith,
}
use matrixone_operator.Base.Run.{
  pure, ApiError, not_found, conflict, refused, Error, api, resync, Answer, ok, err, Ends,
  Ends-bind, Ends-map, answer-Ends,
}
use matrixone_operator.Api.Claim.{Claim}
use matrixone_operator.Api.Pod.{Pod}
use matrixone_operator.Base.{All-given}
use matrixone_operator.Base.Run.{Ends-choice}
use matrixone_operator.Pool.State.{
  update, SetSpec, SetItem, CnPool, get_max_pods, update_set, create_set, read_set, PoolState,
  PoolServer, called, Written, write_found, create_owned_or_update,
}
use matrixone_operator.Pool.Scale.{
  PoolSet, take_census, pending_claims, desired_replicas, scale_set, scaled_spec, rescale,
  scale_pool,
}
use matrixone_operator.Pool.Scale.Marks.{Scaled, idle-IsSpare, scale_set-Scaled}

module _ (k : PoolServer) (p : CnPool) (d : SetItem) (pods : List Pod) (claims : List Claim) where
  abbrev pub wanted : ℕ
  wanted = desired_replicas p.max_idle pods claims

  -- The set was read, or is new, and had this specification; and a changed one is sent.
  abbrev Rewrote : SetSpec → PoolState → SetSpec → PoolState → PoolState → Type 0
  Rewrote old s new mid t =
      ((i : SetItem) × (k.set s.calls d.name ≡ ok i)
        × (old ≡ i.spec)
        × (t.calls
            ≡ (if k.deep_equal old new then mid.calls else update_set d.name new ∷ mid.calls)))
      ⊎ ((k.set s.calls d.name ≡ err not_found)
          × (old ≡ d.spec)
          × (t.calls ≡ create_set d.name d.labels new ∷ mid.calls))

  -- What a scaling that succeeds did from `s` to `t`.
  pub record Rescaled (s : PoolState) (w : Written k) (t : PoolState) : Type 0 where
    pub old : SetSpec
    pub set : PoolSet
    pub mid : PoolState
    pub scaled :
        Scaled pods wanted old.replicas (pending_claims claims) (called (read_set d.name) s) mid set
    pub written : w.0 ≡ scaled_spec k.parse_version p set
    pub rewrote : Rewrote old s w.0 mid t

  -- What the closure of the update makes of the old specification.
  abbrev pub Planned : SetSpec → PoolState → SetSpec → PoolState → Type 0
  Planned old s new t =
      (set : PoolSet) × Scaled pods wanted old.replicas (pending_claims claims) s t set
      × (new ≡ scaled_spec k.parse_version p set)

  pub rescale_lem :
      (old : SetSpec) (s : PoolState)
      → Ends
          (λ new t. Planned old s new t)
          (λ _ _. true ≡ false)
          (rescale k p wanted (pending_claims claims) (take_census pods) old s)
  unfolding rescale
  rescale_lem old s =
      Ends-bind {P = λ set t. Scaled pods wanted old.replicas (pending_claims claims) s t set}
        (λ new t. Planned old s new t) (λ _ _. true ≡ false)
        (scale_set k.accepts wanted (pending_claims claims) old.replicas (take_census pods) s) _
        (scale_set-Scaled k.accepts pods wanted (pending_claims claims) old.replicas
          (take_census pods) s (idle-IsSpare pods pods (All-given _ pods (λ _ m. m))))
        (λ set t h. (set, h, refl))

  abbrev IsRefused : Error → Type 0
  IsRefused e = (r : ApiError) × (e ≡ api r)

  can_rescale :
      (old : SetSpec) (s : PoolState)
      → Ends
          (λ new t. Planned old (called (read_set d.name) s) new t)
          (λ e _. IsRefused e)
          (rescale k p wanted
            (pending_claims claims)
            (take_census pods)
            old
            (called (read_set d.name) s))
  can_rescale old s =
      Ends-map {S = PoolState} (λ new t. Planned old (called (read_set d.name) s) new t) _
        (λ _ _. true ≡ false) (λ e _. IsRefused e)
        (rescale k p wanted (pending_claims claims) (take_census pods) old
          (called (read_set d.name) s))
        (λ _ _ h. h) (λ _ _ never. ground (arith, never))
        (rescale_lem old (called (read_set d.name) s))

  written-Rescaled :
      (s : PoolState) (i : Answer SetItem)
      → k.set s.calls d.name ≡ i
      → Ends
          (λ w t. Rescaled s w t)
          (λ e _. IsRefused e)
          (write_found k d
            (rescale k p wanted (pending_claims claims) (take_census pods))
            i
            (called (read_set d.name) s))
  written-Rescaled s (ok i) e =
      Ends-bind {P = λ new mid. Planned i.spec (called (read_set d.name) s) new mid}
        (λ w t. Rescaled s w t) (λ e _. IsRefused e) _ _ (can_rescale i.spec s)
        (λ new mid h. by_change new mid h (k.deep_equal i.spec new) refl)
    where
      made :
          (new : SetSpec) (n : ℕ) (mid t : PoolState)
          → Planned i.spec (called (read_set d.name) s) new mid
          → t.calls
            ≡ (if k.deep_equal i.spec new then mid.calls else update_set d.name new ∷ mid.calls)
          → Rescaled s (new, n) t
      made new n mid t h g = record {
        old = i.spec;
        set = h.0;
        mid = mid;
        scaled = h.1;
        written = h.2;
        rewrote = inl (i, e, refl, g);
      }

      by_change :
          (new : SetSpec) (mid : PoolState)
          → Planned i.spec (called (read_set d.name) s) new mid
          → (b : Bool) → k.deep_equal i.spec new ≡ b
          → Ends
              (λ w t. Rescaled s w t)
              (λ e _. IsRefused e)
              ((if b then pure (new, i.status_replicas) else update k d new) mid)
      by_change new mid h true g = made new i.status_replicas mid mid h (rw g refl)
      by_change new mid h false g =
          answer-Ends _ _ _ (k.set_updated mid.calls d.name new) _
            (λ n _. made new n mid (called (update_set d.name new) mid) h (rw g refl))
            (λ r _. (r, refl))
  written-Rescaled s (err not_found) e =
      Ends-bind {P = λ new mid. Planned d.spec (called (read_set d.name) s) new mid}
        (λ w t. Rescaled s w t) (λ e _. IsRefused e) _ _ (can_rescale d.spec s)
        (λ new mid h.
          answer-Ends _ _ _ (k.set_created mid.calls d.name new) _
            (λ n _. record {
              old = d.spec;
              set = h.0;
              mid = mid;
              scaled = h.1;
              written = h.2;
              rewrote = inr (e, refl, refl);
            })
            (λ r _. (r, refl)))
  written-Rescaled s (err conflict) e = (conflict, refl)
  written-Rescaled s (err refused) e = (refused, refl)

  -- The scaling of a pool's current set fails with no call made, and asks to come back in a
  -- minute, exactly if the pods wanted (those in use, one for each pending claim and the idle ones
  -- to keep) and those of outdated sets exceed the limit; otherwise it fails only with an error of
  -- the server. If it succeeds, it leaves the set, which it writes unless that changes nothing,
  -- with at least as many replicas as wanted, at most the larger of wanted and former ones, and
  -- exactly the wanted ones where the set was smaller; it has marked no pod while a claim was
  -- pending; and whatever updates the server refused, it has marked as terminating only pods of
  -- the set that are neither in use nor being deleted.
  pub scale_pool-Scaled :
      (legacy : ℕ) (s : PoolState)
      → Ends
          (λ w t. (legacy + wanted ≤ get_max_pods p) × Rescaled s w t)
          (λ e t.
            ((get_max_pods p < legacy + wanted) × (t ≡ s) × (e ≡ resync 60))
            ⊎ ((legacy + wanted ≤ get_max_pods p) × IsRefused e))
          (scale_pool k p d legacy pods claims s)
  unfolding scale_pool create_owned_or_update
  scale_pool-Scaled legacy s =
      Ends-choice _ _ (ltb (get_max_pods p) (legacy + wanted)) _ _ s
        (λ over. inl (ltb→lt _ _ over, refl, refl))
        (λ within.
          Ends-map _ _ _ _
            (write_found k d (rescale k p wanted (pending_claims claims) (take_census pods))
              (k.set s.calls d.name) (called (read_set d.name) s))
            (λ w t h. (ground (arith, within), h)) (λ e t h. inr (ground (arith, within), h))
            (written-Rescaled s (k.set s.calls d.name) refl))
