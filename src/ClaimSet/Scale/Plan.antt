-- ===== src/ClaimSet/Scale/Plan.antt =====
-- scale: what it decides, on every branch.
use matrixone_operator.Base.{
  ltb, ◌==◌, if◌then◌else◌, Bool-cases, length, count_if, ℕ, ◌+◌, ◌-◌, ◌≤◌, ◌<◌, String, ◌≡◌, refl,
  sym, ap, ◌∙◌, subst, inl, inr, false, not, ◌&&◌, List, [], ◌∷◌, arith,
}
use matrixone_operator.Base.Run.{Run, done, Ends, Ends-map}
use matrixone_operator.Api.Claim.{Claim, is_ready, is_updated}
use matrixone_operator.ClaimSet.Ids.{gen_available_ids}
use matrixone_operator.ClaimSet.Ids.Fresh.{Fresh}
use matrixone_operator.ClaimSet.State.{SetState, Server}
use matrixone_operator.ClaimSet.Scale.{
  used_ids, with_surge, scale_in, scale_out, scale_to, scale, create_all,
}
use matrixone_operator.ClaimSet.Scale.In.{ScaledIn, scale_in-ScaledIn}
use matrixone_operator.ClaimSet.Scale.Out.{scale_out-Created}
use matrixone_operator.ClaimSet.Scale.Made.{Created}

-- The ready claims of the current template and those of an older one.
abbrev pub updated_count : List Claim → ℕ
updated_count = count_if (λ c. is_ready c && is_updated c)

abbrev pub outdated_count : List Claim → ℕ
outdated_count = count_if (λ c. is_ready c && not (is_updated c))

abbrev pub ready_count : List Claim → ℕ
ready_count = count_if is_ready

ready_count-split : (cs : List Claim) → updated_count cs + outdated_count cs ≡ ready_count cs
ready_count-split [] = omega arith
ready_count-split (c ∷ cs) = ground (arith, ready_count-split cs)

-- How many claims the set moves towards when it is not scaled in: its replicas, and one more while
-- exactly as many are ready and some of these are outdated.
abbrev pub target : SetState → ℕ
target s =
    if ready_count s.owned == s.set.replicas && ltb (updated_count s.owned) s.set.replicas
    then s.set.replicas + 1
    else s.set.replicas

with_surge-eq-target :
    (s : SetState)
    → ready_count s.owned ≤ s.set.replicas
    → with_surge (updated_count s.owned) (outdated_count s.owned) s.set.replicas ≡ target s
unfolding with_surge
with_surge-eq-target s low = ground (arith, ready_count-split s.owned)

-- What scale does on success.
pub data Scaled (k : Server) (s t : SetState) : Type 0 where
  -- more claims are ready than wanted
  shrink :
      s.set.replicas < ready_count s.owned
      → ScaledIn k (length s.owned - s.set.replicas) s t
      → Scaled k s t
  -- there are fewer claims than wanted
  grow :
      ready_count s.owned ≤ s.set.replicas
      → length s.owned < target s
      → (ids : List String) → length s.owned + length ids ≡ target s
      → Fresh (used_ids s) ids
      → Created k ids s t
      → Scaled k s t
  -- otherwise nothing is called and nothing changes
  rest : ready_count s.owned ≤ s.set.replicas → target s ≤ length s.owned → t ≡ s → Scaled k s t

scale_out_none : (k : Server) (fuel : ℕ) (s : SetState) → scale_out k fuel 0 s ≡ done tt s
unfolding scale_out create_all gen_available_ids
scale_out_none k fuel s = refl

scale_to_enough :
    (k : Server) (fuel desired current : ℕ) (s : SetState)
    → desired ≤ current
    → scale_to k fuel desired current s ≡ done tt s
unfolding scale_to
scale_to_enough k fuel desired current s h = elim (Bool-cases (ltb desired current)) [
  | inl over ↦
      rw (not_less, over) (ap (λ n. scale_out k fuel n s) none_missing ∙ scale_out_none k fuel s)
  | inr same ↦ rw (not_less, same)
]
  where
    not_less : ltb current desired ≡ false
    not_less = ground arith

    none_missing : desired - current ≡ 0
    none_missing = omega arith

module _ (k : Server) (fuel : ℕ) (s : SetState) where
  abbrev Outcome : Run SetState (Unit {0}) → Type 0
  Outcome r = Ends (λ _ t. Scaled k s t) (λ e t. Unit {0}) r

  scale_to-Scaled :
      ready_count s.owned ≤ s.set.replicas → Outcome (scale_to k fuel (target s) (length s.owned) s)
  unfolding scale_to
  scale_to-Scaled low = elim (Bool-cases (ltb (length s.owned) (target s))) [
    | inl few ↦ rw few (
        Ends-map _ _ _ _ (scale_out k fuel (target s - length s.owned) s)
          (λ _ t h. grow low (ground arith) h.0 (ground arith) h.2 h.3) (λ e t h. tt)
          (scale_out-Created k fuel (target s - length s.owned) s))
    | inr enough ↦
        subst Outcome (sym (scale_to_enough k fuel (target s) (length s.owned) s (ground arith)))
          (rest low (ground arith) refl)
  ]

  -- scale, on success, is one of three moves: with more ready claims than replicas it scales in by
  -- the difference of all owned claims and replicas; with no more ready claims than replicas and
  -- fewer claims than the target it creates exactly the missing ones, with fresh ids; otherwise it
  -- changes nothing.
  pub scale-Scaled : Outcome (scale k fuel s)
  unfolding scale
  scale-Scaled =
      elim (Bool-cases (ltb s.set.replicas (updated_count s.owned + outdated_count s.owned))) [
        | inl many ↦ rw many (
            Ends-map _ _ _ _ (scale_in k (length s.owned - s.set.replicas) s)
              (λ _ t h. shrink (ground (arith, ready_count-split s.owned)) h) (λ e t h. tt)
              (scale_in-ScaledIn k (length s.owned - s.set.replicas) s))
        | inr few ↦
            (let low : ready_count s.owned ≤ s.set.replicas =
                ground (arith, ready_count-split s.owned) in
              rw (few, with_surge-eq-target s low) (scale_to-Scaled low))
      ]
