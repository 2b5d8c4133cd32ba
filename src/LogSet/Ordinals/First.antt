-- ===== src/LogSet/Ordinals/First.antt =====
-- The loop ends, and lists the first ordinals that are not reserved.
use matrixone_operator.Base.{
  ltb, leb, if◌then◌else◌, Bool-cases, length, count_if, count_if-le-length, ℕ, zero, suc, ◌+◌, ◌-◌,
  ◌≤◌, ◌<◌, String, ◌≡◌, sym, ap, ◌∙◌, inl, inr, true, Option, some, List, [], ◌∷◌, ◌++◌, map,
  arith,
}
use mathlib.Core.List.{append_assoc, append-nil}
use matrixone_operator.Api.LogSet.{LogSet}
use matrixone_operator.LogSet.Ordinals.{
  contains_ℕ, pod_address, addresses_loop, addresses, ha_keeper_svc_addrs, gossip_seeds,
  log_service_port, gossip_port,
}

-- The ordinals that are not reserved, among the `n` from `i` on.
abbrev pub unreserved : List ℕ → ℕ → ℕ → List ℕ
unreserved reserved zero i = []
unreserved reserved (suc n) i =
    let rest = unreserved reserved n (suc i) in if contains_ℕ i reserved then rest else i ∷ rest

-- The reserved ordinals that are still ahead.
ahead : ℕ → List ℕ → ℕ
ahead i reserved = count_if (λ j. leb i j) reserved

ahead-suc : (i : ℕ) (js : List ℕ) → ahead (suc i) js ≤ ahead i js
unfolding ahead
ahead-suc i [] = omega arith
ahead-suc i (j ∷ js) = ground (arith, ahead-suc i js)

ahead-contains : (i : ℕ) (js : List ℕ) → contains_ℕ i js ≡ true → ahead (suc i) js < ahead i js
unfolding ahead
ahead-contains i [] h = cc
ahead-contains i (j ∷ js) h = ground (arith, ahead-contains i js, ahead-suc i js)

module _ (addr : ℕ → String) (replicas : ℕ) (reserved : List ℕ) where
  -- What the loop adds: the addresses of the unreserved ordinals of some rounds, as many as are wanted.
  abbrev Listed : ℕ → ℕ → List String → Option (List String) → Type 0
  Listed i count seeds r =
      (n : ℕ) × (r ≡ some (seeds ++ map addr (unreserved reserved n i)))
      × (count + length (unreserved reserved n i) ≡ replicas)

  loop-Listed :
      (fuel i count : ℕ) (seeds : List String)
      → count ≤ replicas
      → replicas - count + ahead i reserved < fuel
      → Listed i count seeds (addresses_loop addr replicas reserved fuel i count seeds)
  unfolding addresses_loop
  loop-Listed zero i count seeds h f = elim f [ ]
  loop-Listed (suc fuel) i count seeds h f = elim (Bool-cases (ltb count replicas)) [
    | inr finished ↦ rw finished (0, ap some (sym (append-nil seeds)), ground (arith, finished))
    | inl more ↦ (elim (Bool-cases (contains_ℕ i reserved)) [
      | inl held ↦
          (let (n, e, c) =
              loop-Listed fuel (suc i) count seeds h
                (ground (arith, f, more, ahead-contains i reserved held)) in
            (suc n, rw more (rw held e), rw held c))
      | inr free ↦
          (let (n, e, c) =
              loop-Listed fuel (suc i) (suc count) (seeds ++ addr i ∷ []) (ground (arith, more))
                (ground (arith, f, more, ahead-suc i reserved)) in
            (
              suc n,
              rw more (
                  rw free (
                    e
                    ∙ ap some (
                        append_assoc seeds (addr i ∷ [])
                          (map addr (unreserved reserved n (suc i)))))),
              rw free (omega (arith, c)),
            ))
    ])
  ]

  addresses-Listed : Listed 0 0 [] (addresses addr replicas reserved)
  unfolding addresses ahead
  addresses-Listed =
      loop-Listed (suc (replicas + length reserved)) 0 0 [] (omega arith)
        (omega (arith, count_if-le-length (λ j. leb 0 j) reserved))

-- The loops of HaKeeperSvcAddrs and gossipSeeds end, and list the addresses, each with its port,
-- of the first ordinals that are not reserved, as many as there are replicas.
pub addresses-unreserved :
    (l : LogSet) (replicas : ℕ) (reserved : List ℕ)
    → ((n : ℕ) × (ha_keeper_svc_addrs l reserved
          ≡ some (map (pod_address l log_service_port) (unreserved reserved n 0)))
        × (length (unreserved reserved n 0) ≡ l.spec.replicas))
      × ((n : ℕ) × (gossip_seeds l replicas reserved
            ≡ some (map (pod_address l gossip_port) (unreserved reserved n 0)))
          × (length (unreserved reserved n 0) ≡ replicas))
unfolding ha_keeper_svc_addrs gossip_seeds
addresses-unreserved l replicas reserved = (
  of_count (pod_address l log_service_port) l.spec.replicas,
  of_count (pod_address l gossip_port) replicas,
)
  where
    of_count :
        (addr : ℕ → String) (r : ℕ)
        → (n : ℕ) × (addresses addr r reserved ≡ some (map addr (unreserved reserved n 0)))
          × (length (unreserved reserved n 0) ≡ r)
    of_count addr r = let (n, e, c) = addresses-Listed addr r reserved in (n, e, omega (arith, c))
