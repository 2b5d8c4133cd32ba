-- ===== src/ClaimSet/Scale/Out.antt =====
-- scaleOut: which claims it creates.
use matrixone_operator.Base.{
  Option-cases, length, ℕ, String, ◌≡◌, refl, subst, ◌≢◌, inl, inr, List, [],
}
use matrixone_operator.Base.Run.{Run, out_of_fuel, Ends, Ends-map}
use matrixone_operator.Api.Claim.{Claim}
use matrixone_operator.ClaimSet.Ids.{gen_available_ids}
use matrixone_operator.ClaimSet.Ids.Fresh.{Fresh, GivesAll, gen_available_ids-GivesAll}
use matrixone_operator.ClaimSet.State.{SetState, Server}
use matrixone_operator.ClaimSet.Scale.{create_all, used_ids, scale_out}
use matrixone_operator.ClaimSet.Scale.Made.{Created, create_all-Created}

module _ (k : Server) where
  pub scale_out-Created :
      (fuel count : ℕ) (s : SetState)
      → Ends
          (λ _ t.
            (ids : List String) × (length ids ≡ count) × Fresh (used_ids s) ids × Created k ids s t)
          (λ e t. t.lost ≡ s.lost)
          (scale_out k fuel count s)
  unfolding scale_out
  scale_out-Created fuel count s =
      elim (Option-cases (gen_available_ids k.sample fuel count s.drawn (used_ids s))) [
        | inl e ↦ rw (e, scale_out) refl
        | inr (r, e) ↦
            let g =
              subst (GivesAll count (used_ids s)) e
                (gen_available_ids-GivesAll k.sample fuel count s.drawn (used_ids s)) in
            rw (e, scale_out)
              (Ends-map _ _ _ _ (create_all k s.owned [] r.0 (record s { drawn = r.1 }))
                (λ _ t h. (
                  r.0,
                  g.0,
                  g.1,
                  record {
                    claims = h.claims;
                    made = h.made;
                    asked = h.asked;
                    more = h.more;
                    lost = h.lost;
                    set = h.set;
                  },
                ))
                (λ e t h. h) (create_all-Created k r.0 (record s { drawn = r.1 })))
      ]

  -- A run that does not end for want of fuel.
  abbrev Fuelled {ℓ} : {A : Type ℓ} → Run SetState A → Type 0
  Fuelled r = Ends (λ _ _. Unit {0}) (λ e _. e ≢ out_of_fuel) r
