-- ===== src/ClaimSet/Sync/Effects.antt =====
-- Sync and Finalize: what they delete, and the status that Sync leaves.
use matrixone_operator.Base.{
  ◌==◌, Bool-cases, length, keep_if, ℕ, ◌≡◌, refl, sym, ap, ◌∙◌, inl, inr, not, List, [], ◌∷◌, ◌++◌,
  arith,
}
use matrixone_operator.Base.Run.{ok, Ends, Ends-bind, Ends-map}
use matrixone_operator.Api.Claim.{Claim, is_terminating}
use mathlib.Core.List.{reverse, reverse-cons, append_assoc}
use matrixone_operator.ClaimSet.State.{
  Call, list_cached, list_direct, delete_claim, SetState, Server, called, perform-Ends,
  tolerant-Ends,
}
use matrixone_operator.ClaimSet.Scale.{scale}
use matrixone_operator.ClaimSet.Scale.Read.{deletions}
use matrixone_operator.ClaimSet.Scale.Plan.{Scaled, scale-Scaled}
use matrixone_operator.ClaimSet.Sync.{
  owned_of, lost_of, same_counts, collect_status, check_cache, clean_claims, sync,
}

-- The deletions that go through the API: of those with a deletion timestamp there are none.
abbrev pub not_deleted : List Claim → List Claim
not_deleted = keep_if (λ c. not (is_terminating c))

pub deletion_added :
    (c : Claim) (cs : List Claim) (calls : List Call)
    → reverse cs ++ deletions (delete_claim c ∷ calls) ≡ reverse (c ∷ cs) ++ deletions calls
unfolding deletions
deletion_added c cs calls =
    sym (append_assoc (reverse cs) (c ∷ []) (deletions calls))
    ∙ ap (λ l. l ++ deletions calls) (sym (reverse-cons c cs))

-- What deleting a list leaves.
abbrev pub Deleted : List Claim → SetState → SetState → Type 0
Deleted cs s t =
    (t ≡ record s { calls = t.calls }) × (deletions t.calls ≡ reverse cs ++ deletions s.calls)

module _ (k : Server) where
  clean_claims-Deleted :
      (cs : List Claim) (s : SetState)
      → Ends (λ _ t. Deleted (not_deleted cs) s t) (λ e t. Unit {0}) (clean_claims k cs s)
  unfolding clean_claims
  clean_claims-Deleted [] s = (refl, refl)
  clean_claims-Deleted (c ∷ cs) s = elim (Bool-cases (is_terminating c)) [
    | inl gone ↦ rw (gone, clean_claims) (clean_claims-Deleted cs s)
    | inr live ↦
        rw (live, clean_claims)
          (tolerant-Ends _ _ (delete_claim c) s (k.delete s.calls c) (clean_claims k cs)
            (Ends-map _ _ _ _ (clean_claims k cs (called (delete_claim c) s))
              (λ _ t h. (ground arith, h.1 ∙ deletion_added c (not_deleted cs) s.calls))
              (λ e t h. tt) (clean_claims-Deleted cs (called (delete_claim c) s)))
            (λ e. tt))
  ]

  -- Comparing the cache with the server only lists.
  check_cache-reads :
      (items : List Claim) (s : SetState)
      → Ends
          (λ _ t. (t ≡ record s { calls = t.calls }) × (deletions t.calls ≡ deletions s.calls))
          (λ e t. Unit {0})
          (check_cache k items s)
  unfolding check_cache deletions
  check_cache-reads items s = elim (Bool-cases (length (owned_of items) == s.set.status.replicas)) [
    | inl same ↦ rw (same, check_cache) (refl, refl)
    | inr other ↦
        rw (other, check_cache)
          (perform-Ends _ _ list_direct s (k.claims_direct s.calls) _
            (λ direct answered. elim (Bool-cases (same_counts items direct)) [
              | inl same ↦ rw same (refl, refl)
              | inr differ ↦ rw differ tt
            ])
            (λ e. tt))
  ]

  -- What a successful Sync has done: it listed `items`, scaled them from `start` to `scaled`, and
  -- cleaned the lost ones.
  pub record Synced (s t : SetState) : Type 0 where
    pub items : List Claim
    pub listed : k.claims_cached s.calls ≡ ok items
    pub start : SetState
    pub scaled : SetState
    pub start_owned : start.owned ≡ owned_of items
    pub start_lost : start.lost ≡ lost_of items
    pub start_set : start.set ≡ s.set
    pub start_deleted : deletions start.calls ≡ deletions s.calls
    pub scaling : Scaled k start scaled
    pub cleaned : deletions t.calls ≡ reverse (not_deleted scaled.lost) ++ deletions scaled.calls
    pub owned : t.owned ≡ scaled.owned
    pub status : t.set ≡ collect_status scaled.set scaled.owned

  -- Sync, on success, has split the claims listed from the cache, scaled the owned ones as scale
  -- does, deleted exactly the lost claims that have no deletion timestamp, in order, and left a
  -- status computed from the owned claims after scaling.
  pub sync-Synced :
      (fuel : ℕ) (s : SetState) → Ends (λ _ t. Synced s t) (λ e t. Unit {0}) (sync k fuel s)
  unfolding sync deletions
  sync-Synced fuel s =
      perform-Ends _ _ list_cached s (k.claims_cached s.calls) _
        (λ items listed.
          Ends-bind _ _ (check_cache k items (called list_cached s)) _
            (check_cache-reads items (called list_cached s))
            (λ _ m h.
              Ends-bind _ _
                (scale k fuel (record m { owned = owned_of items; lost = lost_of items })) _
                (scale-Scaled k fuel (record m { owned = owned_of items; lost = lost_of items }))
                (λ _ u moved.
                  Ends-bind _ _ (clean_claims k u.lost u) _ (clean_claims-Deleted u.lost u)
                    (λ _ t cleaned. record {
                      items = items;
                      listed = listed;
                      start = record m { owned = owned_of items; lost = lost_of items };
                      scaled = u;
                      start_owned = refl;
                      start_lost = refl;
                      start_set = ap (λ x. x.set) h.0;
                      start_deleted = h.1;
                      scaling = moved;
                      cleaned = cleaned.1;
                      owned = ap (λ x. x.owned) cleaned.0;
                      status =
                          ground (arith, ap (λ x. x.set) cleaned.0, ap (λ x. x.owned) cleaned.0);
                    }))))
        (λ e. tt)
