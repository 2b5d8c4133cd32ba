-- ===== src/ClaimSet/Tests.antt =====
-- Concrete runs of the CNClaimSet controller, and its theorems at concrete inputs.
use matrixone_operator.Base.{
  ◌=s◌, if◌then◌else◌, =s_iff, Bool-cases, length, ℕ, zero, suc, ◌+◌, String, ◌≡◌, refl, ap, ◌⊎◌,
  inl, inr, true, false, none, some, List, [], ◌∷◌, map, arith,
}
use matrixone_operator.Base.Run.{panicked, not_found, ok, err, final, Ends}
use matrixone_operator.Api.Claim.{
  ClaimPhase, ClaimSpec, Claim, is_ready, is_updated, no_store, ClaimSet,
}
use matrixone_operator.Base.Map.{lookup, insert}
use matrixone_operator.Api.Keys.{claim_instance_id_label}
use native.Mathlib.Nat.{add-zero}
use native.Mathlib.Numerals.{add-one}
use matrixone_operator.Base.Sort.{sort}
use matrixone_operator.ClaimSet.Order.{claim_deletion_order, claim_phase_to_ordinal}
use matrixone_operator.ClaimSet.Ids.{contains, gen_available_id, gen_available_ids}
use matrixone_operator.ClaimSet.Ids.Fresh.{
  Fresh, GivesAll, Supplies, gen_available_ids-GivesAll, gen_available_ids_total,
}
use matrixone_operator.ClaimSet.State.{SetState, Server}
use matrixone_operator.ClaimSet.Scale.{
  is_migrating, get_claimed_pod, make_claim, claim_with, used_ids, scale_in, scale_out, scale,
}
use matrixone_operator.ClaimSet.Scale.In.{ScaledIn, scale_in-ScaledIn}
use matrixone_operator.ClaimSet.Scale.Plan.{Scaled, scale-Scaled}
use matrixone_operator.ClaimSet.Sync.{sync}
use matrixone_operator.ClaimSet.Sync.Effects.{sync-Synced, Synced}

abbrev spec_at : String → ClaimSpec
spec_at pod = record {
  pod_name = pod;
  node_name = "";
  source_pod = none;
  selector = λ m. true;
  cn_labels = [];
  owner_name = none;
  additional_pod_labels = [];
  pool_name = "";
}

abbrev claim_in : String → ClaimPhase → ℕ → Claim
claim_in id phase created = record {
  name = id;
  labels = (claim_instance_id_label, id) ∷ [];
  annotations = [];
  created = created;
  is_deleted = false;
  spec = spec_at "";
  status = record { phase = phase; store = no_store; bound_time = none; migrate = none };
}

abbrev ready_a : Claim
ready_a = claim_in "a" ClaimPhase.bound 10

abbrev old_b : Claim
old_b = claim_in "b" ClaimPhase.outdated 20

abbrev waiting_c : Claim
waiting_c = claim_in "c" ClaimPhase.pending 30

abbrev waiting_d : Claim
waiting_d = claim_in "d" ClaimPhase.pending 40

abbrev lost_e : Claim
lost_e = claim_in "e" ClaimPhase.lost 5

abbrev set_of : ℕ → ClaimSet
set_of n = record {
  name = "web";
  replicas = n;
  template = record { labels = some []; annotations = []; spec = spec_at "" };
  status = record { replicas = 0; ready_replicas = 0; claims = []; selector_labels = [] };
}

abbrev state_of : ℕ → List Claim → SetState
state_of n owned = record { set = set_of n; owned = owned; lost = []; drawn = 0; calls = [] }

-- Two texts in turn.
abbrev alternating : ℕ → String
alternating zero = "aaaaa"
alternating (suc n) = if alternating n =s "aaaaa" then "bbbbb" else "aaaaa"

-- A server that holds a list of claims, and whose cache misses some.
abbrev server_of : List Claim → List Claim → Server
server_of cached direct = record {
  claims_cached = λ h. ok cached;
  claims_direct = λ h. ok direct;
  create = λ h c. ok c;
  shares_labels = true;
  delete = λ h c. ok tt;
  pod = λ h name. err not_found;
  sample = alternating;
}

abbrev names : List Claim → List String
names = map (λ c. c.name)

-- Of two pending claims the newer goes first, then the older; the ready ones stay.
scale_in_two :
    names
      (final (
        scale_in
          (server_of [] [])
          2
          (state_of 2 (ready_a ∷ old_b ∷ waiting_c ∷ waiting_d ∷ [])))).owned
    ≡ "b" ∷ "a" ∷ []
unfolding scale_in is_migrating get_claimed_pod claim_deletion_order sort claim_phase_to_ordinal
scale_in_two = refl

-- One outdated claim of two: a third claim is created beside them.
surge_one : length (final (scale (server_of [] []) 2 (state_of 2 (ready_a ∷ old_b ∷ [])))).owned ≡ 3
unfolding scale is_ready is_updated gen_available_ids used_ids contains gen_available_id make_claim
    claim_with insert lookup
surge_one = refl

abbrev without_labels : SetState
without_labels = record (state_of 1 []) {
  set = record (set_of 1) {
    template = record { labels = none; annotations = []; spec = spec_at "" };
  };
}

-- A set whose template has no labels gets no claim: the write into them panics.
nil_labels : Ends (λ _ _. ⊥) (λ e _. e ≡ panicked) (scale_out (server_of [] []) 2 1 without_labels)
unfolding scale_out gen_available_ids used_ids contains gen_available_id make_claim
nil_labels = refl

scale_in-ScaledIn_example :
    Ends
      (λ _ t.
        ScaledIn (server_of [] []) 2 (state_of 2 (ready_a ∷ old_b ∷ waiting_c ∷ waiting_d ∷ [])) t)
      (λ e t. t.owned ≡ ready_a ∷ old_b ∷ waiting_c ∷ waiting_d ∷ [])
      (scale_in (server_of [] []) 2 (state_of 2 (ready_a ∷ old_b ∷ waiting_c ∷ waiting_d ∷ [])))
scale_in-ScaledIn_example =
    scale_in-ScaledIn (server_of [] []) 2
      (state_of 2 (ready_a ∷ old_b ∷ waiting_c ∷ waiting_d ∷ []))

scale-Scaled_example :
    Ends
      (λ _ t. Scaled (server_of [] []) (state_of 2 (ready_a ∷ old_b ∷ [])) t)
      (λ e t. Unit {0})
      (scale (server_of [] []) 2 (state_of 2 (ready_a ∷ old_b ∷ [])))
scale-Scaled_example = scale-Scaled (server_of [] []) 2 (state_of 2 (ready_a ∷ old_b ∷ []))

-- Two different texts in turn supply an unused one as long as at most one is used.
alternating-cases :
    (n : ℕ)
    → ((alternating n ≡ "aaaaa") × (alternating (suc n) ≡ "bbbbb"))
      ⊎ ((alternating n ≡ "bbbbb") × (alternating (suc n) ≡ "aaaaa"))
alternating-cases zero = inl (refl, refl)
alternating-cases (suc n) = elim (alternating-cases n) [
  | inl p ↦ inr (p.1, rw p.1)
  | inr p ↦ inl (p.1, rw p.1)
]

next_differs : (n : ℕ) → (alternating n =s alternating (suc n)) ≡ false
next_differs n = elim (alternating-cases n) [ inl p ↦ rw p.0 | inr p ↦ rw p.0 ]

alternating-Supplies : Supplies alternating 2 1
unfolding contains
alternating-Supplies [] n h = (0, omega arith, refl)
alternating-Supplies (u ∷ []) n h = elim (Bool-cases (u =s alternating (n + 0))) [
  | inr free ↦ (0, omega arith, rw free)
  | inl taken ↦ (
    1,
    omega arith,
    rw ((=s_iff u _).0 taken, add-zero, add-one)
        (ap (λ b. if b then true else false) (next_differs n)),
  )
]
alternating-Supplies (u ∷ v ∷ us) n h = absurd (omega arith)

gen_available_ids_total_example :
    (r : List String × ℕ) × (gen_available_ids alternating 2 1 0 [] ≡ some r)
gen_available_ids_total_example = gen_available_ids_total alternating 2 1 0 [] alternating-Supplies

gen_available_ids-GivesAll_example :
    GivesAll 1 ("aaaaa" ∷ []) (gen_available_ids alternating 2 1 0 ("aaaaa" ∷ []))
gen_available_ids-GivesAll_example = gen_available_ids-GivesAll alternating 2 1 0 ("aaaaa" ∷ [])

sync-Synced_example :
    Ends
      (λ _ t. Synced (server_of (ready_a ∷ lost_e ∷ []) (ready_a ∷ lost_e ∷ [])) (state_of 1 []) t)
      (λ e t. Unit {0})
      (sync (server_of (ready_a ∷ lost_e ∷ []) (ready_a ∷ lost_e ∷ [])) 2 (state_of 1 []))
sync-Synced_example =
    sync-Synced (server_of (ready_a ∷ lost_e ∷ []) (ready_a ∷ lost_e ∷ [])) 2 (state_of 1 [])
