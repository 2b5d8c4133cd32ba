-- ===== src/ClaimSet/Ids/Fresh.antt =====
-- The instance ids that genAvailableIds gives, and when its loop ends.
use matrixone_operator.Base.{
  Bool-cases, Option-cases, length, ℕ, zero, suc, ◌+◌, ◌-◌, ◌≤◌, ◌<◌, String, ◌≡◌, refl, ap, subst,
  inl, inr, false, Option, none, some, List, [], ◌∷◌, arith,
}
use native.Mathlib.Nat.{add-zero}
use matrixone_operator.ClaimSet.Ids.{contains, gen_available_id, add_id, gen_available_ids}

-- What one call gives: an unused text, drawn from the source at or after its position.
abbrev Gives : (ℕ → String) → ℕ → List String → Option (String × ℕ) → Type 0
Gives sample n used none = Unit
Gives sample n used (some (id, n')) = (contains used id ≡ false) × (n < n') × (id ≡ sample (n' - 1))

gen_available_id-Gives :
    (sample : ℕ → String) (fuel n : ℕ) (used : List String)
    → Gives sample n used (gen_available_id sample fuel n used)
unfolding gen_available_id
gen_available_id-Gives sample zero n used = tt
gen_available_id-Gives sample (suc fuel) n used = elim (Bool-cases (contains used (sample n))) [
  | inl taken ↦ rw taken (
      later (gen_available_id sample fuel (suc n) used)
        (gen_available_id-Gives sample fuel (suc n) used))
  | inr free ↦ rw free (free, omega arith, ap sample (omega arith))
]
  where
    later : (r : Option (String × ℕ)) → Gives sample (suc n) used r → Gives sample n used r
    later none g = tt
    later (some (id, n')) g = (g.0, omega arith, g.2)

-- The texts are pairwise different, and none is used.
abbrev pub Fresh : List String → List String → Type 0
Fresh used [] = Unit
Fresh used (id ∷ ids) = (contains used id ≡ false) × Fresh (id ∷ used) ids

abbrev pub GivesAll : ℕ → List String → Option (List String × ℕ) → Type 0
GivesAll num used none = Unit
GivesAll num used (some (ids, n)) = (length ids ≡ num) × Fresh used ids

add_id-GivesAll :
    (used : List String) (num : ℕ) (id : String) (r : Option (List String × ℕ))
    → contains used id ≡ false
    → GivesAll num (id ∷ used) r
    → GivesAll (suc num) used (add_id id r)
unfolding add_id
add_id-GivesAll used num id none free g = tt
add_id-GivesAll used num id (some (ids, m)) free g = (ap suc g.0, (free, g.1))

-- Every list that genAvailableIds returns has the wanted length, and its ids are fresh: each is
-- different from the used ones and from those before it.
pub gen_available_ids-GivesAll :
    (sample : ℕ → String) (fuel num n : ℕ) (used : List String)
    → GivesAll num used (gen_available_ids sample fuel num n used)
unfolding gen_available_ids
gen_available_ids-GivesAll sample fuel zero n used = (refl, tt)
gen_available_ids-GivesAll sample fuel (suc num) n used =
    elim (Option-cases (gen_available_id sample fuel n used)) [
      | inl e ↦ rw (e, gen_available_ids) tt
      | inr (p, e) ↦
          rw (e, gen_available_ids)
            (add_id-GivesAll used num p.0 (gen_available_ids sample fuel num p.1 (p.0 ∷ used))
              (subst (Gives sample n used) e (gen_available_id-Gives sample fuel n used)).0
              (gen_available_ids-GivesAll sample fuel num p.1 (p.0 ∷ used)))
    ]

shift : (n m : ℕ) → n + suc m ≡ suc n + m
shift n m = omega arith

-- The loop of genAvailableID ends: an unused text within the next `fuel` ones is enough.
gen_available_id_total :
    (sample : ℕ → String) (fuel m n : ℕ) (used : List String)
    → m < fuel
    → contains used (sample (n + m)) ≡ false
    → (r : String × ℕ) × (gen_available_id sample fuel n used ≡ some r)
unfolding gen_available_id
gen_available_id_total sample zero m n used lt h = absurd (omega arith)
gen_available_id_total sample (suc fuel) zero n used lt h =
    ((sample n, suc n), rw (subst (λ (i : ℕ). contains used (sample i) ≡ false) (add-zero n) h))
gen_available_id_total sample (suc fuel) (suc m) n used lt h =
    elim (Bool-cases (contains used (sample n))) [
      | inr free ↦ ((sample n, suc n), rw free)
      | inl taken ↦ rw taken (
          gen_available_id_total sample fuel m (suc n) used (omega arith)
            (subst (λ (i : ℕ). contains used (sample i) ≡ false) (shift n m) h))
    ]

-- An unused text is among any `fuel` ones in a row, for up to `bound` used texts.
abbrev pub Supplies : (ℕ → String) → ℕ → ℕ → Type 0
Supplies sample fuel bound =
    (us : List String) (n : ℕ)
    → length us ≤ bound
    → (m : ℕ) × (m < fuel) × (contains us (sample (n + m)) ≡ false)

-- So does the loop of genAvailableIds: if among any `fuel` texts in a row of the random source one
-- is unused, whatever the used texts and the new ids are, then enough fuel gives a result.
pub gen_available_ids_total :
    (sample : ℕ → String) (fuel num n : ℕ) (used : List String)
    → Supplies sample fuel (length used + num)
    → (r : List String × ℕ) × (gen_available_ids sample fuel num n used ≡ some r)
unfolding gen_available_ids
gen_available_ids_total sample fuel zero n used s = (([], n), refl)
gen_available_ids_total sample fuel (suc num) n used s =
    let (m, lt, free) = s used n (omega arith) in
    let ((id, n'), e) = gen_available_id_total sample fuel m n used lt free in
    let (r, f) =
      gen_available_ids_total sample fuel num n' (id ∷ used) (λ us i h. s us i (omega arith)) in
    ((id ∷ r.0, r.1), rw (e, gen_available_ids) (rw (f, add_id)))
