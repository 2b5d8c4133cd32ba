-- ===== src/ClaimSet/Ids.antt =====
-- Instance ids: genAvailableID and genAvailableIds of pkg/controllers/cnclaimset/controller.go. The
-- random source is a parameter: the n-th text that it gives.
pub mod Fresh
use matrixone_operator.Base.{
  ◌=s◌, if◌then◌else◌, ℕ, zero, suc, String, Bool, true, false, Option, none, some, List, [], ◌∷◌,
}

-- `used.Has(id)`
unfoldable pub contains : List String → String → Bool
contains [] id = false
contains (u ∷ us) id = let rest = contains us id in if u =s id then true else rest

-- The loop draws until a text is unused: on fuel, with the number of texts drawn so far. It returns
-- the id and the number of texts drawn.
unfoldable pub gen_available_id : (ℕ → String) → ℕ → ℕ → List String → Option (String × ℕ)
gen_available_id sample zero n used = none
gen_available_id sample (suc fuel) n used =
    let rest = gen_available_id sample fuel (suc n) used in
    if contains used (sample n) then rest else some (sample n, suc n)

-- What one id adds to those of the later rounds.
unfoldable pub add_id : String → Option (List String × ℕ) → Option (List String × ℕ)
add_id id none = none
add_id id (some (ids, n)) = some (id ∷ ids, n)

-- `num` ids, each put among the used ones before the next is drawn.
unfoldable pub gen_available_ids : (ℕ → String) → ℕ → ℕ → ℕ → List String → Option (List String × ℕ)
unfolding add_id
gen_available_ids sample fuel zero n used = some ([], n)
gen_available_ids sample fuel (suc num) n used = elim (gen_available_id sample fuel n used) [
  | none ↦ none
  | some (id, n') ↦ add_id id (gen_available_ids sample fuel num n' (id ∷ used))
]
