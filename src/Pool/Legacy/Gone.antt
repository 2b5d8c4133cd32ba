-- ===== src/Pool/Legacy/Gone.antt =====
-- Which legacy sets of a pool have no pods, and that those are deleted.
use matrixone_operator.Base.{
  ◌=s◌, if◌then◌else◌, ℕ, String, ◌≡◌, sym, ap, ◌∙◌, subst, inl, inr, true, false, Option, none,
  some, List, [], ◌∷◌, arith,
}
use matrixone_operator.Api.Pod.{Pod}
use matrixone_operator.Base.{IsAmong}
use matrixone_operator.Base.Map.{Map}
use matrixone_operator.Pool.State.{SetItem, delete_set, PoolServer, PoolState}
use matrixone_operator.Pool.Legacy.{orphan_labels}
use matrixone_operator.Pool.Legacy.Evidence.{live_in_use}
use matrixone_operator.Pool.Legacy.Runs.{Grows, IsAmong-Grows}

module _ (k : PoolServer) (pods : Map → List Pod) (status : String → ℕ) where
  -- The pods of a set.
  abbrev pub selected : Option Map → List Pod
  selected none = []
  selected (some ls) = pods ls

  abbrev pub pods_of : SetItem → List Pod
  pods_of i = if i.label_selector =s "" then [] else selected (k.parse_selector i.label_selector)

  -- A set that has no pods, neither its own nor direct ones, nor in its status.
  abbrev pub IsDrained : SetItem → Type 0
  IsDrained i = (live_in_use (pods_of i) ≡ 0) × (status i.name ≡ 0) × (pods (orphan_labels i) ≡ [])

  abbrev pub IsGone : SetItem → PoolState → Type 0
  IsGone i t = IsDrained i → IsAmong (delete_set i.name) t.calls

  -- Every drained set of the list that is not the current one is deleted.
  abbrev pub AllGone : String → List SetItem → PoolState → Type 0
  AllGone current is t =
      (i : SetItem)
      → IsAmong i is
      → (i.name =s current) ≡ false
      → IsDrained i
      → IsAmong (delete_set i.name) t.calls

  pub AllGone-skip :
      (current : String) (j : SetItem) (js : List SetItem) (t : PoolState)
      → (j.name =s current) ≡ true
      → AllGone current js t
      → AllGone current (j ∷ js) t
  AllGone-skip current j js t e h i (inl same_set) other =
      ground (arith, e, sym (ap (λ x. x.name =s current) same_set) ∙ other)
  AllGone-skip current j js t e h i (inr m) other = h i m other

  pub AllGone-more :
      (current : String) (j : SetItem) (js : List SetItem) (t : PoolState)
      → IsGone j t
      → AllGone current js t
      → AllGone current (j ∷ js) t
  AllGone-more current j js t g h i (inl same_set) other = subst (λ x. IsGone x t) (sym same_set) g
  AllGone-more current j js t g h i (inr m) other = h i m other

  pub AllGone-Grows :
      (current : String) (is : List SetItem) (t u : PoolState)
      → Grows t u
      → AllGone current is t
      → AllGone current is u
  AllGone-Grows current is t u g h i m other dr =
      IsAmong-Grows (delete_set i.name) t u (h i m other dr) g
