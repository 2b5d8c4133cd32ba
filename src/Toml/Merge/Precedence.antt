-- ===== src/Toml/Merge/Precedence.antt =====
-- What a merged configuration holds along a path.
use matrixone_operator.Base.{
  Option-cases, String, ◌≡◌, refl, sym, ap, ◌∙◌, subst, ◌⊎◌, inl, inr, Bool, true, false, Option,
  none, some, List, [], ◌∷◌, arith,
}
use matrixone_operator.Toml.{
  Value, null, Fields, end, find, or_null, as_table, table_at, get, TomlConfig, or_end, get_path,
  non_null,
}
use matrixone_operator.Toml.Paths.{get_step, get-end}
use matrixone_operator.Toml.Merge.{deep_merge_map, merge_deep}
use matrixone_operator.Toml.Merge.Keys.{
  IsMap, is_leaf, find-deep_merge_map, merge-leaf, get_cong, table_at-deep_merge_map, key_kept,
}

-- So in each map on a path.
abbrev pub AreMaps : Fields → List String → Type 0
AreMaps m [] = IsMap m
AreMaps m (k ∷ []) = IsMap m
AreMaps m (k ∷ j ∷ path) = IsMap m × AreMaps (or_end (table_at k m)) (j ∷ path)

-- The path leads to a key that its map does not have.
unfoldable pub is_absent : Fields → List String → Bool
is_absent m [] = false
is_absent m (k ∷ path) = elim (find k m) [
  | none ↦ true
  | some v ↦ (elim (as_table v) [ none ↦ false | some n ↦ is_absent n path ])
]

leaf_kept_one :
    (b o : Fields) (k : String)
    → IsMap o
    → is_leaf (get o (k ∷ [])) ≡ true
    → get (deep_merge_map b o) (k ∷ []) ≡ get o (k ∷ [])
unfolding get
leaf_kept_one b o k h leaf = elim (Option-cases (find k o)) [
  | inl missing ↦ absurd (ground (arith, leaf, missing))
  | inr (v, found) ↦
      rw (find-deep_merge_map o b k h)
        (rw found (merge-leaf (find k b) v (ground (arith, leaf, found))))
]

leaf_kept :
    (b o : Fields) (k : String) (p : List String)
    → AreMaps o (k ∷ p)
    → is_leaf (get o (k ∷ p)) ≡ true
    → get (deep_merge_map b o) (k ∷ p) ≡ get o (k ∷ p)
leaf_kept b o k [] h leaf = leaf_kept_one b o k h leaf
leaf_kept b o k (j ∷ p) h leaf = elim (Option-cases (table_at k o)) [
  | inl missing ↦
      absurd (ground (arith, leaf_below, ap (λ f. get (or_end f) (j ∷ p)) missing, get-end j p))
  | inr (n, found) ↦
      get_step (deep_merge_map b o) k j p
      ∙ rw (table_at-deep_merge_map b o n k h.0 found) (
          either_way n (table_at k b) (
            leaf_kept (or_end (table_at k b)) n j p
              (subst (λ f. AreMaps (or_end f) (j ∷ p)) found h.1)
              (subst (λ f. is_leaf (get (or_end f) (j ∷ p)) ≡ true) found leaf_below)))
      ∙ sym (get_step o k j p ∙ ap (λ f. get (or_end f) (j ∷ p)) found)
]
  where
    leaf_below : is_leaf (get (or_end (table_at k o)) (j ∷ p)) ≡ true
    leaf_below = ap is_leaf (sym (get_step o k j p)) ∙ leaf

    either_way :
        (n : Fields) (f : Option Fields)
        → get (deep_merge_map (or_end f) n) (j ∷ p) ≡ get n (j ∷ p)
        → get (elim f [ none ↦ n | some m ↦ deep_merge_map m n ]) (j ∷ p) ≡ get n (j ∷ p)
    either_way n none e = refl
    either_way n (some m) e = e

absent_cases :
    (m : Fields) (k : String) (p : List String)
    → is_absent m (k ∷ p) ≡ true
    → (find k m ≡ none) ⊎ ((n : Fields) × (table_at k m ≡ some n) × (is_absent n p ≡ true))
unfolding table_at is_absent
absent_cases m k p h = elim (Option-cases (find k m)) [
  | inl missing ↦ inl missing
  | inr (v, e) ↦ (elim (Option-cases (as_table v)) [
    | inl scalar ↦ absurd (not_absent v e scalar)
    | inr (n, a) ↦ inr (n, ap (λ o. as_table (or_null o)) e ∙ a, deeper v n e a)
  ])
]
  where
    not_absent : (v : Value) → find k m ≡ some v → as_table v ≡ none → ⊥
    not_absent v e a = ground (arith, h, e, a)

    deeper :
        (v : Value) (n : Fields) → find k m ≡ some v → as_table v ≡ some n → is_absent n p ≡ true
    deeper v n e a = ground (arith, h, e, a)

nowhere : (n : Fields) → is_absent n [] ≡ true → ⊥
unfolding is_absent
nowhere n h = cc

absent-get :
    (m : Fields) (k : String) (p : List String) → is_absent m (k ∷ p) ≡ true → get m (k ∷ p) ≡ null
unfolding find
absent-get m k [] h = elim (absent_cases m k [] h) [
  | inl missing ↦ get_cong m end k [] missing ∙ get-end k []
  | inr (n, found, rest) ↦ absurd (nowhere n rest)
]
absent-get m k (j ∷ p) h = elim (absent_cases m k (j ∷ p) h) [
  | inl missing ↦ get_cong m end k (j ∷ p) missing ∙ get-end k (j ∷ p)
  | inr (n, found, rest) ↦
      get_step m k j p ∙ ap (λ f. get (or_end f) (j ∷ p)) found ∙ absent-get n j p rest
]

absent_kept :
    (b o : Fields) (k : String) (p : List String)
    → AreMaps o (k ∷ p)
    → is_absent o (k ∷ p) ≡ true
    → get (deep_merge_map b o) (k ∷ p) ≡ get b (k ∷ p)
absent_kept b o k [] h a = elim (absent_cases o k [] a) [
  | inl missing ↦ key_kept b o k [] h missing
  | inr (n, found, rest) ↦ absurd (nowhere n rest)
]
absent_kept b o k (j ∷ p) h a = elim (absent_cases o k (j ∷ p) a) [
  | inl missing ↦ key_kept b o k (j ∷ p) h.0 missing
  | inr (n, found, rest) ↦
      get_step (deep_merge_map b o) k j p
      ∙ rw (table_at-deep_merge_map b o n k h.0 found) (
          either_way n rest (table_at k b) (
            absent_kept (or_end (table_at k b)) n j p
              (subst (λ f. AreMaps (or_end f) (j ∷ p)) found h.1) rest))
      ∙ sym (get_step b k j p)
]
  where
    either_way :
        (n : Fields)
        → is_absent n (j ∷ p) ≡ true
        → (f : Option Fields) → get (deep_merge_map (or_end f) n) (j ∷ p) ≡ get (or_end f) (j ∷ p)
        → get (elim f [ none ↦ n | some m ↦ deep_merge_map m n ]) (j ∷ p) ≡ get (or_end f) (j ∷ p)
    either_way n rest none e = absent-get n j p rest ∙ sym (get-end j p)
    either_way n rest (some m) e = e

-- After MergeDeep, a path that leads to a plain value in the override leads to that value, and a
-- path that leads to a key which its map of the override does not have leads to what it did in the
-- configuration before. The maps of the override along both paths have each key once.
pub merge_deep-leaf :
    (c : TomlConfig) (mp : Fields) (k j : String) (p q : List String)
    → AreMaps mp (k ∷ p)
    → is_leaf (get mp (k ∷ p)) ≡ true
    → AreMaps mp (j ∷ q)
    → is_absent mp (j ∷ q) ≡ true
    → (get_path (merge_deep c mp) (k ∷ p) ≡ get_path (some mp) (k ∷ p))
      × (get_path (merge_deep c mp) (j ∷ q) ≡ get_path c (j ∷ q))
unfolding merge_deep get_path
merge_deep-leaf c mp k j p q maps leaf maps' missing = (
  ap non_null (leaf_kept (or_end c) mp k p maps leaf),
  ap non_null (absent_kept (or_end c) mp j q maps' missing) ∙ of_config c,
)
  where
    of_config : (c : TomlConfig) → non_null (get (or_end c) (j ∷ q)) ≡ get_path c (j ∷ q)
    of_config none = ap non_null (get-end j q)
    of_config (some m) = refl
