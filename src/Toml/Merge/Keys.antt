-- ===== src/Toml/Merge/Keys.antt =====
-- What a merged configuration holds at one key.
use matrixone_operator.Base.{
  ◌=s◌, if◌then◌else◌, =s_iff, =s_refl, Bool-cases, Option-cases, String, ◌≡◌, refl, sym, ap, ◌∙◌,
  subst, inl, inr, Bool, true, false, Option, none, some, List, [], ◌∷◌, arith,
}
use matrixone_operator.Toml.{
  Value, null, text, texts, other, table, tables, items, Fields, end, field, find, put, or_null,
  as_table, table_at, get, or_end,
}
use matrixone_operator.Toml.Paths.{find-put, get_step}
use matrixone_operator.Toml.Merge.{deep_merge_map, merge_value}

-- A key stands once, as in a map of Go.
abbrev pub IsMap : Fields → Type 0
IsMap end = Unit {0}
IsMap (field k v m) = (find k m ≡ none) × IsMap m

-- A value that is no map, no slice of anything but texts, and not nil.
abbrev pub is_leaf : Value → Bool
is_leaf (text s) = true
is_leaf (texts ss) = true
is_leaf (other s) = true
is_leaf null = false
is_leaf (table m) = false
is_leaf (tables ts) = false
is_leaf (items is) = false

-- One key of a merged map.
abbrev pub merged : Option Value → Option Value → Option Value
merged b none = b
merged b (some v) = some (merge_value b v)

pub find-deep_merge_map :
    (o b : Fields) (k : String)
    → IsMap o
    → find k (deep_merge_map b o) ≡ merged (find k b) (find k o)
unfolding find deep_merge_map
find-deep_merge_map end b k h = refl
find-deep_merge_map (field j v o) b k h =
    find-deep_merge_map o (put j (merge_value (find j b) v) b) k h.1
    ∙ rw (find-put k j (merge_value (find j b) v) b) (elim (Bool-cases (j =s k)) [
      | inl same ↦
          subst
            (λ x.
              merged (if j =s x then some (merge_value (find j b) v) else find x b) (find x o)
              ≡ merged (find x b) (if j =s x then some v else find x o))
            ((=s_iff j k).0 same) (rw (=s_refl j) (rw h.0 refl))
      | inr differs ↦ rw differs refl
    ])

pub merge-leaf : (b : Option Value) (v : Value) → is_leaf v ≡ true → merge_value b v ≡ v
unfolding merge_value
merge-leaf none v h = refl
merge-leaf (some b) (text s) h = refl
merge-leaf (some b) (texts ss) h = refl
merge-leaf (some b) (other s) h = refl
merge-leaf (some b) null h = cc
merge-leaf (some b) (table m) h = cc
merge-leaf (some b) (tables ts) h = cc
merge-leaf (some b) (items is) h = cc

-- A map merged into what a key held is the map that it held, or an empty one, with it merged in.
pub merge-table :
    (b : Option Value) (n : Fields)
    → as_table (merge_value b (table n))
      ≡ some (elim (as_table (or_null b)) [ none ↦ n | some m ↦ deep_merge_map m n ])
unfolding merge_value
merge-table none n = refl
merge-table (some (table m)) n = refl
merge-table (some null) n = refl
merge-table (some (text s)) n = refl
merge-table (some (texts ss)) n = refl
merge-table (some (other s)) n = refl
merge-table (some (tables ts)) n = refl
merge-table (some (items is)) n = refl

pub as_table-eq : (v : Value) (n : Fields) → as_table v ≡ some n → v ≡ table n
as_table-eq (table m) n e = ground arith
as_table-eq null n e = cc
as_table-eq (text s) n e = cc
as_table-eq (texts ss) n e = cc
as_table-eq (other s) n e = cc
as_table-eq (tables ts) n e = cc
as_table-eq (items is) n e = cc

pub get_cong :
    (m n : Fields) (k : String) (p : List String)
    → find k m ≡ find k n
    → get m (k ∷ p) ≡ get n (k ∷ p)
unfolding get table_at
get_cong m n k [] e = ap or_null e
get_cong m n k (j ∷ p) e =
    get_step m k j p
    ∙ ap (λ o. get (or_end (as_table (or_null o))) (j ∷ p)) e
    ∙ sym (get_step n k j p)

pub table_at-missing : (m : Fields) (k : String) → find k m ≡ none → table_at k m ≡ none
unfolding table_at
table_at-missing m k e = rw e refl

-- What a map of the override under a key makes of the key.
pub table_at-deep_merge_map :
    (b o n : Fields) (k : String)
    → IsMap o
    → table_at k o ≡ some n
    → table_at k (deep_merge_map b o)
      ≡ some (elim (table_at k b) [ none ↦ n | some m ↦ deep_merge_map m n ])
unfolding table_at
table_at-deep_merge_map b o n k h e = elim (Option-cases (find k o)) [
  | inl missing ↦ absurd (ground (arith, e, table_at-missing o k missing))
  | inr (v, found) ↦
      ap (λ f. as_table (or_null f)) (find-deep_merge_map o b k h ∙ ap (merged (find k b)) found)
      ∙ ap (λ x. as_table (merge_value (find k b) x)) (as_table-eq v n (rw found at e))
      ∙ merge-table (find k b) n
]

pub key_kept :
    (b o : Fields) (k : String) (p : List String)
    → IsMap o
    → find k o ≡ none
    → get (deep_merge_map b o) (k ∷ p) ≡ get b (k ∷ p)
key_kept b o k p h missing =
    get_cong (deep_merge_map b o) b k p
      (find-deep_merge_map o b k h ∙ ap (merged (find k b)) missing)
