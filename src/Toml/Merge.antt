-- ===== src/Toml/Merge.antt =====
-- The deep merge of two configurations: TomlConfig.MergeDeep and its helpers of
-- api/core/v1alpha1/toml_config.go.
pub mod Keys
pub mod Precedence
use matrixone_operator.Base.{
  ◌==◌, ◌=s◌, if◌then◌else◌, ℕ, suc, String, Bool, true, false, ◌||◌, Option, none, some, List, [],
  ◌∷◌, ◌++◌, map,
}
use mathlib.Core.Option
use matrixone_operator.Toml.{
  Value, null, text, texts, other, table, tables, items, Fields, end, field, Tables, no_table,
  entry, Items, no_item, item, find, put, as_table, or_null, TomlConfig, or_end, as_string,
}

-- The maps of a slice; `none` where some item is not a map.
unfoldable pub maps_of_items : Items → Option (List Fields)
maps_of_items no_item = some []
maps_of_items (item v is) = elim (as_table v) [
  | none ↦ none
  | some m ↦ Option.map (λ ms. m ∷ ms) (maps_of_items is)
]

unfoldable pub maps_of_tables : Tables → List Fields
maps_of_tables no_table = []
maps_of_tables (entry m ts) = m ∷ maps_of_tables ts

unfoldable pub to_tables : List Fields → Tables
to_tables [] = no_table
to_tables (m ∷ ms) = entry m (to_tables ms)

abbrev is_found : Option Value → Bool
is_found none = false
is_found (some v) = true

-- The last two tests: the slice is not empty, and its first entry has a name.
unfoldable pub if_named : List Fields → Option (List Fields)
if_named [] = none
if_named (m ∷ ms) = if is_found (find "name" m) then some (m ∷ ms) else none

unfoldable pub to_named_map_slice : Value → Option (List Fields)
to_named_map_slice (tables ts) = if_named (maps_of_tables ts)
to_named_map_slice (items is) = elim (maps_of_items is) [ none ↦ none | some ms ↦ if_named ms ]
to_named_map_slice null = none
to_named_map_slice (text s) = none
to_named_map_slice (texts ss) = none
to_named_map_slice (other s) = none
to_named_map_slice (table m) = none

-- `entry["name"].(string)`
unfoldable pub name_of : Fields → Option String
name_of m = as_string (or_null (find "name" m))

-- `baseByName[name]`, with the entry: the last one of the name. `i` is the index of the first entry.
unfoldable pub by_name : String → ℕ → List Fields → Option (ℕ × Fields)
by_name name i [] = none
by_name name i (m ∷ ms) = elim (by_name name (suc i) ms) [
  | some later ↦ some later
  | none ↦ (elim (name_of m) [ none ↦ none | some n ↦ if n =s name then some (i, m) else none ])
]

-- The base entry that an override entry is merged into: it needs a name that is not empty.
unfoldable pub partner : List Fields → Fields → Option (ℕ × Fields)
partner base oe = elim (name_of oe) [
  | none ↦ none
  | some name ↦ if name =s "" then none else by_name name 0 base
]

unfoldable pub is_matched : ℕ → List ℕ → Bool
is_matched i [] = false
is_matched i (j ∷ js) = i == j || is_matched i js

-- `for i, entry := range base { if !matched[i] { … } }`
unfoldable pub unmatched : List ℕ → ℕ → List Fields → List Fields
unmatched matched i [] = []
unmatched matched i (m ∷ ms) =
    let rest = unmatched matched (suc i) ms in if is_matched i matched then rest else m ∷ rest

-- `matched`, after the loop over the override entries.
unfoldable pub matches : List Fields → List Fields → List ℕ
matches base [] = []
matches base (oe ∷ os) = elim (partner base oe) [
  | none ↦ matches base os
  | some (i, b) ↦ i ∷ matches base os
]

unfoldable mutual
  -- deepMergeMap, from its second loop on: `result` starts as a copy of the base.
  pub deep_merge_map : Fields → Fields → Fields
  deep_merge_map result end = result
  deep_merge_map result (field k v rest) =
      deep_merge_map (put k (merge_value (find k result) v) result) rest

  -- One round of that loop.
  pub merge_value : Option Value → Value → Value
  merge_value none v = v
  merge_value (some b) (table o) = elim (as_table b) [
    | some m ↦ table (deep_merge_map m o)
    | none ↦ table o
  ]
  merge_value (some b) (tables os) = elim (to_named_map_slice b) [
    | none ↦ tables os
    | some base ↦ (elim (to_named_map_slice (tables os)) [
      | none ↦ tables os
      | some named ↦
          tables (
            to_tables (merge_tables base os ++ unmatched (matches base (maps_of_tables os)) 0 base))
    ])
  ]
  merge_value (some b) (items os) = elim (to_named_map_slice b) [
    | none ↦ items os
    | some base ↦ (elim (to_named_map_slice (items os)) [
      | none ↦ items os
      | some named ↦
          tables (to_tables (merge_items base os ++ unmatched (matches base named) 0 base))
    ])
  ]
  merge_value (some b) null = null
  merge_value (some b) (text s) = text s
  merge_value (some b) (texts ss) = texts ss
  merge_value (some b) (other s) = other s

  -- mergeNamedMapSlice, its loop over the override entries.
  merge_tables : List Fields → Tables → List Fields
  merge_tables base no_table = []
  merge_tables base (entry oe os) =
      (elim (partner base oe) [ none ↦ oe | some (i, b) ↦ deep_merge_map b oe ])
      ∷ merge_tables base os

  merge_items : List Fields → Items → List Fields
  merge_items base no_item = []
  merge_items base (item v os) = merge_entry base v ++ merge_items base os

  merge_entry : List Fields → Value → List Fields
  merge_entry base (table oe) =
      (elim (partner base oe) [ none ↦ oe | some (i, b) ↦ deep_merge_map b oe ]) ∷ []
  merge_entry base null = []
  merge_entry base (text s) = []
  merge_entry base (texts ss) = []
  merge_entry base (other s) = []
  merge_entry base (tables ts) = []
  merge_entry base (items is) = []

-- TomlConfig.MergeDeep
unfoldable pub merge_deep : TomlConfig → Fields → TomlConfig
merge_deep c mp = some (deep_merge_map (or_end c) mp)
