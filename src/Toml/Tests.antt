-- ===== src/Toml/Tests.antt =====
-- Concrete configurations, and the theorems at them.
use matrixone_operator.Base.{◌≡◌, refl, none, some, [], ◌∷◌}
use matrixone_operator.Toml.{
  text, table, tables, Fields, end, field, no_table, entry, find, put, table_at, get, set, get_path,
  set_path, del_path,
}
use matrixone_operator.Toml.Paths.{get_path-set_path, get_path-del_path}
use matrixone_operator.Toml.Merge.{
  deep_merge_map, merge_deep, to_named_map_slice, if_named, maps_of_tables, to_tables, partner,
  name_of, by_name, matches, unmatched, is_matched,
}
use matrixone_operator.Toml.Merge.Precedence.{is_absent, merge_deep-leaf}

abbrev s3 : Fields
s3 = field "name" (text "S3") (field "path" (text "data") end)

abbrev local : Fields
local = field "name" (text "LOCAL") (field "dir" (text "/data") end)

abbrev user_config : Fields
user_config =
    field "log" (table (field "level" (text "info") (field "format" (text "json") end)))
      (field "fileservice" (tables (entry local (entry s3 no_table))) end)

abbrev operator_config : Fields
operator_config = field "log" (table (field "level" (text "debug") end)) (
    field "fileservice"
      (tables (entry (field "name" (text "S3") (field "path" (text "new") end)) no_table)) end)

-- The entries of the override come first; the user's other keys and entries stay.
merged_config :
    merge_deep (some user_config) operator_config
    ≡ some (
        field "log" (table (field "level" (text "debug") (field "format" (text "json") end))) (
          field "fileservice"
            (tables (
              entry
                (field "name" (text "S3") (field "path" (text "new") end))
                (entry local no_table)))
            end))
unfolding merge_deep deep_merge_map find put to_named_map_slice if_named maps_of_tables to_tables
    partner name_of by_name matches unmatched is_matched
merged_config = refl

set_config :
    set_path (some user_config) ("log" ∷ "stats" ∷ "on" ∷ []) (text "yes")
    ≡ some (
        field "log"
          (table (
            field "level" (text "info") (
              field "format"
                (text "json")
                (field "stats" (table (field "on" (text "yes") end)) end))))
          (field "fileservice" (tables (entry local (entry s3 no_table))) end))
unfolding set_path set table_at find put
set_config = refl

get_path-set_path_example :
    (get_path
        (set_path (some user_config) ("log" ∷ "level" ∷ []) (text "warn"))
        ("log" ∷ "level" ∷ [])
      ≡ some (text "warn"))
    × (get_path
          (set_path (some user_config) ("log" ∷ "level" ∷ []) (text "warn"))
          ("log" ∷ "format" ∷ [])
        ≡ get_path (some user_config) ("log" ∷ "format" ∷ []))
get_path-set_path_example =
    get_path-set_path (some user_config) (text "warn") "log" ("level" ∷ []) ("log" ∷ "format" ∷ [])
      refl

get_path-del_path_example :
    (get_path (del_path (some user_config) ("log" ∷ "level" ∷ [])) ("log" ∷ "level" ∷ []) ≡ none)
    × (get_path (del_path (some user_config) ("log" ∷ "level" ∷ [])) ("log" ∷ "format" ∷ [])
        ≡ get_path (some user_config) ("log" ∷ "format" ∷ []))
get_path-del_path_example =
    get_path-del_path (some user_config) "log" ("level" ∷ []) ("log" ∷ "format" ∷ []) refl

merge_deep-leaf_example :
    (get_path (merge_deep (some user_config) operator_config) ("log" ∷ "level" ∷ [])
      ≡ get_path (some operator_config) ("log" ∷ "level" ∷ []))
    × (get_path (merge_deep (some user_config) operator_config) ("log" ∷ "format" ∷ [])
        ≡ get_path (some user_config) ("log" ∷ "format" ∷ []))
unfolding find get table_at is_absent
merge_deep-leaf_example =
    merge_deep-leaf (some user_config) operator_config "log" "log" ("level" ∷ []) ("format" ∷ [])
      ((refl, (refl, tt)), (refl, tt)) refl ((refl, (refl, tt)), (refl, tt)) refl
