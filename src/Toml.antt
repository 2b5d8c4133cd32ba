-- ===== src/Toml.antt =====
-- The configuration tree of a service: TomlConfig of api/core/v1alpha1/toml_config.go. Its text form
-- belongs to a TOML library.
pub mod Paths
pub mod Merge
mod Tests
use matrixone_operator.Base.{◌=s◌, if◌then◌else◌, String, Option, none, some, List, [], ◌∷◌, ◌++◌}

-- `interface{}`, as far as the code tells its types apart. `null` is nil.
mutual
  pub data Value : Type 0 where
    null : Value
    text : String → Value
    texts : List String → Value
    -- a value of another type, by some text of it
    other : String → Value
    table : Fields → Value
    -- []map[string]interface{}
    tables : Tables → Value
    -- []interface{}
    items : Items → Value

  -- map[string]interface{}
  pub data Fields : Type 0 where
    end : Fields
    field : String → Value → Fields → Fields

  pub data Tables : Type 0 where
    no_table : Tables
    entry : Fields → Tables → Tables

  pub data Items : Type 0 where
    no_item : Items
    item : Value → Items → Items

-- `v, ok := m[k]`
unfoldable pub find : String → Fields → Option Value
find k end = none
find k (field j v m) = if j =s k then some v else find k m

-- `m[k] = v`
unfoldable pub put : String → Value → Fields → Fields
put k v end = field k v end
put k v (field j w m) = if j =s k then field k v m else field j w (put k v m)

-- `delete(m, k)`
unfoldable pub remove : String → Fields → Fields
remove k end = end
remove k (field j v m) = let rest = remove k m in if j =s k then rest else field j v rest

abbrev pub or_null : Option Value → Value
or_null none = null
or_null (some v) = v

-- `v.(map[string]interface{})`
abbrev pub as_table : Value → Option Fields
as_table (table m) = some m
as_table null = none
as_table (text s) = none
as_table (texts ss) = none
as_table (other s) = none
as_table (tables ts) = none
as_table (items is) = none

-- The map that a key names, if it names one.
unfoldable pub table_at : String → Fields → Option Fields
table_at k m = as_table (or_null (find k m))

unfoldable pub get : Fields → List String → Value
get m [] = table m
get m (k ∷ []) = or_null (find k m)
get m (k ∷ j ∷ path) = elim (table_at k m) [ none ↦ null | some next ↦ get next (j ∷ path) ]

abbrev pub or_end : Option Fields → Fields
or_end none = end
or_end (some m) = m

-- A key that is missing, or names something other than a map, gets an empty one first.
unfoldable pub set : Fields → Value → List String → Fields
set m v [] = m
set m v (k ∷ []) = put k v m
set m v (k ∷ j ∷ path) = put k (table (set (or_end (table_at k m)) v (j ∷ path))) m

-- TomlConfig: its MP, which may be nil.
abbrev pub TomlConfig : Type 0
TomlConfig = Option Fields

abbrev pub non_null : Value → Option Value
non_null null = none
non_null (text s) = some (text s)
non_null (texts ss) = some (texts ss)
non_null (other s) = some (other s)
non_null (table m) = some (table m)
non_null (tables ts) = some (tables ts)
non_null (items is) = some (items is)

-- TomlConfig.Get
unfoldable pub get_path : TomlConfig → List String → Option Value
get_path none path = none
get_path (some m) path = non_null (get m path)

-- TomlConfig.Set
unfoldable pub set_path : TomlConfig → List String → Value → TomlConfig
set_path c path v = some (set (or_end c) v path)

-- The map that the path before its last key leads to loses that key; where it leads to no map,
-- nothing changes. Maps are changed in place, so each map on the path holds the change.
unfoldable pub del : Fields → List String → Fields
del m [] = m
del m (k ∷ []) = remove k m
del m (k ∷ j ∷ path) = elim (table_at k m) [
  | none ↦ m
  | some next ↦ put k (table (del next (j ∷ path))) m
]

-- TomlConfig.Del, with keyPath.
unfoldable pub del_path : TomlConfig → List String → TomlConfig
del_path none path = none
del_path (some m) path = some (del m path)

-- TomlConfig.Merge
unfoldable pub merge : TomlConfig → Fields → TomlConfig
merge c end = c
merge c (field k v mp) = merge (set_path c (k ∷ []) v) mp

-- Value.AsString
abbrev pub as_string : Value → Option String
as_string (text s) = some s
as_string null = none
as_string (texts ss) = none
as_string (other s) = none
as_string (table m) = none
as_string (tables ts) = none
as_string (items is) = none

-- The loop of Value.AsStringSlice.
abbrev pub strings_of : List String → Items → Option (List String)
strings_of slice no_item = some slice
strings_of slice (item v is) = elim (as_string v) [
  | none ↦ none
  | some s ↦ strings_of (slice ++ s ∷ []) is
]

-- Value.AsStringSlice
abbrev pub as_string_slice : Value → Option (List String)
as_string_slice (texts ss) = some ss
as_string_slice (items is) = strings_of [] is
as_string_slice null = none
as_string_slice (text s) = none
as_string_slice (other s) = none
as_string_slice (table m) = none
as_string_slice (tables ts) = none

-- Value.AsToml
abbrev pub as_toml : Value → Option TomlConfig
as_toml v = elim (as_table v) [ none ↦ none | some m ↦ some (some m) ]
