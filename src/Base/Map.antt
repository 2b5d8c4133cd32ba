-- ===== src/Base/Map.antt =====
-- Go's `map[string]string` as an association list; a missing key reads as the empty string.
use Prim.Native.String.{String}
use mathlib.Core.Path.{◌≡◌, refl}
use mathlib.Core.Bool.{Bool, true, false}
use mathlib.Core.Option.{Option, none, some}
use mathlib.Core.List.{List, [], ◌∷◌}
use native.Mathlib.Omega.{arith}
use matrixone_operator.Base.Tests.{◌=s◌, if◌then◌else◌, =s_iff, =s_refl}

abbrev pub Map : Type 0
Map = List (String × String)

-- `v, ok := m[k]`
unfoldable pub lookup : String → Map → Option String
lookup k [] = none
lookup k ((j, v) ∷ m) = if j =s k then some v else lookup k m

abbrev pub or_empty : Option String → String
or_empty none = ""
or_empty (some v) = v

-- `m[k]`
abbrev pub get : String → Map → String
get k m = or_empty (lookup k m)

abbrev is_some : Option String → Bool
is_some none = false
is_some (some v) = true

-- `_, ok := m[k]`
abbrev pub has : String → Map → Bool
has k m = is_some (lookup k m)

-- `m[k] = v`
unfoldable pub insert : String → String → Map → Map
insert k v [] = (k, v) ∷ []
insert k v ((j, w) ∷ m) = if j =s k then (k, v) ∷ m else (j, w) ∷ insert k v m

-- `delete(m, k)`
unfoldable pub delete : String → Map → Map
delete k [] = []
delete k ((j, v) ∷ m) = let rest = delete k m in if j =s k then rest else (j, v) ∷ rest

-- `for k, v := range src { m[k] = v }`
unfoldable pub insert_all : Map → Map → Map
insert_all [] m = m
insert_all ((k, v) ∷ src) m = insert_all src (insert k v m)

-- `for k := range src { delete(m, k) }`
unfoldable pub delete_all : Map → Map → Map
delete_all [] m = m
delete_all ((k, v) ∷ src) m = delete_all src (delete k m)

pub lookup-insert :
    (k j v : String) (m : Map) → lookup j (insert k v m) ≡ (if k =s j then some v else lookup j m)
unfolding lookup insert
lookup-insert k j v [] = refl
lookup-insert k j v ((i, w) ∷ m) =
    ground (arith, =s_iff k j, =s_iff i k, =s_iff i j, lookup-insert k j v m)

pub lookup-delete :
    (k j : String) (m : Map) → lookup j (delete k m) ≡ (if k =s j then none else lookup j m)
unfolding lookup delete
lookup-delete k j [] = ground arith
lookup-delete k j ((i, w) ∷ m) =
    ground (arith, =s_iff k j, =s_iff i k, =s_iff i j, lookup-delete k j m)

-- A key that a map does not hold is untouched by a loop over that map.
pub lookup-insert_all :
    (src : Map) (j : String) (m : Map)
    → lookup j src ≡ none
    → lookup j (insert_all src m) ≡ lookup j m
unfolding lookup insert_all
lookup-insert_all [] j m h = refl
lookup-insert_all ((k, v) ∷ src) j m h =
    ground (arith, lookup-insert k j v m, lookup-insert_all src j (insert k v m))

pub lookup-delete_all :
    (src : Map) (j : String) (m : Map)
    → lookup j (delete_all src m) ≡ elim (lookup j src) [ none ↦ lookup j m | some v ↦ none ]
unfolding lookup delete_all
lookup-delete_all [] j m = refl
lookup-delete_all ((k, v) ∷ src) j m =
    ground (arith, lookup-delete k j m, lookup-delete_all src j (delete k m))

pub ruleset map_laws = (lookup-insert, lookup-delete, =s_refl)
