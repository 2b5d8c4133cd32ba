-- ===== src/Common/Owner.antt =====
-- Which set owns a pod: ResolveOwner of pkg/controllers/common/cnstore.go, up to the read of the set.
use matrixone_operator.Base.{◌=s◌, if◌then◌else◌, String, Option, none, some}
use matrixone_operator.Base.Map.{Map, lookup}
use matrixone_operator.Api.Keys.{component_label_key, instance_label_key}

pub data OwnerKind : Type 0 where
  cn_set dn_set log_set proxy_set : OwnerKind

owner_kind : String → Option OwnerKind
owner_kind comp =
    if comp =s "CNSet"
    then some cn_set
    else if comp =s "DNSet"
    then some dn_set
    else if comp =s "LogSet"
    then some log_set
    else if comp =s "ProxySet"
    then some proxy_set
    else none

named : String → Option OwnerKind → Option (OwnerKind × String)
named name none = none
named name (some kind) = some (kind, name)

owner_named : Option String → Option OwnerKind → Option (OwnerKind × String)
unfolding named
owner_named none kind = none
owner_named (some name) kind = if name =s "" then none else named name kind

owner_of_component : Option String → Map → Option (OwnerKind × String)
unfolding owner_named owner_kind
owner_of_component none labels = none
owner_of_component (some comp) labels =
    owner_named (lookup instance_label_key labels) (owner_kind comp)

-- The kind and the name of the set that a pod's labels name; `none` is an error.
unfoldable pub owner_ref : Map → Option (OwnerKind × String)
unfolding owner_of_component
owner_ref labels = owner_of_component (lookup component_label_key labels) labels
