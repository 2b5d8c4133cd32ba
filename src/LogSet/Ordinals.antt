-- ===== src/LogSet/Ordinals.antt =====
-- The addresses of the pods of a log service, which skip the ordinals that a failover reserved:
-- HaKeeperSvcAddrs and gossipSeeds of pkg/controllers/logset/configmap.go.
pub mod First
use matrixone_operator.Base.{
  ltb, ◌==◌, if◌then◌else◌, length, ℕ, zero, suc, ◌+◌, String, Bool, false, ◌||◌, Option, none,
  some, List, [], ◌∷◌, ◌++◌,
}
use Prim.Native.String.{◌++◌ as join}
use matrixone_operator.Base.Int.{pos}
use matrixone_operator.Base.Decimal.{show_int}
use matrixone_operator.Api.LogSet.{LogSet}

-- `slices.Contains`
abbrev pub contains_ℕ : ℕ → List ℕ → Bool
contains_ℕ i [] = false
contains_ℕ i (j ∷ js) = i == j || contains_ℕ i js

-- resourceName
abbrev pub resource_name : LogSet → String
resource_name l = join l.name "-log"

abbrev pub headless_svc_name : LogSet → String
headless_svc_name l = join (resource_name l) "-headless"

-- `fmt.Sprintf("%s.%s.%s.svc:%d", podName, headlessSvcName(ls), ls.Namespace, port)`
unfoldable pub pod_address : LogSet → ℕ → ℕ → String
pod_address l port i = join (join (resource_name l) (join "-" (show_int (pos i)))) (
    join "." (
      join (headless_svc_name l)
        (join "." (join l.namespace (join ".svc:" (show_int (pos port)))))))

module _ (addr : ℕ → String) (replicas : ℕ) (reserved : List ℕ) where
  -- `for count := int32(0); count < r; i++ { … }`; `none` means that the fuel ran out.
  unfoldable pub addresses_loop : ℕ → ℕ → ℕ → List String → Option (List String)
  addresses_loop zero i count seeds = none
  addresses_loop (suc fuel) i count seeds =
      let skip = addresses_loop fuel (suc i) count seeds in
      let next = addresses_loop fuel (suc i) (suc count) (seeds ++ addr i ∷ []) in
      if ltb count replicas then (if contains_ℕ i reserved then skip else next) else some seeds

  -- Each round either counts a replica or passes a reserved ordinal.
  unfoldable pub addresses : Option (List String)
  addresses = addresses_loop (suc (replicas + length reserved)) 0 0 []

abbrev pub log_service_port : ℕ
log_service_port = 32001

abbrev pub gossip_port : ℕ
gossip_port = 32002

-- HaKeeperSvcAddrs
unfoldable pub ha_keeper_svc_addrs : LogSet → List ℕ → Option (List String)
ha_keeper_svc_addrs l reserved = addresses (pod_address l log_service_port) l.spec.replicas reserved

-- gossipSeeds: with the replicas of the stateful set.
unfoldable pub gossip_seeds : LogSet → ℕ → List ℕ → Option (List String)
gossip_seeds l replicas reserved = addresses (pod_address l gossip_port) replicas reserved
