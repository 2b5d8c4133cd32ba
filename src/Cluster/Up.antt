-- ===== src/Cluster/Up.antt =====
-- Observe and Up of pkg/controllers/mocluster/controller.go, and the conditions of a cluster.
pub mod Calls
pub mod Groups
pub mod Ready
pub mod Publish
pub mod Whole
use matrixone_operator.Base.{
  leb, ◌=s◌, if◌then◌else◌, length, ℕ, ◌+◌, String, Bool, true, false, not, ◌&&◌, Option, none,
  some, List, [], ◌∷◌, ◌++◌, map,
}
use matrixone_operator.Base.Run.{resync, failed, done, M, ◌>>=◌, ◌>>◌, pure, throw}
use Prim.Native.String.{◌++◌ as join}
use matrixone_operator.Base.Map.{get, insert}
use matrixone_operator.Bucket.{contains}
use matrixone_operator.Cluster.{
  Cluster, SetStatus, CnSetItem, CnGroupsStatus, Condition, ClusterStatus, read_backup,
  sync_restore, sync_log_set, sync_dn_set, sync_cn_set, list_cn_sets, delete_cn_set, sync_web_ui,
  sync_proxy, MoServer, MoState, call, set_status,
}
use matrixone_operator.Cluster.Metric.{init_root_credential, initialize_metric_user}

abbrev pub restore_complete_anno : String
restore_complete_anno = "matrixorigin.io/restore-complete"

abbrev pub ann_skip_sync : String
ann_skip_sync = "matrixorigin.io/skip-sync"

-- The groups, with those of TP and AP after them.
unfoldable pub all_groups : Cluster → List String
all_groups m =
    m.cn_groups ++ (if m.has_tp then "tp" ∷ [] else []) ++ (if m.has_ap then "ap" ∷ [] else [])

abbrev pub cn_set_name : Cluster → String → String
cn_set_name m g = join m.name (join "-" g)

unfoldable pub desired_cn_sets : Cluster → List String
desired_cn_sets m = map (cn_set_name m) (all_groups m)

abbrev pub is_wanted : Cluster → CnSetItem → Bool
is_wanted m i = contains i.set_name (desired_cn_sets m)

-- recon.IsReady and recon.IsSynced of a status that may be missing.
abbrev pub set_ready : Option SetStatus → Bool
set_ready none = false
set_ready (some s) = s.ready

abbrev pub set_synced : Option SetStatus → Bool
set_synced none = false
set_synced (some s) = s.synced

-- CNGroupsStatus.Ready
abbrev pub groups_ready : CnGroupsStatus → Bool
groups_ready g = leb g.desired_groups g.ready_groups

-- CNGroupsStatus.Synced
abbrev pub groups_synced : CnGroupsStatus → Bool
groups_synced g = leb g.desired_groups g.synced_groups

-- readyCondition
unfoldable pub ready_condition : Cluster → ClusterStatus → Condition
ready_condition m st =
    if not (set_ready st.log_service)
    then record { holds = false; reason = "LogServiceNotReady" }
    else if not (set_ready st.dn)
    then record { holds = false; reason = "DNSetNotReady" }
    else if not (groups_ready st.cn_group_status)
    then record { holds = false; reason = "SomeCNSetsAreNotReady" }
    else if m.has_proxy && not (set_ready st.proxy)
    then record { holds = false; reason = "ProxySetNotReady" }
    else record { holds = true; reason = "AllSetsReady" }

-- syncedCondition
unfoldable pub synced_condition : Cluster → ClusterStatus → Condition
synced_condition m st =
    if not (set_synced st.log_service)
    then record { holds = false; reason = "LogServiceNotSynced" }
    else if not (set_synced st.dn)
    then record { holds = false; reason = "DNSetNotSynced" }
    else if not (groups_synced st.cn_group_status)
    then record { holds = false; reason = "SomeCNSetsAreNotSynced" }
    else if m.has_proxy && not (set_synced st.proxy)
    then record { holds = false; reason = "ProxyNotSynced" }
    else record { holds = true; reason = "AllSetsSynced" }

-- What the loop over the listed sets gathers.
pub record Gathered : Type 0 where
  pub status : CnGroupsStatus
  pub first_cn : Option CnSetItem

abbrev pub or_first : CnSetItem → Option CnSetItem → Option CnSetItem
or_first i none = some i
or_first i (some f) = some f

abbrev pub one_if : Bool → ℕ
one_if b = if b then 1 else 0

module _ (k : MoServer) (m : Cluster) where
  abbrev pub add_item : CnSetItem → Gathered → Gathered
  add_item i g = record {
    status = record {
      desired_groups = g.status.desired_groups;
      ready_groups = g.status.ready_groups + one_if i.set_status.ready;
      synced_groups = g.status.synced_groups + one_if i.set_status.synced;
      groups = k.upsert_group g.status.groups (record {
        group_name = i.set_name;
        group_host = join i.set_name (join "-cn." m.namespace);
        group_ready = i.set_status.ready;
        group_synced = i.set_status.synced;
      });
    };
    first_cn = or_first i g.first_cn;
  }

  unfoldable pub sync_cn_sets : List String → M MoState (Unit {0})
  sync_cn_sets [] = pure tt
  sync_cn_sets (n ∷ ns) = call (sync_cn_set n) (λ cs. k.cn_set cs n) >> sync_cn_sets ns

  -- A set that is not wanted is deleted.
  unfoldable pub gather : List CnSetItem → Gathered → M MoState Gathered
  gather [] g = pure g
  gather (i ∷ is) g = elim (is_wanted m i) [
    | true ↦ gather is (add_item i g)
    | false ↦ call (delete_cn_set i.set_name) (λ cs. k.cn_set_deleted cs i.set_name) >> gather is g
  ]

  abbrev pub no_groups : Gathered
  no_groups = record {
    status = record {
      desired_groups = length (all_groups m);
      ready_groups = 0;
      synced_groups = 0;
      groups = [];
    };
    first_cn = none;
  }

  unfoldable pub collect_groups : M MoState (Option CnSetItem)
  collect_groups = call list_cn_sets (λ cs. k.cn_sets cs) >>= λ items.
      gather items no_groups >>= λ g.
      set_status (λ st. record st { cn_group_status = g.status }) >> pure g.first_cn

  unfoldable pub sync_optional : M MoState (Unit {0})
  sync_optional =
      (elim m.has_web_ui [
        | true ↦ call sync_web_ui (λ cs. k.web_ui cs) >>= λ w.
            set_status (λ st. record st { web_ui = some w })
        | false ↦ pure tt
      ])
      >> (elim m.has_proxy [
        | true ↦ call sync_proxy (λ cs. k.proxy cs) >>= λ p.
            set_status (λ st. record st { proxy = some p })
        | false ↦ pure tt
      ])

  abbrev pub phase_of : Condition → String
  phase_of c = if c.holds then "Ready" else "NotReady"

  -- The status of the sets, and the two conditions from it.
  abbrev pub with_conditions : ClusterStatus → ClusterStatus
  with_conditions st = record st {
    phase = phase_of (ready_condition m st);
    is_synced = some (synced_condition m st);
    is_ready = some (ready_condition m st);
  }

  unfoldable pub collect_status : SetStatus → SetStatus → M MoState (Unit {0})
  collect_status ls dn =
      set_status (λ st. with_conditions (record st { log_service = some ls; dn = some dn }))

  -- The user of the metrics is made once there is a CN.
  unfoldable pub sync_metric_user : Option CnSetItem → M MoState (Unit {0})
  sync_metric_user none s = done tt s
  sync_metric_user (some i) s =
      (elim (m.metric_reader_enabled && not s.status.metric_initialized)
          as (λ _. M MoState (Unit {0})) [
            | true ↦ initialize_metric_user k m i.set_status.host
            | false ↦ pure tt
          ])
        s

  abbrev pub set_address : SetStatus → M MoState (Unit {0})
  set_address a = set_status (λ st. record st { host = a.host; port = a.port })

  -- A status that is missing is a nil pointer, and ends the run.
  abbrev pub address_from : Option SetStatus → M MoState (Unit {0})
  address_from none = throw failed
  address_from (some a) = set_address a

  abbrev pub address_from_cn : Option CnSetItem → M MoState (Unit {0})
  address_from_cn none = throw failed
  address_from_cn (some i) = set_address i.set_status

  abbrev pub publish : Option CnSetItem → M MoState (Unit {0})
  publish first s =
      (elim m.has_proxy as (λ _. M MoState (Unit {0})) [
        | true ↦ address_from s.status.proxy
        | false ↦ address_from_cn first
      ])
        s

  abbrev pub holds_condition : Option Condition → Bool
  holds_condition none = false
  holds_condition (some c) = c.holds

  unfoldable pub conclude : Option CnSetItem → M MoState (Unit {0})
  conclude first s =
      (elim (holds_condition s.status.is_ready) as (λ _. M MoState (Unit {0})) [
        | true ↦ publish first
        | false ↦ throw (resync 15)
      ])
        s

  -- Once the groups are known.
  abbrev pub finish : SetStatus → SetStatus → Option CnSetItem → M MoState (Unit {0})
  finish ls dn first =
      sync_optional >> (collect_status ls dn >> (sync_metric_user first >> conclude first))

  abbrev pub with_groups : SetStatus → SetStatus → M MoState (Unit {0})
  with_groups ls dn = sync_cn_sets (desired_cn_sets m) >> (collect_groups >>= finish ls dn)

  -- Up
  unfoldable pub up : M MoState (Unit {0})
  up =
      init_root_credential k m
      >> (call sync_log_set (λ cs. k.log_set cs) >>= λ ls.
          call sync_dn_set (λ cs. k.dn_set cs) >>= with_groups ls)

  abbrev pub restored : String → M MoState (Unit {0})
  restored phase =
      if phase =s "Failed"
      then set_status
          (λ st. record st { is_ready = some (record { holds = false; reason = "RestoreFailed" }) })
      else if phase =s "Completed"
      then (λ s.
          done tt (record s { annotations = insert restore_complete_anno "True" s.annotations }))
        >> up
      else throw (resync 15)

  unfoldable pub restore_first : Option String → M MoState (Unit {0})
  restore_first none s = up s
  restore_first (some b) s =
      (if get restore_complete_anno s.annotations =s ""
          then call (read_backup b) (λ cs. k.backup cs b)
            >> (call sync_restore (λ cs. k.restore cs) >>= restored)
          else up)
        s

  -- Observe
  unfoldable pub observe : M MoState (Unit {0})
  observe s =
      (if get ann_skip_sync s.annotations =s "" then restore_first m.restore_from else pure tt) s
