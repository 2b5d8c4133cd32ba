-- ===== src/Pool/Build.antt =====
-- The CNSet that a pool wants: buildCNSet, syncCNSetSpec, generateRevisionHash and ownedLabels of
-- pkg/controllers/cnpool/controller.go.
pub mod Revisions
use matrixone_operator.Base.{if◌then◌else◌, String, true, not, Option, none, some, [], ◌∷◌}
use matrixone_operator.Base.Map.{Map, insert, insert_all}
use matrixone_operator.Base.Run.{failed, M, pure, throw}
use matrixone_operator.Api.Keys.{
  phase_unknown, cn_pod_phase_label, pool_name_label, pod_management_policy_pooling,
}
use matrixone_operator.Api.Version.{
  Version, enabled, get_operator_version, inplace_pool_rolling_update,
}
use matrixone_operator.Api.Sets.{ScalingConfig}
use matrixone_operator.Pool.State.{
  Overlay, SetSpec, SetItem, CnPool, Revision, PoolState, PoolServer,
}
use Prim.Native.String.{◌++◌ as join}

unfoldable pub owned_labels : CnPool → Map
owned_labels p =
    ("matrixorigin.io/managed-by", join p.kind (join "-" p.name))
    ∷ ("matrixorigin.io/owner-uid", p.uid)
    ∷ []

-- A missing overlay is an empty one.
abbrev overlay_of : Option Overlay → Overlay
overlay_of none = record { pod_labels = []; pod_annotations = [] }
overlay_of (some o) = o

abbrev pool_overlay : CnPool → Overlay → Overlay
pool_overlay p o = record o {
  pod_labels =
      insert pool_name_label p.name
        (insert cn_pod_phase_label phase_unknown (insert_all p.pod_labels o.pod_labels));
}

abbrev drained : ScalingConfig → ScalingConfig
drained c = record c { store_drain_enabled = some true }

-- The fields that the pool manages. Updates are paused where a change makes a new set.
unfoldable pub sync_cn_set_spec : (String → Option Version) → CnPool → SetSpec → SetSpec
sync_cn_set_spec parse p spec = record spec {
  pod_management_policy = some pod_management_policy_pooling;
  pause_update = not (
      enabled inplace_pool_rolling_update
        (get_operator_version parse (SetSpec.operator_version (CnPool.template p))));
  scaling_config = drained spec.scaling_config;
  labels = [];
  replicas = 0;
  service_type = "";
  service_annotations = [];
  node_port = none;
  max_surge = some 0;
  max_unavailable = some 1;
  overlay = some (pool_overlay p (overlay_of spec.overlay));
}

-- What the hash is taken of: without labels and annotations of pods, and without image and
-- configuration where these are updated in place. A missing overlay is a nil pointer.
unfoldable pub revision_of : (String → Option Version) → SetSpec → Revision
revision_of parse spec =
    let inplace =
      enabled inplace_pool_rolling_update (get_operator_version parse spec.operator_version) in
    record {
      image = if inplace then "" else spec.image;
      config = if inplace then none else spec.config;
      overlay = some (record (overlay_of spec.overlay) { pod_labels = []; pod_annotations = [] });
      replicas = spec.replicas;
      operator_version = spec.operator_version;
      rest = spec.rest;
    }

abbrev pub with_hash : (String → Option Version) → CnPool → String → SetItem
with_hash parse p h = record {
  name = join p.name (join "-" h);
  labels = insert "controller-revision-hash" h (owned_labels p);
  spec = sync_cn_set_spec parse p p.template;
  status_replicas = 0;
  label_selector = "";
}

abbrev named : PoolServer → CnPool → Option String → M PoolState SetItem
named k p none = throw failed
named k p (some h) = pure (with_hash k.parse_version p h)

unfoldable pub build_cn_set : PoolServer → CnPool → M PoolState SetItem
build_cn_set k p =
    named k p (k.hash (revision_of k.parse_version (sync_cn_set_spec k.parse_version p p.template)))
