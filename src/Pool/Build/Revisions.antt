-- ===== src/Pool/Build/Revisions.antt =====
-- Which changes of a template make a new set: the revision of generateRevisionHash.
use matrixone_operator.Base.{
  if◌then◌else◌, ◌≡◌, refl, ap, ◌↔◌, String, Option, Bool, true, false, none, some, [], arith,
}
use matrixone_operator.Api.Version.{
  Version, enabled, get_operator_version, inplace_pool_rolling_update,
}
use matrixone_operator.Pool.State.{SetSpec, CnPool, Revision}
use matrixone_operator.Pool.Build.{sync_cn_set_spec, revision_of}

-- Images and configurations are updated in place.
abbrev pub updates_in_place : (String → Option Version) → SetSpec → Bool
updates_in_place parse t =
    enabled inplace_pool_rolling_update (get_operator_version parse t.operator_version)

-- The templates agree in what a running pod cannot take over.
pub record IsSameRevision (parse : String → Option Version) (t u : SetSpec) : Type 0 where
  pub version : t.operator_version ≡ u.operator_version
  pub rest : t.rest ≡ u.rest
  pub image : updates_in_place parse t ≡ false → t.image ≡ u.image
  pub config : updates_in_place parse t ≡ false → t.config ≡ u.config

at_restart-eq {ℓ} :
    {A : Type ℓ} (b c : Bool) (d x y : A)
    → b ≡ c
    → (b ≡ false → x ≡ y)
    → (if b then d else x) ≡ (if c then d else y)
at_restart-eq true true d x y e h = refl
at_restart-eq true false d x y e h = ground (arith, e)
at_restart-eq false true d x y e h = ground (arith, e)
at_restart-eq false false d x y e h = h refl

at_restart-off {ℓ} :
    {A : Type ℓ} (b c : Bool) (d x y : A)
    → b ≡ c
    → (if b then d else x) ≡ (if c then d else y)
    → b ≡ false
    → x ≡ y
at_restart-off true c d x y e h off = ground (arith, off)
at_restart-off false true d x y e h off = ground (arith, e)
at_restart-off false false d x y e h off = h

-- The revision that names a pool's set is the same for two templates exactly if they have the same
-- operator version as it is written, or both have none, and agree in the parts that the pool only
-- copies and, unless the version that this text stands for updates them in place, in image and
-- configuration: so no change of replicas, labels, services, update strategy, or labels and
-- annotations of pods makes a new set, and a change of the image makes one only without updates in
-- place.
pub revision_of_iff :
    (parse : String → Option Version) (p q : CnPool) (t u : SetSpec)
    → (revision_of parse (sync_cn_set_spec parse p t)
        ≡ revision_of parse (sync_cn_set_spec parse q u))
      ↔ IsSameRevision parse t u
unfolding revision_of sync_cn_set_spec
revision_of_iff parse p q t u = (to, from)
  where
    gate : Option String → Bool
    gate o = enabled inplace_pool_rolling_update (get_operator_version parse o)

    to :
        revision_of parse (sync_cn_set_spec parse p t)
          ≡ revision_of parse (sync_cn_set_spec parse q u)
        → IsSameRevision parse t u
    to e = record {
      version = ap (λ (r : Revision). r.operator_version) e;
      rest = ap (λ (r : Revision). r.rest) e;
      image =
          at_restart-off (updates_in_place parse t) (updates_in_place parse u) "" t.image u.image
            (ap gate (ap (λ (r : Revision). r.operator_version) e))
            (ap (λ (r : Revision). r.image) e);
      config =
          at_restart-off (updates_in_place parse t) (updates_in_place parse u) none t.config
            u.config (ap gate (ap (λ (r : Revision). r.operator_version) e))
            (ap (λ (r : Revision). r.config) e);
    }

    from :
        IsSameRevision parse t u
        → revision_of parse (sync_cn_set_spec parse p t)
          ≡ revision_of parse (sync_cn_set_spec parse q u)
    from s = λ i. record {
      image =
          at_restart-eq (updates_in_place parse t) (updates_in_place parse u) "" t.image u.image
            (ap gate s.version) s.image i;
      config =
          at_restart-eq (updates_in_place parse t) (updates_in_place parse u) none t.config u.config
            (ap gate s.version) s.config i;
      overlay = some (record { pod_labels = []; pod_annotations = [] });
      replicas = 0;
      operator_version = s.version i;
      rest = s.rest i;
    }
