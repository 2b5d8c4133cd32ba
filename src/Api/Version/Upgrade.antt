-- ===== src/Api/Version/Upgrade.antt =====
-- Features across versions.
use matrixone_operator.Base.{◌≤◌, ◌<◌, ◌≡◌, ◌⊎◌, true, arith}
use matrixone_operator.Api.Version.{
  Version, MoFeature, pipeline_info, session_source, lock_migration, discovery_fixed,
  sharding_migration, feature_versions, feature_global_min_version, version_precedes,
  version_precedes_cross_major, any_precedes, has_global, has_mo_feature,
}

-- A version keeps every feature of an earlier version with the same major number: if the minor
-- number grows, or stays and the patch number does not fall, no feature is lost.
pub has_mo_feature_upgrade :
    (v w : Version) (f : MoFeature)
    → v.major ≡ w.major
    → (v.minor < w.minor) ⊎ ((v.minor ≡ w.minor) × (v.patch ≤ w.patch))
    → has_mo_feature v f ≡ true
    → has_mo_feature w f ≡ true
unfolding has_mo_feature feature_versions feature_global_min_version any_precedes version_precedes
    version_precedes_cross_major has_global
has_mo_feature_upgrade v w pipeline_info m later h = ground arith
has_mo_feature_upgrade v w session_source m later h = ground arith
has_mo_feature_upgrade v w lock_migration m later h = ground arith
has_mo_feature_upgrade v w discovery_fixed m later h = ground arith
has_mo_feature_upgrade v w sharding_migration m later h = ground arith
