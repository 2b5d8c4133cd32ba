-- ===== src/Api/Version.antt =====
-- Which features a version of MatrixOne has: api/core/v1alpha1/semver.go.
pub mod Upgrade
use matrixone_operator.Base.{
  ltb, leb, ◌==◌, if◌then◌else◌, ℕ, String, Bool, true, false, not, ◌&&◌, ◌||◌, Option, none, some,
  List, [], ◌∷◌,
}

-- semver.Version, without its pre-release and build parts, which the code does not read.
pub record Version : Type 0 where
  pub major : ℕ
  pub minor : ℕ
  pub patch : ℕ

abbrev v : ℕ → ℕ → ℕ → Version
v a b c = record { major = a; minor = b; patch = c }

pub data MoFeature : Type 0 where
  pipeline_info session_source lock_migration discovery_fixed sharding_migration : MoFeature

unfoldable pub feature_versions : MoFeature → List Version
feature_versions pipeline_info = v 1 1 2 ∷ v 1 2 0 ∷ v 2 0 0 ∷ v 3 0 0 ∷ v 4 0 0 ∷ []
feature_versions session_source = v 1 1 2 ∷ v 1 2 0 ∷ v 2 0 0 ∷ []
feature_versions lock_migration = v 1 2 0 ∷ v 2 0 0 ∷ []
feature_versions sharding_migration = v 2 0 0 ∷ []
feature_versions discovery_fixed = []

unfoldable pub feature_global_min_version : MoFeature → Option Version
feature_global_min_version discovery_fixed = some (v 2 0 0)
feature_global_min_version pipeline_info = none
feature_global_min_version session_source = none
feature_global_min_version lock_migration = none
feature_global_min_version sharding_migration = none

unfoldable pub version_precedes : Version → Version → Bool
version_precedes base current =
    if not (base.major == current.major)
    then false
    else if base.patch == 0 && leb base.minor current.minor
    then true
    else base.minor == current.minor && leb base.patch current.patch

unfoldable pub version_precedes_cross_major : Version → Version → Bool
version_precedes_cross_major base current =
    if not (current.major == base.major)
    then ltb base.major current.major
    else if base.patch == 0 && leb base.minor current.minor
    then true
    else base.minor == current.minor && leb base.patch current.patch

unfoldable pub any_precedes : List Version → Version → Bool
any_precedes [] current = false
any_precedes (base ∷ bases) current = version_precedes base current || any_precedes bases current

has_global : Option Version → Version → Bool
has_global none current = false
has_global (some base) current = version_precedes_cross_major base current

unfoldable pub has_mo_feature : Version → MoFeature → Bool
unfolding has_global any_precedes
has_mo_feature current f =
    has_global (feature_global_min_version f) current || any_precedes (feature_versions f) current

-- The gates of the operator's own version: api/core/v1alpha1/operator_version.go.
pub data Gate : Type 0 where
  inplace_configmap_update inplace_pool_rolling_update : Gate

unfoldable pub gate_versions : Gate → List Version
gate_versions inplace_configmap_update = v 1 3 0 ∷ []
gate_versions inplace_pool_rolling_update = v 1 3 0 ∷ []

-- GetOperatorVersion of api/core/v1alpha1/common_helpers.go: a version that is missing or that the
-- parser semver.ParseTolerant refuses counts as FirstOpVersion.
abbrev pub first_op_version : Version
first_op_version = v 1 2 0

abbrev parsed_or_first : Option Version → Version
parsed_or_first none = first_op_version
parsed_or_first (some current) = current

unfoldable pub get_operator_version : (String → Option Version) → Option String → Version
get_operator_version parse none = first_op_version
get_operator_version parse (some text) = parsed_or_first (parse text)

unfoldable pub enabled : Gate → Version → Bool
enabled g current = any_precedes (gate_versions g) current
