-- ===== src/Common/Score.antt =====
-- The score of a CN store: StoreScore of pkg/controllers/common/cnstore.go. Times are seconds.
use matrixone_operator.Base.{
  ◌==◌, ◌=s◌, if◌then◌else◌, ℕ, String, Bool, false, ◌&&◌, Option, none, some,
}
use matrixone_operator.Base.Map.{Map, lookup, insert}
use matrixone_operator.Api.Keys.{store_score_anno}
use matrixone_operator.Base.Int.{ℤ, pos, is_zero}
use matrixone_operator.Base.Decimal.{parse_int64}

pub record StoreScore : Type 0 where
  pub session_count : ℤ
  pub pipeline_count : ℤ
  pub replica_count : ℤ
  pub session_observed : Bool
  pub pipeline_observed : Bool
  pub replica_observed : Bool
  pub started_time : Option ℕ

-- `&StoreScore{}`
abbrev pub no_score : StoreScore
no_score = record {
  session_count = pos 0;
  pipeline_count = pos 0;
  replica_count = pos 0;
  session_observed = false;
  pipeline_observed = false;
  replica_observed = false;
  started_time = none;
}

unfoldable pub gen_deletion_cost : StoreScore → ℤ
gen_deletion_cost s = s.session_count

unfoldable pub is_safe_to_reclaim : StoreScore → Bool
is_safe_to_reclaim s =
    s.session_observed
    && s.pipeline_observed
    && s.replica_observed
    && is_zero s.session_count
    && is_zero s.pipeline_count
    && is_zero s.replica_count

started_at : ℕ → Option ℕ → Bool
started_at t none = false
started_at t (some u) = u == t

unfoldable pub begin_observation : ℕ → StoreScore → StoreScore
unfolding started_at
begin_observation started s =
    if started_at started s.started_time
    then record s { session_observed = false; pipeline_observed = false; replica_observed = false }
    else record no_score { started_time = some started }

-- encoding/json, as far as it concerns a score.
pub record Json : Type 0 where
  pub marshal : StoreScore → String
  pub unmarshal : String → Option StoreScore

-- The old format: a plain count. (Where such a text is no JSON object, Unmarshal sets no field.)
old_score : Option ℤ → Option StoreScore
old_score none = none
old_score (some n) = some (record no_score { session_count = n })

parsed_score : String → Option StoreScore → Option StoreScore
unfolding old_score
parsed_score text (some s) = some s
parsed_score text none = old_score (parse_int64 text)

score_in : Json → Option String → Option StoreScore
unfolding parsed_score
score_in j none = none
score_in j (some text) = if text =s "" then some no_score else parsed_score text (j.unmarshal text)

-- GetStoreScore; `none` is an error.
unfoldable pub get_store_score : Json → Map → Option StoreScore
unfolding score_in
get_store_score j annotations = score_in j (lookup store_score_anno annotations)

-- SetStoreScore. (Marshal has no error for this type.)
unfoldable pub set_store_score : Json → StoreScore → Map → Map
set_store_score j s annotations = insert store_score_anno (j.marshal s) annotations
