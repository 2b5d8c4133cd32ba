-- ===== src/Store/Stats/Evidence.antt =====
-- When a store's score says that it is safe to reclaim.
use matrixone_operator.Base.{
  ◌==◌, if◌then◌else◌, Bool-cases, count_if, ℕ, String, ◌≡◌, refl, ap, ◌∙◌, inl, inr, Bool, true,
  false, not, ◌&&◌, ◌||◌, Option, none, some, List, ◌∷◌, arith,
}
use matrixone_operator.Base.Run.{Ends}
use matrixone_operator.Api.Version.{Version, has_mo_feature, pipeline_info, sharding_migration}
use matrixone_operator.Common.Score.{StoreScore, is_safe_to_reclaim, begin_observation}
use matrixone_operator.Store.State.{
  Session, StoreCall, show_process_list, pipeline_query, StoreState, StoreServer,
}
use matrixone_operator.Store.Stats.{
  is_counted_session, count_sessions, observe_sessions, observe_pipelines, observe_replicas,
  counted, get_session_count, get_pipeline_count, get_replica_count, collect_query_stats,
}

-- After the start of an observation round no score is safe, for a store that restarted or not.
pub begin_observation-unsafe :
    (t : ℕ) (sc : StoreScore) → is_safe_to_reclaim (begin_observation t sc) ≡ false
unfolding is_safe_to_reclaim begin_observation
begin_observation-unsafe t sc = ground arith

-- No observation of the round has been made.
abbrev pub IsUnobserved : StoreScore → Type 0
IsUnobserved sc =
    (sc.session_observed ≡ false) × (sc.pipeline_observed ≡ false) × (sc.replica_observed ≡ false)

begin-IsUnobserved : (t : ℕ) (sc : StoreScore) → IsUnobserved (begin_observation t sc)
unfolding begin_observation
begin-IsUnobserved t sc = (ground arith, ground arith, ground arith)

-- A query answered, with a count of zero.
unfoldable pub answered_zero : Option ℕ → Bool
answered_zero none = false
answered_zero (some n) = n == 0

-- The process list was answered, and no session of it counts.
unfoldable pub no_session : Version → Option (List Session) → Bool
no_session v none = false
no_session v (some ss) = count_if (is_counted_session v) ss == 0

safe_after :
    (sc : StoreScore) (a b c : Option ℕ)
    → IsUnobserved sc
    → is_safe_to_reclaim (observe_replicas c (observe_pipelines b (observe_sessions a sc)))
      ≡ (answered_zero a && answered_zero b && answered_zero c)
unfolding is_safe_to_reclaim answered_zero observe_replicas observe_pipelines observe_sessions
safe_after sc none none none (x, y, z) = ground arith
safe_after sc none none (some n) (x, y, z) = ground arith
safe_after sc none (some j) none (x, y, z) = ground arith
safe_after sc none (some j) (some n) (x, y, z) = ground arith
safe_after sc (some i) none none (x, y, z) = ground arith
safe_after sc (some i) none (some n) (x, y, z) = ground arith
safe_after sc (some i) (some j) none (x, y, z) = ground arith
safe_after sc (some i) (some j) (some n) (x, y, z) = ground arith

counted_lem :
    (v : Version) (o : Option (List Session)) → answered_zero (counted v o) ≡ no_session v o
unfolding counted answered_zero no_session count_sessions
counted_lem v none = refl
counted_lem v (some ss) = refl

-- What a round of queries must have found.
abbrev pub drained : StoreServer → String → Version → List StoreCall → Bool
drained k addr v calls =
    no_session v (k.process_list calls addr)
    && (not (has_mo_feature v pipeline_info) || answered_zero (k.pipelines listed addr))
    && (not (has_mo_feature v sharding_migration) || answered_zero (k.replicas queried addr))
  where
    listed : List StoreCall
    listed = show_process_list addr ∷ calls

    queried : List StoreCall
    queried = if has_mo_feature v pipeline_info then pipeline_query addr ∷ listed else listed

-- A round of queries ends without an error, and its score is safe exactly if the process list was
-- answered with no session that counts, and the pipeline and replica queries, each where the
-- version has it, were answered with zero, whatever the score was before the round.
pub collect_query_stats-safe :
    (k : StoreServer) (t : ℕ) (sc : StoreScore) (addr : String) (v : Version) (s : StoreState)
    → Ends
        (λ out _. is_safe_to_reclaim out ≡ drained k addr v s.calls)
        (λ _ _. true ≡ false)
        (collect_query_stats k (begin_observation t sc) addr v s)
unfolding collect_query_stats get_session_count get_pipeline_count get_replica_count answered_zero
collect_query_stats-safe k t sc addr v s = elim (Bool-cases (has_mo_feature v pipeline_info)) [
  | inl e ↦ elim (Bool-cases (has_mo_feature v sharding_migration)) [
    | inl f ↦
        rw
          (
            e, f, Ends, collect_query_stats, get_session_count, get_pipeline_count,
            get_replica_count,
          )
          (rw (e, f, drained) (safe _ _))
    | inr f ↦
        rw
          (
            e, f, Ends, collect_query_stats, get_session_count, get_pipeline_count,
            get_replica_count,
          )
          (rw (e, f, drained) (safe _ _))
  ]
  | inr e ↦ elim (Bool-cases (has_mo_feature v sharding_migration)) [
    | inl f ↦
        rw
          (
            e, f, Ends, collect_query_stats, get_session_count, get_pipeline_count,
            get_replica_count,
          )
          (rw (e, f, drained) (safe _ _))
    | inr f ↦
        rw
          (
            e, f, Ends, collect_query_stats, get_session_count, get_pipeline_count,
            get_replica_count,
          )
          (rw (e, f, drained) (safe _ _))
  ]
]
  where
    safe :
        (b c : Option ℕ)
        → is_safe_to_reclaim (
            observe_replicas c (
              observe_pipelines b (
                observe_sessions
                  (counted v (k.process_list s.calls addr))
                  (begin_observation t sc))))
          ≡ (no_session v (k.process_list s.calls addr) && answered_zero b && answered_zero c)
    safe b c =
        safe_after (begin_observation t sc) (counted v (k.process_list s.calls addr)) b c
          (begin-IsUnobserved t sc)
        ∙ ap (λ z. z && answered_zero b && answered_zero c)
            (counted_lem v (k.process_list s.calls addr))
