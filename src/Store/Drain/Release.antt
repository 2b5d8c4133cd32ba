-- ===== src/Store/Drain/Release.antt =====
-- When a store that is about to stop counts as drained.
use matrixone_operator.Base.{
  ltb, ℕ, ◌+◌, ◌≤◌, ◌≡◌, refl, sym, ap, ◌∙◌, subst, Bool, true, false, Option, none, some, List,
  arith,
}
use matrixone_operator.Base.Run.{done, Ends, Ends-bind, Ends-map, Ends-ite, Ends-any}
use matrixone_operator.Api.Claim.{WorkState}
use matrixone_operator.Api.Pod.{Pod}
use matrixone_operator.Api.Sets.{CnSet, get_min_delay_duration}
use matrixone_operator.Api.Version.{has_mo_feature, lock_migration}
use matrixone_operator.Common.Score.{StoreScore, is_safe_to_reclaim, get_store_score}
use matrixone_operator.Claim.State.{StateLabel, patched, absent, rejected}
use matrixone_operator.Store.State.{
  CnPod, StoreCall, can_restart, remain_txns, patch_state, StoreState, StoreServer, recorded,
  remote,
}
use matrixone_operator.Store.Client.{patch_answer, patch_store_state}
use matrixone_operator.Store.Drain.{
  safe_score, handle_connection_draining, request_restart, after_restart_check, migrate_locks,
  handle_lock_migration, locks_if, drain_round,
}

-- The pod's score is known and says that nothing runs on it.
abbrev pub IsQuiet : StoreServer → CnPod → Type 0
IsQuiet k p =
    (sc : StoreScore) × (get_store_score k.json p.pod.annotations ≡ some sc)
    × (is_safe_to_reclaim sc ≡ true)

-- What has been seen when a round of draining that began at `start` ends.
pub record IsDrainedRound (k : StoreServer) (cs : CnSet) (start : ℕ) (p : CnPod) : Type 0 where
  pub quiet : IsQuiet k p
  pub waited :
      (calls : List StoreCall) × (start + get_min_delay_duration cs.scaling_config ≤ k.now calls)
  pub unlocked :
      has_mo_feature (k.version_of p.pod) lock_migration ≡ true
      → (calls : List StoreCall) × (k.restart_allowed calls (k.pod_uuid p.pod) ≡ some true)

module _ (k : StoreServer) where
  IsQuiet-if_true :
      (p : CnPod) (u : StoreState) (o : Option StoreScore)
      → u.pod ≡ p
      → get_store_score k.json u.pod.pod.annotations ≡ o
      → Ends
          (λ b v. (v.pod ≡ p) × (b ≡ true → IsQuiet k v.pod))
          (λ _ _. Unit {0})
          (safe_score k o u)
  IsQuiet-if_true p u none i e = tt
  IsQuiet-if_true p u (some sc) i e = (i, λ safe. (sc, e, safe))

  patched_pod :
      (req : StateLabel) (s : StoreState)
      → Ends (λ _ v. v.pod ≡ s.pod) (λ _ _. Unit {0}) (patch_store_state k req s)
  unfolding patch_store_state patch_answer
  patched_pod req s =
      elim (k.store s.calls req)
        as (λ a.
          Ends (λ _ v. v.pod ≡ s.pod) (λ _ _. Unit {0})
            (patch_answer k a (recorded (patch_state req) s))) [
              | patched ↦ refl
              | absent ↦ tt
              | rejected ↦ tt
            ]

  connection-IsQuiet :
      (s : StoreState)
      → Ends
          (λ b v. (v.pod ≡ s.pod) × (b ≡ true → IsQuiet k v.pod))
          (λ _ _. Unit {0})
          (handle_connection_draining k s)
  unfolding handle_connection_draining
  connection-IsQuiet s =
      Ends-bind {P = λ _ v. v.pod ≡ s.pod} (λ b v. (v.pod ≡ s.pod) × (b ≡ true → IsQuiet k v.pod))
        (λ _ _. Unit {0}) _ _
        (patched_pod
          (record { uuid = k.pod_uuid s.pod.pod; state = WorkState.draining; labels = none }) s)
        (λ _ v i. IsQuiet-if_true s.pod v (get_store_score k.json v.pod.pod.annotations) i refl)

  -- The lock service has allowed the restart.
  abbrev IsAllowed : Pod → Type 0
  IsAllowed p = (calls : List StoreCall) × (k.restart_allowed calls (k.pod_uuid p) ≡ some true)

  checked-IsAllowed :
      (p : Pod) (allowed : Bool) (u : StoreState)
      → (allowed ≡ true → IsAllowed p)
      → Ends
          (λ b _. b ≡ true → IsAllowed p)
          (λ _ _. Unit {0})
          (after_restart_check k (k.pod_uuid p) allowed u)
  unfolding after_restart_check
  checked-IsAllowed p true u h = λ _. h refl
  checked-IsAllowed p false u h =
      Ends-bind {P = λ _ _. Unit {0}} (λ b _. b ≡ true → IsAllowed p) (λ _ _. Unit {0})
        (request_restart k (k.pod_uuid p) _ (recorded (remain_txns (k.pod_uuid p)) u))
        (λ _ w. done false w) (Ends-any _) (λ _ _ _ e. h e)

  answered-IsAllowed :
      (p : Pod) (s : StoreState) (o : Option Bool)
      → k.restart_allowed s.calls (k.pod_uuid p) ≡ o
      → Ends
          (λ allowed _. allowed ≡ true → IsAllowed p)
          (λ _ _. Unit {0})
          (remote (can_restart (k.pod_uuid p)) o s)
  answered-IsAllowed p s none e = tt
  answered-IsAllowed p s (some a) e = λ t. (s.calls, e ∙ ap some t)

  locks-IsAllowed :
      (s : StoreState)
      → Ends
          (λ b _.
            b ≡ true
            → has_mo_feature (k.version_of s.pod.pod) lock_migration ≡ true
            → IsAllowed s.pod.pod)
          (λ _ _. Unit {0})
          (handle_lock_migration k s)
  unfolding handle_lock_migration migrate_locks
  locks-IsAllowed s =
      Ends-ite _ _ (has_mo_feature (k.version_of s.pod.pod) lock_migration) _ _
        (λ _.
          Ends-map (λ b _. b ≡ true → IsAllowed s.pod.pod) _ (λ _ _. Unit {0}) _
            (migrate_locks k (k.pod_uuid s.pod.pod) s) (λ b _ h t _. h t) (λ _ _ _. tt)
            (Ends-bind {P = λ allowed _. allowed ≡ true → IsAllowed s.pod.pod}
              (λ b _. b ≡ true → IsAllowed s.pod.pod) (λ _ _. Unit {0}) _ _
              (answered-IsAllowed s.pod.pod s _ refl)
              (λ allowed v h. checked-IsAllowed s.pod.pod allowed v h)))
        (λ e t f. ground (arith, e, f))

-- The end of a round in which the connections have, or have not, migrated.
locked-drained :
    (k : StoreServer) (cs : CnSet) (start : ℕ) (b : Bool) (v : StoreState)
    → (b ≡ true → IsQuiet k v.pod)
    → start + get_min_delay_duration cs.scaling_config ≤ k.now v.calls
    → Ends (λ c _. c ≡ true → IsDrainedRound k cs start v.pod) (λ _ _. Unit {0}) (locks_if k b v)
unfolding locks_if
locked-drained k cs start false v quiet late = λ e. ground (arith, e)
locked-drained k cs start true v quiet late =
    Ends-map _ _ _ _ (handle_lock_migration k v)
      (λ _ _ g e. record { quiet = quiet refl; waited = (v.calls, late); unlocked = λ f. g e f })
      (λ _ _ _. tt) (locks-IsAllowed k v)

-- A round of draining before a stop answers that connections and locks have migrated only if the
-- pod's score is known and safe, the minimal delay since the start has passed and, for versions
-- with lock migration, the lock service has allowed the restart.
pub drain_round-drained :
    (k : StoreServer) (cs : CnSet) (start : ℕ) (s : StoreState)
    → Ends
        (λ b _. b ≡ true → IsDrainedRound k cs start s.pod)
        (λ _ _. Unit {0})
        (drain_round k cs start s)
unfolding drain_round
drain_round-drained k cs start s =
    Ends-bind {P = λ b v. (v.pod ≡ s.pod) × (b ≡ true → IsQuiet k v.pod)}
      (λ b _. b ≡ true → IsDrainedRound k cs start s.pod) (λ _ _. Unit {0}) _ _
      (connection-IsQuiet k s)
      (λ b v h.
        Ends-bind
          {P = λ _ w. (w ≡ v) × (start + get_min_delay_duration cs.scaling_config ≤ k.now v.calls)}
          (λ c _. c ≡ true → IsDrainedRound k cs start s.pod) (λ _ _. Unit {0}) _ _
          (Ends-ite _ _ (ltb (k.now v.calls) (start + get_min_delay_duration cs.scaling_config)) _ _
            (λ _. tt) (λ late. (refl, ground (arith, late))))
          (λ _ w p.
            subst
              (λ w'.
                Ends (λ c _. c ≡ true → IsDrainedRound k cs start s.pod) (λ _ _. Unit {0})
                  (locks_if k b w'))
              (sym p.0)
              (subst
                (λ q.
                  Ends (λ c _. c ≡ true → IsDrainedRound k cs start q) (λ _ _. Unit {0})
                    (locks_if k b v))
                h.0 (locked-drained k cs start b v h.1 p.1))))
