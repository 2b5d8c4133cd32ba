-- ===== src/Store/Pooling/Life.antt =====
-- What a drained pool pod becomes.
use matrixone_operator.Base.{
  ltb, ltb→lt, ℕ, ◌+◌, ◌≤◌, ◌<◌, ◌≡◌, refl, sym, subst, true, false, ◌||◌, Option, none, some, ◌∷◌,
  arith,
}
use matrixone_operator.Base.Map.{has}
use matrixone_operator.Api.Keys.{direct_pod_label, delete_on_reclaim_anno, diagnos_draining_anno}
use matrixone_operator.Base.Run.{
  Run, done, fail, Ends, Ends-bind, answer-Ends, answer, Answer, ok, err, ApiError, ◌>>=◌, ◌>>◌,
  Ends-ite, Ends-if,
}
use matrixone_operator.Base.Trace.{Extends, Extends-trans, same, more}
use matrixone_operator.Api.Sets.{CnSet, get_store_drain_timeout, get_min_delay_duration}
use matrixone_operator.Common.Score.{StoreScore, is_safe_to_reclaim, get_store_score}
use matrixone_operator.Store.State.{
  set_pod, CnPod, StoreCall, write_pod, StoreState, StoreServer, recorded, patch_pod_with,
}
use matrixone_operator.Store.Drain.{
  annotate, forgive, diagnosis_draining, store_drain_takes_long_duration,
}
use matrixone_operator.Store.Pooling.{
  recycled_pod, evicted_pod, keep_copy, evict_pool_pod_gracefully, recycle, recycle_if_safe,
  diagnose_after, wait_min_delay, drain_pool_pod, drain_from,
}

-- The pod's score is known and says that nothing runs on it.
pub record IsSafePod (k : StoreServer) (p : CnPod) : Type 0 where
  pub score : StoreScore
  pub is_known : get_store_score k.json p.pod.annotations ≡ some score
  pub is_safe : is_safe_to_reclaim score ≡ true

-- The pod and the history of calls of a run that began with the pod and the calls of `s`: as they
-- were, or after the diagnostic annotation was sent, which is due when the drain takes long. Then the
-- pod is as the server answered it, or as it was sent if the server refused it.
pub data IsPodOf (k : StoreServer) (t : ℕ) (s : StoreState) : StoreState → Type 0 where
  untouched : IsPodOf k t s s
  answered :
      (p : CnPod)
      → t + store_drain_takes_long_duration < k.now s.calls
      → k.pod_written s.calls (annotate diagnos_draining_anno "y" s.pod) ≡ ok p
      → IsPodOf k t s (record {
        pod = p;
        calls = write_pod (annotate diagnos_draining_anno "y" s.pod) ∷ s.calls;
      })
  unanswered :
      (e : ApiError)
      → t + store_drain_takes_long_duration < k.now s.calls
      → k.pod_written s.calls (annotate diagnos_draining_anno "y" s.pod) ≡ err e
      → IsPodOf k t s (record {
        pod = annotate diagnos_draining_anno "y" s.pod;
        calls = write_pod (annotate diagnos_draining_anno "y" s.pod) ∷ s.calls;
      })

-- The calls that are allowed for the pod of `s`, which drains since the time `t`.
pub data IsDrainCall (k : StoreServer) (cs : CnSet) (t : ℕ) (s : StoreState)
    : StoreCall → Type 0 where
  diagnosed :
      t + store_drain_takes_long_duration < k.now s.calls
      → IsDrainCall k cs t s (write_pod (annotate diagnos_draining_anno "y" s.pod))
  -- back to the pool
  recycled :
      (u : StoreState)
      → IsPodOf k t s u
      → IsSafePod k u.pod
      → t + get_min_delay_duration cs.scaling_config ≤ k.now u.calls
      → has delete_on_reclaim_anno u.pod.pod.annotations ≡ false
      → has direct_pod_label u.pod.pod.labels ≡ false
      → IsDrainCall k cs t s (write_pod (recycled_pod u.pod))
  -- too late
  expired :
      t + get_store_drain_timeout cs.scaling_config < k.now s.calls
      → IsDrainCall k cs t s (write_pod (evicted_pod s.pod))
  -- drained, and not to be used again
  retired :
      (u : StoreState)
      → IsPodOf k t s u
      → IsSafePod k u.pod
      → t + get_min_delay_duration cs.scaling_config ≤ k.now u.calls
      → (has delete_on_reclaim_anno u.pod.pod.annotations || has direct_pod_label u.pod.pod.labels)
        ≡ true
      → IsDrainCall k cs t s (write_pod (evicted_pod u.pod))

module _ (k : StoreServer) (cs : CnSet) (t : ℕ) (s₀ : StoreState) where
  -- From `s` on, only allowed calls are made.
  abbrev Drained {ℓ} : {A : Type ℓ} → StoreState → Run StoreState A → Type 0
  Drained s r =
      Ends (λ _ u. Extends (IsDrainCall k cs t s₀) s.calls u.calls)
        (λ _ u. Extends (IsDrainCall k cs t s₀) s.calls u.calls) r

  -- A patch of the pod.
  patch-Drained :
      (f : CnPod → CnPod) (s : StoreState)
      → IsDrainCall k cs t s₀ (write_pod (f s.pod))
      → Drained s (patch_pod_with k f s)
  patch-Drained f s h =
      answer-Ends _ _ (recorded (write_pod (f s.pod)) (record s { pod = f s.pod }))
        (k.pod_written s.calls (f s.pod)) _ (λ p _. more _ _ h same) (λ e _. more _ _ h same)

  keep_copy-Drained :
      (s : StoreState) (p : CnPod) (r : Run StoreState (Unit {0}))
      → Drained s r
      → Drained s (keep_copy k p r)
  unfolding keep_copy
  keep_copy-Drained s p (done a u) h = h
  keep_copy-Drained s p (fail e u) h = h

  evict-Drained :
      (s : StoreState)
      → IsDrainCall k cs t s₀ (write_pod (evicted_pod s.pod))
      → Drained s (evict_pool_pod_gracefully k s)
  unfolding evict_pool_pod_gracefully
  evict-Drained s h = keep_copy-Drained s s.pod _ (patch-Drained evicted_pod s h)

  recycle-Drained :
      (s : StoreState)
      → IsPodOf k t s₀ s
      → IsSafePod k s.pod
      → t + get_min_delay_duration cs.scaling_config ≤ k.now s.calls
      → Drained s (recycle k s)
  unfolding recycle
  recycle-Drained s of safe late =
      Ends-ite _ _ (has delete_on_reclaim_anno s.pod.pod.annotations) _ _
        (λ e. evict-Drained s (retired s of safe late (ground (arith, e))))
        (λ e.
          Ends-ite _ _ (has direct_pod_label s.pod.pod.labels) _ _
            (λ f. evict-Drained s (retired s of safe late (ground (arith, e, f))))
            (λ f. patch-Drained recycled_pod s (recycled s of safe late e f)))

  recycle_if_safe-Drained :
      (s : StoreState)
      → IsPodOf k t s₀ s
      → t + get_min_delay_duration cs.scaling_config ≤ k.now s.calls
      → (o : Option StoreScore) → get_store_score k.json s.pod.pod.annotations ≡ o
      → Drained s (recycle_if_safe k o s)
  unfolding recycle_if_safe
  recycle_if_safe-Drained s of late none e = same
  recycle_if_safe-Drained s of late (some sc) e =
      Ends-if _ _ (is_safe_to_reclaim sc) _ _ s
        (λ safe. recycle-Drained s of (record { score = sc; is_known = e; is_safe = safe }) late)
        (λ _. same)

  -- The diagnostic annotation, if it is due; its error is forgiven.
  sent-IsPodOf :
      t + store_drain_takes_long_duration < k.now s₀.calls
      → (a : Answer CnPod) → k.pod_written s₀.calls (annotate diagnos_draining_anno "y" s₀.pod) ≡ a
      → Ends
          (λ _ u. IsPodOf k t s₀ u × Extends (IsDrainCall k cs t s₀) s₀.calls u.calls)
          (λ _ u. Extends (IsDrainCall k cs t s₀) s₀.calls u.calls)
          (forgive k (
            (answer a >>= set_pod) (record {
              pod = annotate diagnos_draining_anno "y" s₀.pod;
              calls = write_pod (annotate diagnos_draining_anno "y" s₀.pod) ∷ s₀.calls;
            })))
  unfolding forgive
  sent-IsPodOf late (ok p) e = (answered p late e, more _ _ (diagnosed late) same)
  sent-IsPodOf late (err x) e = (unanswered x late e, more _ _ (diagnosed late) same)

  diagnose-IsPodOf :
      Ends
        (λ _ u. IsPodOf k t s₀ u × Extends (IsDrainCall k cs t s₀) s₀.calls u.calls)
        (λ _ u. Extends (IsDrainCall k cs t s₀) s₀.calls u.calls)
        (diagnose_after k t s₀)
  unfolding diagnosis_draining
  diagnose-IsPodOf =
      Ends-ite _ _ (ltb (t + store_drain_takes_long_duration) (k.now s₀.calls)) _ _
        (λ late. sent-IsPodOf (ltb→lt _ _ late) _ refl) (λ _. (untouched, same))

  -- After the annotation.
  waited-Drained :
      (u : StoreState)
      → IsPodOf k t s₀ u
      → Drained u (
          (wait_min_delay k cs t >> λ v.
          recycle_if_safe k (get_store_score k.json v.pod.pod.annotations) v)
            u)
  waited-Drained u of =
      Ends-bind
        {P = λ _ v. (v ≡ u) × (t + get_min_delay_duration cs.scaling_config ≤ k.now u.calls)} _ _
        (wait_min_delay k cs t u) _
        (Ends-ite _ _ (ltb (k.now u.calls) (t + get_min_delay_duration cs.scaling_config)) _ _
          (λ _. same) (λ late. (refl, ground (arith, late))))
        (λ _ v p.
          subst
            (λ w. Drained u (recycle_if_safe k (get_store_score k.json w.pod.pod.annotations) w))
            (sym p.0) (recycle_if_safe-Drained u of p.1 _ refl))

  Drained-later :
      (u : StoreState) (r : Run StoreState (Unit {0}))
      → Extends (IsDrainCall k cs t s₀) s₀.calls u.calls
      → Drained u r
      → Drained s₀ r
  Drained-later u (done a v) e h = Extends-trans e h
  Drained-later u (fail x v) e h = Extends-trans e h

  drain_pool_pod-Drained : Drained s₀ (drain_pool_pod k cs t s₀)
  unfolding drain_pool_pod
  drain_pool_pod-Drained =
      Ends-bind _ _ (diagnose_after k t s₀) _ diagnose-IsPodOf
        (λ _ u p. Drained-later u _ p.1 (waited-Drained u p.0))

-- A pool pod that drains since the time `t` is put back into the pool only if its score says that
-- it is safe, the minimal delay has passed, it is not marked for deletion and is of a CloneSet; it
-- is given up for deletion only if the drain timeout has passed, or it is safe, the minimal delay
-- has passed and it is marked for deletion or of no CloneSet. The pod that is judged and written
-- is the one that the run began with, or that pod after the diagnostic annotation, as the server
-- answered it or, if the server refused it, as it was sent. The annotation is sent only when the
-- drain takes long, and no other call is made, also where the run ends in an error.
pub drain_from-calls :
    (k : StoreServer) (cs : CnSet) (t : ℕ) (s : StoreState)
    → Ends
        (λ _ u. Extends (IsDrainCall k cs t s) s.calls u.calls)
        (λ _ u. Extends (IsDrainCall k cs t s) s.calls u.calls)
        (drain_from k cs t s)
unfolding drain_from
drain_from-calls k cs t s =
    Ends-ite _ _ (ltb (t + get_store_drain_timeout cs.scaling_config) (k.now s.calls)) _ _
      (λ late. evict-Drained k cs t s s (expired (ltb→lt _ _ late)))
      (λ _. drain_pool_pod-Drained k cs t s)
