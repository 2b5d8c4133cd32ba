-- ===== src/LogSet/Observe/Rest.antt =====
-- What Observe decides once the stateful set that is wanted has been filled in by the server.
use matrixone_operator.Base.{
  leb, ◌==◌, if◌then◌else◌, subst, length, ℕ, ◌≤◌, ◌≡◌, refl, sym, ap, ◌∙◌, true, false, not, List,
  [], ◌∷◌, arith,
}
use matrixone_operator.Base.Run.{
  Answer, ok, err, M, ◌>>=◌, ◌>>◌, pure, Ends-choice, Ends-bind, Ends-map, answer, Ends-ite,
}
use matrixone_operator.LogSet.State.{
  StatefulSet, LogSetState, LogSetServer, tell, call, dry_run_sts, sync_volume, sync_metric,
  on_bucket,
}
use matrixone_operator.Bucket.Claim.{sync_bucket_claim}
use matrixone_operator.Common.Failover.{Store}
use matrixone_operator.LogSet.Observe.{
  LogAction, update_with, sync_running, is_synced, conclude, sync_rest, compare_sts, same_sts,
}
use matrixone_operator.LogSet.Observe.Quiet.{
  IsKept, Quiet, call-Quiet, on_bucket-Quiet, Quiet-both, kept, sync_running-Quiet,
}
use matrixone_operator.LogSet.Observe.Seen.{failing_stores, Going, IsFilled, Decided}

leb-≤ : (m n : ℕ) → leb m n ≡ true → m ≤ n
leb-≤ m n h = ground (arith, h)

none_failed : (ss : List Store) → (length ss == 0) ≡ true → ss ≡ []
none_failed [] h = refl
none_failed (s ∷ ss) h = ground (arith, h)

pub none_found : (ss : List Store) → leb 1 (length ss) ≡ false → ss ≡ []
none_found [] h = refl
none_found (s ∷ ss) h = ground (arith, h)

pub some_failing : (n : ℕ) → n ≡ 0 → leb 1 n ≡ true → ⊥
some_failing n e h = ground (arith, e, h)

module _ (k : LogSetServer) (s₀ : LogSetState) where
  pub Going-IsKept :
      (o : StatefulSet) (s t : LogSetState) → IsKept s t → Going k s₀ o s → Going k s₀ o t
  Going-IsKept o s t h (seen, well, equal) = (
    record {
      pods = seen.pods;
      of_sts = seen.of_sts;
      of_pods = seen.of_pods;
      same_object = IsKept.same_object h ∙ seen.same_object;
      of_status = IsKept.same_status h ∙ seen.of_status;
      of_ready =
          IsKept.same_ready h
          ∙ seen.of_ready
          ∙ ap (λ m. leb s₀.log_set.spec.replicas (length m.available_stores))
              (sym (IsKept.same_status h));
    },
    ap (failing_stores k s₀) (IsKept.same_status h) ∙ well,
    equal,
  )

  conclude-Decides :
      (origin sts : StatefulSet) (t : LogSetState)
      → Going k s₀ origin t
      → IsFilled k s₀ origin sts
      → same_sts origin sts ≡ true
      → Decided k s₀ (conclude k sts t)
  unfolding conclude is_synced
  conclude-Decides origin sts t (seen, well, equal) filled same =
      Ends-ite _ _ (is_synced k t sts) _ _
        (λ synced. (
          origin,
          sts,
          (seen, well, equal),
          filled,
          same,
          leb-≤ _ _ (sym seen.of_ready ∙ ground (arith, synced)),
          none_failed _ (ground (arith, synced)),
          subst (λ m. m.spec.replicas ≤ sts.updated_ready_replicas) seen.same_object
              (ground (arith, synced)),
        ))
        (λ _. tt)

  -- A call before the rest.
  Quiet-then :
      {A : Type 0} (m : M LogSetState A) (f : A → M LogSetState LogAction) (o : StatefulSet)
      (s : LogSetState)
      → Quiet m
      → Going k s₀ o s
      → ((a : A) (t : LogSetState) → Going k s₀ o t → Decided k s₀ (f a t))
      → Decided k s₀ ((m >>= f) s)
  Quiet-then m f o s q g next =
      Ends-bind _ _ (m s) f
        (Ends-map _ (λ _ t. IsKept s t) _ (λ _ _. Unit {0}) (m s) (λ _ _ h. h) (λ _ _ _. tt) (q s))
        (λ a t h. next a t (Going-IsKept o s t h g))

  sync_rest-Decides :
      (origin sts : StatefulSet) (s : LogSetState)
      → Going k s₀ origin s
      → IsFilled k s₀ origin sts
      → same_sts origin sts ≡ true
      → Decided k s₀ (sync_rest k sts s)
  unfolding sync_rest
  sync_rest-Decides origin sts s g filled same =
      Quiet-then all_calls (λ _. conclude k sts) origin s
        (Quiet-both _ _
          (Quiet-both _ _
            (Quiet-both _ _ (call-Quiet sync_volume (λ cs. k.volume_synced cs))
              (on_bucket-Quiet k (λ b. sync_bucket_claim b s.log_set)))
            (sync_running-Quiet k))
          (call-Quiet sync_metric (λ cs. k.metric_synced cs)))
        g (λ _ t h. conclude-Decides origin sts t h filled same)
    where
      all_calls : M LogSetState (Unit {0})
      all_calls =
          call sync_volume (λ cs. k.volume_synced cs)
          >> on_bucket k (λ b. sync_bucket_claim b s.log_set)
          >> sync_running k
          >> call sync_metric (λ cs. k.metric_synced cs)

  pub compare_sts-Decides :
      (origin sts : StatefulSet) (s : LogSetState)
      → Going k s₀ origin s
      → ((filled : StatefulSet) → k.dry_run s.calls sts ≡ ok filled → IsFilled k s₀ origin filled)
      → Decided k s₀ (compare_sts k origin sts s)
  unfolding compare_sts
  compare_sts-Decides origin sts s g fills = go (k.dry_run s.calls sts) refl
    where
      asked : LogSetState
      asked = tell (dry_run_sts sts) s

      go :
          (r : Answer StatefulSet)
          → k.dry_run s.calls sts ≡ r
          → Decided k s₀ (
              (answer r >>= λ filled.
              if not (same_sts origin filled)
              then pure (update_with filled)
              else sync_rest k filled)
                asked)
      go (err e) m = tt
      go (ok filled) m =
          Ends-choice _ _ (not (same_sts origin filled)) _ _ asked
            (λ differs. (
              origin,
              Going-IsKept origin s asked (kept s (dry_run_sts sts)) g,
              fills filled m,
              ground (arith, differs),
            ))
            (λ equal.
              sync_rest-Decides origin filled asked
                (Going-IsKept origin s asked (kept s (dry_run_sts sts)) g) (fills filled m)
                (ground (arith, equal)))
