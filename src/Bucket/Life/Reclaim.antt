-- ===== src/Bucket/Life/Reclaim.antt =====
-- What the bucket's own controller may do, and when.
use matrixone_operator.Base.{
  ◌=s◌, String, ◌≡◌, refl, ◌⊎◌, inl, inr, Bool, true, false, none, [], ◌∷◌,
}
use matrixone_operator.Base.Map.{get}
use matrixone_operator.Base.Run.{
  not_found, conflict, refused, Answer, ok, err, Run, done, fail, ◌>>◌, pure, final, Ends,
  Ends-choice, Ends-bind, answer, Ends-ite,
}
use matrixone_operator.Bucket.{
  in_use, released, any_instance_running, data_finalizer, Bucket, Job, update_bucket, read_job,
  read_config, create_config, create_job, BucketServer, Calls, remove_finalizer, send_update,
}
use matrixone_operator.Bucket.Finalize.{
  finalize, after_job, create_new_job, let_bucket_go, is_job_success, is_job_failure, with_failure,
  start_job, job_answer, ensure_config,
}
use matrixone_operator.Bucket.Life.{written, asks_deletion, starts_job}
use matrixone_operator.Bucket.Life.Binding.{Writes}

-- The data may be deleted: the bucket is in nobody's use, was not kept, and a cluster once ran on it.
pub record IsDoomed (b : Bucket) : Type 0 where
  pub unused : (b.state =s in_use) ≡ false
  pub unkept : (b.state =s released) ≡ false
  pub ever_ran : (get any_instance_running b.annotations =s "") ≡ false

-- The bucket may go: it is in nobody's use, and its data is to be kept, or was never there, or is
-- deleted by a job that succeeded.
pub record IsFree (k : BucketServer) (b : Bucket) : Type 0 where
  pub unused : (b.state =s in_use) ≡ false
  pub reason :
      ((b.state =s released) ≡ true)
      ⊎ ((get any_instance_running b.annotations =s "") ≡ true)
      ⊎ ((j : Job) × (k.job [] ≡ ok j) × (is_job_success j ≡ true))

pub record IsGuarded (k : BucketServer) (b : Bucket) (cs : Calls) : Type 0 where
  pub binding : Writes (λ b'. (b'.bind_to ≡ b.bind_to) × (b'.state ≡ b.state)) (written cs)
  pub finalizers : Writes (λ b'. (b'.finalizers ≡ b.finalizers) ⊎ IsFree k b) (written cs)
  pub no_deletion : asks_deletion cs ≡ false
  pub job : (starts_job cs ≡ false) ⊎ IsDoomed b

-- An answer of true lets the object go.
abbrev pub Guarded : BucketServer → Bucket → Run Calls Bool → Type 0
Guarded k b r =
    Ends (λ v cs. IsGuarded k b cs × ((v ≡ false) ⊎ IsFree k b)) (λ _ cs. IsGuarded k b cs) r

-- A run that has only read so far.
pub record IsQuiet (cs : Calls) : Type 0 where
  pub quiet : written cs ≡ none
  pub quiet_deletion : asks_deletion cs ≡ false
  pub quiet_job : starts_job cs ≡ false

module _ (k : BucketServer) (b : Bucket) where
  Quiet-IsGuarded : {cs : Calls} → IsQuiet cs → IsGuarded k b cs
  Quiet-IsGuarded q = record {
    binding = rw (IsQuiet.quiet q) tt;
    finalizers = rw (IsQuiet.quiet q) tt;
    no_deletion = IsQuiet.quiet_deletion q;
    job = inl (IsQuiet.quiet_job q);
  }

  -- A condition is written, whatever the answer.
  failure-Guarded :
      (reason : String) (cs : Calls)
      → asks_deletion cs ≡ false
      → (starts_job cs ≡ false) ⊎ IsDoomed b
      → Ends
          (λ _ cs. IsGuarded k b cs)
          (λ _ cs. IsGuarded k b cs)
          (send_update k (with_failure reason b) cs)
  unfolding written asks_deletion starts_job
  failure-Guarded reason cs e j = go (k.bucket_updated cs (with_failure reason b))
    where
      result : IsGuarded k b (update_bucket (with_failure reason b) ∷ cs)
      result = record { binding = (refl, refl); finalizers = inl refl; no_deletion = e; job = j }

      go :
          (a : Answer (Unit {0}))
          → Ends
              (λ _ cs. IsGuarded k b cs)
              (λ _ cs. IsGuarded k b cs)
              (answer a (update_bucket (with_failure reason b) ∷ cs))
      go (ok a) = result
      go (err e) = result

  then_false :
      (r : Run Calls (Unit {0}))
      → Ends (λ _ cs. IsGuarded k b cs) (λ _ cs. IsGuarded k b cs) r
      → Guarded k b (elim r [ done a cs ↦ done false cs | fail e cs ↦ fail e cs ])
  then_false (done a cs) g = (g, inl refl)
  then_false (fail e cs) g = g

  let_bucket_go-Guarded :
      (cs : Calls) → IsQuiet cs → IsFree k b → Guarded k b (let_bucket_go k b cs)
  unfolding let_bucket_go remove_finalizer written asks_deletion starts_job
  let_bucket_go-Guarded cs q free = go (k.bucket_updated cs (remove_finalizer data_finalizer b))
    where
      sent : Calls
      sent = update_bucket (remove_finalizer data_finalizer b) ∷ cs

      result : IsGuarded k b sent
      result = record {
        binding = (refl, refl);
        finalizers = inr free;
        no_deletion = IsQuiet.quiet_deletion q;
        job = inl (IsQuiet.quiet_job q);
      }

      go : (a : Answer (Unit {0})) → Guarded k b ((answer a >> pure true) sent)
      go (ok a) = (result, inr free)
      go (err e) = result

  create_config-Quiet :
      (cs : Calls)
      → IsQuiet cs
      → (a : Answer (Unit {0}))
      → Ends (λ _ ds. IsQuiet ds) (λ _ ds. IsGuarded k b ds) (answer a (create_config ∷ cs))
  unfolding written asks_deletion starts_job
  create_config-Quiet cs q a = go a
    where
      still : IsQuiet (create_config ∷ cs)
      still = record {
        quiet = IsQuiet.quiet q;
        quiet_deletion = IsQuiet.quiet_deletion q;
        quiet_job = IsQuiet.quiet_job q;
      }

      go :
          (a : Answer (Unit {0}))
          → Ends (λ _ ds. IsQuiet ds) (λ _ ds. IsGuarded k b ds) (answer a (create_config ∷ cs))
      go (ok u) = still
      go (err e) = Quiet-IsGuarded still

  ensure_config-Quiet :
      (cs : Calls) (a : Answer (Unit {0}))
      → IsQuiet cs
      → Ends (λ _ ds. IsQuiet ds) (λ _ ds. IsGuarded k b ds) (ensure_config k a cs)
  unfolding ensure_config
  ensure_config-Quiet cs (ok u) q = q
  ensure_config-Quiet cs (err not_found) q =
      Ends-ite _ _ k.has_template _ _ (λ _. create_config-Quiet cs q (k.config_created cs))
        (λ _. Quiet-IsGuarded q)
  ensure_config-Quiet cs (err conflict) q = Quiet-IsGuarded q
  ensure_config-Quiet cs (err refused) q = Quiet-IsGuarded q

  start_job-Guarded :
      (cs : Calls) (a : Answer (Unit {0}))
      → IsQuiet cs
      → IsDoomed b
      → Ends
          (λ _ ds. IsGuarded k b ds)
          (λ _ ds. IsGuarded k b ds)
          (job_answer k b a (create_job ∷ cs))
  unfolding job_answer written asks_deletion starts_job
  start_job-Guarded cs (ok u) q doomed = record {
    binding = rw (IsQuiet.quiet q) tt;
    finalizers = rw (IsQuiet.quiet q) tt;
    no_deletion = IsQuiet.quiet_deletion q;
    job = inr doomed;
  }
  start_job-Guarded cs (err e) q doomed =
      failure-Guarded "FailCreateJob" (create_job ∷ cs) (IsQuiet.quiet_deletion q) (inr doomed)

  create_new_job-Guarded :
      (cs : Calls)
      → IsQuiet cs
      → IsDoomed b
      → Ends (λ _ ds. IsGuarded k b ds) (λ _ ds. IsGuarded k b ds) (create_new_job k b cs)
  unfolding create_new_job start_job written asks_deletion starts_job
  create_new_job-Guarded cs q doomed =
      Ends-bind (λ _ ds. IsGuarded k b ds) (λ _ ds. IsGuarded k b ds)
        (ensure_config k (k.config cs) (read_config ∷ cs)) (λ _ ds. start_job k b ds)
        (ensure_config-Quiet (read_config ∷ cs) (k.config cs) (record {
          quiet = IsQuiet.quiet q;
          quiet_deletion = IsQuiet.quiet_deletion q;
          quiet_job = IsQuiet.quiet_job q;
        }))
        (λ _ ds r. start_job-Guarded ds (k.job_created ds) r doomed)

  -- After the job is looked up.
  after_job-Guarded :
      (a : Answer Job) (cs : Calls)
      → k.job [] ≡ a
      → IsQuiet cs
      → IsDoomed b
      → Guarded k b (after_job k b a cs)
  unfolding after_job
  after_job-Guarded (err not_found) cs e q doomed =
      then_false (create_new_job k b cs) (create_new_job-Guarded cs q doomed)
  after_job-Guarded (err conflict) cs e q doomed = Quiet-IsGuarded q
  after_job-Guarded (err refused) cs e q doomed = Quiet-IsGuarded q
  after_job-Guarded (ok j) cs e q doomed =
      Ends-choice _ _ (is_job_success j) _ _ cs
        (λ success.
          let_bucket_go-Guarded cs q
            (record { unused = IsDoomed.unused doomed; reason = inr (inr (j, e, success)) }))
        (λ _.
          Ends-choice _ _ (is_job_failure j) _ _ cs
            (λ _. then_false (send_update k (with_failure "JobFailure" b) cs) (
              failure-Guarded "JobFailure" cs (IsQuiet.quiet_deletion q)
                (inl (IsQuiet.quiet_job q))))
            (λ _. (Quiet-IsGuarded q, inl refl)))

  -- However Finalize of a bucket ends, it leaves the binding and the state as they are and asks
  -- for no deletion; it starts the job only if the state is neither InUse nor Released and a pod
  -- once ran; it changes the finalizers, or answers true, only if the state is not InUse and the
  -- bucket is Released, or no pod ever ran, or the job that it reads has succeeded.
  pub finalize-Guarded : Guarded k b (finalize k b [])
  unfolding finalize written asks_deletion starts_job
  finalize-Guarded =
      Ends-ite _ _ (b.state =s in_use) _ _
        (λ _.
          then_false (send_update k (with_failure "InUse" b) [])
            (failure-Guarded "InUse" [] refl (inl refl)))
        (λ unused.
          Ends-ite _ _ (b.state =s released) _ _
            (λ kept.
              let_bucket_go-Guarded [] nothing (record { unused = unused; reason = inl kept }))
            (λ unkept.
              Ends-ite _ _ (get any_instance_running b.annotations =s "") _ _
                (λ never.
                  let_bucket_go-Guarded [] nothing
                    (record { unused = unused; reason = inr (inl never) }))
                (λ ran.
                  after_job-Guarded (k.job []) (read_job ∷ []) refl asked
                    (record { unused = unused; unkept = unkept; ever_ran = ran }))))
    where
      nothing : IsQuiet []
      nothing = record { quiet = refl; quiet_deletion = refl; quiet_job = refl }

      asked : IsQuiet (read_job ∷ [])
      asked = record { quiet = refl; quiet_deletion = refl; quiet_job = refl }

  pub finalize-IsGuarded : IsGuarded k b (final (finalize k b []))
  finalize-IsGuarded = of_run (finalize k b []) finalize-Guarded
    where
      of_run : (r : Run Calls Bool) → Guarded k b r → IsGuarded k b (final r)
      of_run (done v cs) g = g.0
      of_run (fail e cs) g = g
