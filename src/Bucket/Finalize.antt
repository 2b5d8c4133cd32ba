-- ===== src/Bucket/Finalize.antt =====
-- The end of a bucket, and of its data: Finalize and createNewJob of
-- pkg/controllers/bucketclaim/controller.go.
use matrixone_operator.Base.{leb, ◌=s◌, if◌then◌else◌, String, Bool, true, false, ◌||◌, some, ◌∷◌}
use matrixone_operator.Base.Map.{get}
use matrixone_operator.Base.Run.{
  not_found, conflict, refused, api, failed, Answer, ok, err, fail, M, ◌>>◌, pure, throw,
}
use matrixone_operator.Bucket.{
  in_use, released, any_instance_running, data_finalizer, Bucket, Job, read_job, read_config,
  create_config, create_job, BucketServer, Calls, ask, remove_finalizer, send_update,
}

unfoldable pub is_job_success : Job → Bool
is_job_success j = j.complete || leb 1 j.succeeded

unfoldable pub is_job_failure : Job → Bool
is_job_failure j = j.job_failed

-- newFailCondition becomes the only condition.
abbrev pub with_failure : String → Bucket → Bucket
with_failure reason b = record b { failure = some reason }

module _ (k : BucketServer) where
  -- The data finalizer goes, and the object may go with it.
  unfoldable pub let_bucket_go : Bucket → M Calls Bool
  let_bucket_go b = send_update k (remove_finalizer data_finalizer b) >> pure true

  abbrev new_config : M Calls (Unit {0})
  new_config cs =
      if k.has_template then ask create_config (λ ds. k.config_created ds) cs else fail failed cs

  -- The script that the job runs is created before the job.
  unfoldable pub ensure_config : Answer (Unit {0}) → M Calls (Unit {0})
  ensure_config (ok c) = pure tt
  ensure_config (err not_found) = new_config
  ensure_config (err conflict) = throw (api conflict)
  ensure_config (err refused) = throw (api refused)

  unfoldable pub job_answer : Bucket → Answer (Unit {0}) → M Calls (Unit {0})
  job_answer b (ok j) = pure tt
  job_answer b (err e) = send_update k (with_failure "FailCreateJob" b)

  unfoldable pub start_job : Bucket → M Calls (Unit {0})
  start_job b cs = job_answer b (k.job_created cs) (create_job ∷ cs)

  unfoldable pub create_new_job : Bucket → M Calls (Unit {0})
  create_new_job b cs = ((λ ds. ensure_config (k.config cs) ds) >> start_job b) (read_config ∷ cs)

  unfoldable pub after_job : Bucket → Answer Job → M Calls Bool
  after_job b (err not_found) = create_new_job b >> pure false
  after_job b (err conflict) = throw (api conflict)
  after_job b (err refused) = throw (api refused)
  after_job b (ok j) =
      if is_job_success j
      then let_bucket_go b
      else if is_job_failure j
      then send_update k (with_failure "JobFailure" b) >> pure false
      else pure false

  unfoldable pub finalize : Bucket → M Calls Bool
  finalize b cs =
      if b.state =s in_use
      then (send_update k (with_failure "InUse" b) >> pure false) cs
      else if b.state =s released
      then let_bucket_go b cs
      else if get any_instance_running b.annotations =s ""
      then let_bucket_go b cs
      else after_job b (k.job cs) (read_job ∷ cs)
