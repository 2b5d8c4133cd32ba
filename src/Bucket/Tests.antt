-- ===== src/Bucket/Tests.antt =====
-- The life of one bucket, and the theorems at it.
use matrixone_operator.Base.{String, ◌≡◌, refl, true, false, none, some, [], ◌∷◌}
use matrixone_operator.Base.Map.{lookup, insert}
use matrixone_operator.Base.Run.{not_found, ok, err, final}
use matrixone_operator.Bucket.{
  Bucket, BucketServer, Calls, contains, add_finalizer, has_prefix, contain_finalizer_prefix,
  bucket_bind_to_mark, claimed_bucket, set_bucket_ever_running_ann,
}
use matrixone_operator.Api.LogSet.{S3Provider, LogSet, get_s3_retention_policy}
use matrixone_operator.Base.Int.{pos}
use matrixone_operator.Bucket.Holders.{
  bucket_of_s3, bucket_of_answer, bucket_of, mark_running, sync_bucket_ever_running_ann,
}
use matrixone_operator.Bucket.Claim.{
  new_bucket, sync_bucket_claim, take_at, take_bucket, finalize_bucket, release_at, release_bucket,
  give_up, is_taken, is_held, is_target, target_bucket,
}
use matrixone_operator.Bucket.Finalize.{
  finalize, after_job, create_new_job, start_job, job_answer, ensure_config,
}
use matrixone_operator.Bucket.Life.{
  written, asks_deletion, starts_job, World, after, Reach, created, later, mark_it, give_it_up,
  delete_it,
}
use matrixone_operator.Bucket.Life.Reclaim.{IsDoomed, Guarded, finalize-Guarded}
use matrixone_operator.Bucket.Life.Safe.{BindingStep, Step-BindingStep, Reach-job}

abbrev provider : S3Provider
provider = record {
  path = "mo/data";
  kind = none;
  region = "";
  endpoint = "";
  secret = none;
  certificate = none;
  retention_policy = some "Delete";
}

abbrev log_set_named : String → LogSet
log_set_named name = record {
  namespace = "ns";
  name = name;
  uid = name;
  spec = record {
    replicas = 3;
    image = "mo:1.2.0";
    semantic_version = none;
    operator_version = none;
    memory_limit_percent = none;
    service_args = [];
    volume_size = 1;
    storage_class = none;
    s3 = some provider;
    file_system = none;
    initial_config = record {
      log_shards = some (pos 1);
      dn_shards = some (pos 1);
      log_shard_replicas = some (pos 3);
      restore_from = none;
    };
    store_failure_timeout = none;
    failed_pod_strategy = none;
    pvc_retention_policy = none;
  };
}

-- A server that keeps one bucket, and has no job for it yet.
abbrev server_of : Bucket → BucketServer
server_of b = record {
  s3_reclaim = true;
  digest = λ s. s;
  buckets = λ _ _. ok (b ∷ []);
  log_set = λ _ _ name. ok (log_set_named name);
  bucket_created = λ _ _. ok tt;
  bucket_updated = λ _ _. ok tt;
  bucket_deleted = λ _ _. ok tt;
  job = λ _. err not_found;
  config = λ _. err not_found;
  has_template = true;
  config_created = λ _. ok tt;
  job_created = λ _. ok tt;
}

abbrev no_bucket : Bucket
no_bucket = record {
  namespace = "";
  name = "";
  label = "";
  finalizers = [];
  annotations = [];
  s3 = none;
  bind_to = "";
  state = "";
  failure = none;
  is_deleted = false;
}

abbrev fresh : World
fresh = record {
  bucket = new_bucket (server_of no_bucket) (log_set_named "a") provider;
  pending = 0;
}

abbrev running : World
running = after (final (sync_bucket_ever_running_ann (server_of fresh.bucket) "ns" "a" [])) fresh

abbrev given_up : World
given_up = after (final (finalize_bucket (server_of running.bucket) (log_set_named "a") [])) running

abbrev deleted : World
deleted = record { bucket = record (World.bucket given_up) { is_deleted = true }; pending = 0 }

deleted-Reach : Reach deleted
unfolding bucket_bind_to_mark finalize_bucket release_at release_bucket claimed_bucket is_taken
    is_held contain_finalizer_prefix has_prefix give_up get_s3_retention_policy asks_deletion
    new_bucket written sync_bucket_ever_running_ann bucket_of bucket_of_answer bucket_of_s3
    mark_running set_bucket_ever_running_ann lookup insert
deleted-Reach =
    later
      (later
        (later (created (server_of no_bucket) (log_set_named "a") provider refl)
          (mark_it (server_of fresh.bucket) "ns" "a" (λ _ _. refl)))
        (give_it_up (server_of running.bucket) (log_set_named "a") (λ _ _. refl)))
      (delete_it 0 refl)

Step-BindingStep_example :
    BindingStep running given_up
      (give_it_up (server_of running.bucket) (log_set_named "a") (λ _ _. refl))
unfolding bucket_bind_to_mark new_bucket written sync_bucket_ever_running_ann bucket_of
    bucket_of_answer bucket_of_s3 mark_running set_bucket_ever_running_ann claimed_bucket lookup
    insert
Step-BindingStep_example =
    Step-BindingStep (give_it_up (server_of running.bucket) (log_set_named "a") (λ _ _. refl)) refl

abbrev ending : Calls
ending = final (finalize (server_of deleted.bucket) (World.bucket deleted) [])

Reach-job_example : (deleted.bucket.bind_to ≡ "") × IsDoomed deleted.bucket
unfolding bucket_bind_to_mark finalize_bucket release_at release_bucket claimed_bucket is_taken
    is_held contain_finalizer_prefix has_prefix give_up get_s3_retention_policy asks_deletion
    new_bucket written sync_bucket_ever_running_ann bucket_of bucket_of_answer bucket_of_s3
    mark_running set_bucket_ever_running_ann lookup insert finalize after_job create_new_job
    start_job job_answer ensure_config starts_job
Reach-job_example = Reach-job (server_of deleted.bucket) deleted-Reach refl

finalize-Guarded_example :
    Guarded
      (server_of deleted.bucket)
      (World.bucket deleted)
      (finalize (server_of deleted.bucket) (World.bucket deleted) [])
finalize-Guarded_example = finalize-Guarded (server_of deleted.bucket) (World.bucket deleted)

-- A LogSet that waited for the bucket takes it while it is being deleted.
taken_while_deleted :
    (World.bucket (
      after
        (final (sync_bucket_claim (server_of deleted.bucket) (log_set_named "c") []))
        deleted)).bind_to
    ≡ "ns/c"
unfolding bucket_bind_to_mark finalize_bucket release_at release_bucket claimed_bucket is_taken
    is_held contain_finalizer_prefix has_prefix give_up get_s3_retention_policy asks_deletion
    new_bucket written sync_bucket_ever_running_ann bucket_of bucket_of_answer bucket_of_s3
    mark_running set_bucket_ever_running_ann lookup insert sync_bucket_claim take_at take_bucket
    is_target contains target_bucket add_finalizer
taken_while_deleted = refl
