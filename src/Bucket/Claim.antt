-- ===== src/Bucket/Claim.antt =====
-- How a LogSet takes and gives up its bucket: pkg/controllers/logset/bucketclaim.go.
use matrixone_operator.Base.{
  ◌=s◌, if◌then◌else◌, String, Bool, true, false, not, ◌&&◌, ◌||◌, Option, none, some, List, [],
  ◌∷◌,
}
use matrixone_operator.Base.Run.{failed, M, ◌>>=◌, ◌>>◌, pure, throw}
use matrixone_operator.Bucket.{
  in_use, released, deleting, data_finalizer, cn_finalizer_prefix, dn_finalizer_prefix, Bucket,
  create_bucket, delete_bucket, BucketServer, Calls, ask, contains, add_finalizer,
  contain_finalizer_prefix, sort_strings, bucket_bind_to_mark, unique_bucket_label, claimed_bucket,
  send_update,
}
use matrixone_operator.Api.LogSet.{
  S3Provider, LogSet, LogSetSpec, policy_delete, policy_retain, get_s3_retention_policy,
}
use Prim.Native.String.{◌++◌ as join}
use matrixone_operator.Bucket.Holders.{mark_running}

abbrev same_text : Option String → Option String → Bool
same_text none none = true
same_text none (some b) = false
same_text (some a) none = false
same_text (some a) (some b) = a =s b

abbrev same_provider : S3Provider → S3Provider → Bool
same_provider a b =
    a.path =s b.path
    && same_text a.kind b.kind
    && a.region =s b.region
    && a.endpoint =s b.endpoint
    && same_text a.secret b.secret
    && same_text a.certificate b.certificate
    && same_text a.retention_policy b.retention_policy

abbrev same_s3 : Option S3Provider → Option S3Provider → Bool
same_s3 none none = true
same_s3 none (some b) = false
same_s3 (some a) none = false
same_s3 (some a) (some b) = same_provider a b

-- The bucket as the LogSet wants it, its finalizers in order.
unfoldable pub target_bucket : LogSet → Bucket → Bucket
target_bucket l b = record (add_finalizer data_finalizer b) {
  finalizers = sort_strings fs;
  s3 = LogSetSpec.s3 (LogSet.spec l);
  bind_to = bucket_bind_to_mark l;
  state = in_use;
}
  where
    fs : List String
    fs = (add_finalizer data_finalizer b).finalizers

-- `equality.Semantic.DeepEqual(targetBucket, bucket)`, of the fields that the target sets.
unfoldable pub is_target : LogSet → Bucket → Bool
is_target l b =
    contains data_finalizer b.finalizers
    && same_s3 (LogSetSpec.s3 (LogSet.spec l)) b.s3
    && b.bind_to =s bucket_bind_to_mark l
    && b.state =s in_use

-- Bound to another LogSet.
unfoldable pub is_taken : LogSet → Bucket → Bool
is_taken l b = not (b.bind_to =s "") && not (b.bind_to =s bucket_bind_to_mark l)

unfoldable pub is_held : Bucket → Bool
is_held b =
    contain_finalizer_prefix b.finalizers dn_finalizer_prefix
    || contain_finalizer_prefix b.finalizers cn_finalizer_prefix

module _ (k : BucketServer) where
  unfoldable pub new_bucket : LogSet → S3Provider → Bucket
  new_bucket l s = record {
    namespace = l.namespace;
    name = join "bucket-" l.uid;
    label = unique_bucket_label k s;
    finalizers = data_finalizer ∷ [];
    annotations = [];
    s3 = some s;
    bind_to = bucket_bind_to_mark l;
    state = in_use;
    failure = none;
    is_deleted = false;
  }

  unfoldable pub create_new_bucket : LogSet → S3Provider → M Calls (Unit {0})
  create_new_bucket l s =
      ask (create_bucket (new_bucket l s)) (λ cs. k.bucket_created cs (new_bucket l s))

  unfoldable pub take_bucket : LogSet → S3Provider → Option Bucket → M Calls (Unit {0})
  take_bucket l s none = create_new_bucket l s
  take_bucket l s (some b) =
      if is_taken l b
      then throw failed
      else if is_target l b
      then pure tt
      else send_update k (target_bucket l b)

  -- Storage that is not on S3 has no bucket.
  unfoldable pub take_at : LogSet → Option S3Provider → M Calls (Unit {0})
  take_at l none = pure tt
  take_at l (some s) = claimed_bucket k s >>= take_bucket l s

  unfoldable pub sync_bucket_claim : LogSet → M Calls (Unit {0})
  sync_bucket_claim l = if k.s3_reclaim then take_at l l.spec.s3 else pure tt

  -- The `switch` on the retention policy.
  unfoldable pub give_up : Option String → Bucket → M Calls Bool
  give_up none b = pure true
  give_up (some policy) b =
      if policy =s policy_retain
      then send_update k (record b { state = released; bind_to = "" }) >> pure true
      else if policy =s policy_delete
      then send_update k (record b { state = deleting; bind_to = "" })
        >> (ask (delete_bucket b.name) (λ cs. k.bucket_deleted cs b.name) >> pure true)
      else throw failed

  unfoldable pub release_bucket : LogSet → Option Bucket → M Calls Bool
  release_bucket l none = pure true
  release_bucket l (some b) =
      if is_taken l b
      then throw failed
      else if is_held b
      then pure false
      else give_up (get_s3_retention_policy l.spec) b

  unfoldable pub release_at : LogSet → Option S3Provider → M Calls Bool
  release_at l none = pure true
  release_at l (some s) = claimed_bucket k s >>= release_bucket l

  unfoldable pub finalize_bucket : LogSet → M Calls Bool
  finalize_bucket l = if k.s3_reclaim then release_at l l.spec.s3 else pure true

  -- LogSet's own syncBucketEverRunningAnn
  unfoldable pub mark_at : Option S3Provider → M Calls (Unit {0})
  mark_at none = pure tt
  mark_at (some s) = claimed_bucket k s >>= mark_running k

  unfoldable pub sync_own_running_ann : LogSet → M Calls (Unit {0})
  sync_own_running_ann l = if k.s3_reclaim then mark_at l.spec.s3 else pure tt
