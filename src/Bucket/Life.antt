-- ===== src/Bucket/Life.antt =====
-- A bucket over its life: the writes of the LogSets, the sets that hold it and its own controller, in
-- any order. A run reads the bucket and may write it: the API server refuses a write of an object that
-- is not the latest, so a run is one step. Only the deletion that follows a LogSet's write goes without
-- such a check, and comes at any later time or never.
pub mod Binding
pub mod Turns
pub mod Reclaim
pub mod Safe
use matrixone_operator.Base.{
  ◌=s◌, if◌then◌else◌, ℕ, suc, String, ◌≡◌, Bool, true, false, Option, none, some, [], ◌∷◌,
}
use matrixone_operator.Base.Run.{ok, final}
use matrixone_operator.Bucket.{
  Bucket, list_buckets, read_log_set, create_bucket, update_bucket, delete_bucket, read_job,
  read_config, create_config, create_job, BucketServer, Calls, bucket_bind_to_mark,
}
use matrixone_operator.Api.LogSet.{S3Provider, LogSet, or_default}
use matrixone_operator.Bucket.Holders.{
  add_bucket_finalizer, remove_bucket_finalizer, sync_bucket_ever_running_ann,
}
use matrixone_operator.Bucket.Claim.{new_bucket, sync_bucket_claim, finalize_bucket}
use matrixone_operator.Bucket.Finalize.{finalize}

-- The bucket that a run writes, if it writes one.
unfoldable pub written : Calls → Option Bucket
written [] = none
written (update_bucket b ∷ cs) = some b
written (list_buckets s ∷ cs) = written cs
written (read_log_set n m ∷ cs) = written cs
written (create_bucket b ∷ cs) = written cs
written (delete_bucket n ∷ cs) = written cs
written (read_job ∷ cs) = written cs
written (read_config ∷ cs) = written cs
written (create_config ∷ cs) = written cs
written (create_job ∷ cs) = written cs

-- Whether a run asks for a deletion of the bucket.
unfoldable pub asks_deletion : Calls → Bool
asks_deletion [] = false
asks_deletion (delete_bucket n ∷ cs) = true
asks_deletion (update_bucket b ∷ cs) = asks_deletion cs
asks_deletion (list_buckets s ∷ cs) = asks_deletion cs
asks_deletion (read_log_set n m ∷ cs) = asks_deletion cs
asks_deletion (create_bucket b ∷ cs) = asks_deletion cs
asks_deletion (read_job ∷ cs) = asks_deletion cs
asks_deletion (read_config ∷ cs) = asks_deletion cs
asks_deletion (create_config ∷ cs) = asks_deletion cs
asks_deletion (create_job ∷ cs) = asks_deletion cs

-- Whether a run starts the job that deletes the data.
unfoldable pub starts_job : Calls → Bool
starts_job [] = false
starts_job (create_job ∷ cs) = true
starts_job (delete_bucket n ∷ cs) = starts_job cs
starts_job (update_bucket b ∷ cs) = starts_job cs
starts_job (list_buckets s ∷ cs) = starts_job cs
starts_job (read_log_set n m ∷ cs) = starts_job cs
starts_job (create_bucket b ∷ cs) = starts_job cs
starts_job (read_job ∷ cs) = starts_job cs
starts_job (read_config ∷ cs) = starts_job cs
starts_job (create_config ∷ cs) = starts_job cs

-- The bucket, and the deletions that are under way.
pub record World : Type 0 where
  pub bucket : Bucket
  pub pending : ℕ

-- The server lists this bucket and no other.
abbrev pub Reads : BucketServer → Bucket → Type 0
Reads k b = (cs : Calls) (label : String) → k.buckets cs label ≡ ok (b ∷ [])

abbrev pub after : Calls → World → World
after cs w = record {
  bucket = or_default w.bucket (written cs);
  pending = (if asks_deletion cs then suc w.pending else w.pending);
}

-- A mark is never empty: it holds a slash.
abbrev pub HasMark : LogSet → Type 0
HasMark l = (bucket_bind_to_mark l =s "") ≡ false

pub data Step (w : World) : World → Type 0 where
  take_it :
      (k : BucketServer) (l : LogSet)
      → Reads k w.bucket
      → HasMark l
      → Step w (after (final (sync_bucket_claim k l [])) w)
  give_it_up :
      (k : BucketServer) (l : LogSet)
      → Reads k w.bucket
      → Step w (after (final (finalize_bucket k l [])) w)
  hold_it :
      (k : BucketServer) (namespace name f : String)
      → Reads k w.bucket
      → Step w (after (final (add_bucket_finalizer k namespace name f [])) w)
  let_it_go :
      (k : BucketServer) (namespace name f : String)
      → Reads k w.bucket
      → Step w (after (final (remove_bucket_finalizer k namespace name f [])) w)
  mark_it :
      (k : BucketServer) (namespace name : String)
      → Reads k w.bucket
      → Step w (after (final (sync_bucket_ever_running_ann k namespace name [])) w)
  delete_it :
      (n : ℕ)
      → w.pending ≡ suc n
      → Step w (record { bucket = record (World.bucket w) { is_deleted = true }; pending = n })
  lose_deletion : (n : ℕ) → w.pending ≡ suc n → Step w (record w { pending = n })
  reclaim_it :
      (k : BucketServer)
      → w.bucket.is_deleted ≡ true
      → Step w (after (final (finalize k (World.bucket w) [])) w)

-- The worlds that a LogSet's new bucket leads to.
pub data Reach : World → Type 0 where
  created :
      (k : BucketServer) (l : LogSet) (s : S3Provider)
      → HasMark l
      → Reach (record { bucket = new_bucket k l s; pending = 0 })
  later : {w w' : World} → Reach w → Step w w' → Reach w'
