-- ===== src/Bucket/Life/Safe.antt =====
-- What holds of a bucket over its life.
use matrixone_operator.Base.{
  ◌=s◌, =s_iff, ◌≡◌, refl, sym, ap, ◌∙◌, ◌⊎◌, inl, inr, true, false, not, Option, none, some, [],
  arith,
}
use matrixone_operator.Base.Run.{final}
use matrixone_operator.Bucket.{
  in_use, released, deleting, Bucket, BucketServer, Calls, bucket_bind_to_mark,
}
use matrixone_operator.Api.LogSet.{LogSet, or_default}
use matrixone_operator.Bucket.Claim.{
  new_bucket, sync_bucket_claim, finalize_bucket, is_taken, is_held,
}
use matrixone_operator.Bucket.Finalize.{finalize}
use matrixone_operator.Bucket.Life.{
  written, starts_job, World, Reads, HasMark, after, Step, take_it, give_it_up, hold_it, let_it_go,
  mark_it, delete_it, lose_deletion, reclaim_it, Reach, created, later,
}
use matrixone_operator.Bucket.Life.Binding.{
  Writes, Keeps, add_bucket_finalizer-Keeps, remove_bucket_finalizer-Keeps,
  sync_bucket_ever_running_ann-Keeps,
}
use matrixone_operator.Bucket.Life.Turns.{
  Takes, Gives, sync_bucket_claim-Takes, finalize_bucket-Gives,
}
use matrixone_operator.Bucket.Life.Reclaim.{IsDoomed, IsGuarded, finalize-IsGuarded}

-- The bucket after a run: the same, or the one written.
Writes-cases :
    (P : Bucket → Type 0) (Q : Bucket → Type 0) (w : World) (cs : Calls)
    → Writes P (written cs)
    → Q w.bucket
    → ((b : Bucket) → P b → Q b)
    → Q (World.bucket (after cs w))
Writes-cases P Q w cs h same new = go (written cs) h
  where
    go : (o : Option Bucket) → Writes P o → Q (or_default w.bucket o)
    go none h = same
    go (some b) h = new b h

not_taken :
    (l : LogSet) (b : Bucket)
    → is_taken l b ≡ false
    → (b.bind_to =s "") ≡ false
    → b.bind_to ≡ bucket_bind_to_mark l
unfolding is_taken
not_taken l b free bound =
    (=s_iff b.bind_to (bucket_bind_to_mark l)).0 (ground (arith, free, bound))

-- What a step does to the binding of a bucket: only the run in which a LogSet gives its bucket up
-- changes it, and the bucket is then one bound to that LogSet.
pub data BindingStep (w : World) : (w' : World) → Step w w' → Type 0 where
  kept : (w' : World) (s : Step w w') → w'.bucket.bind_to ≡ w.bucket.bind_to → BindingStep w w' s
  given :
      (k : BucketServer) (l : LogSet) (reads : Reads k w.bucket)
      → bucket_bind_to_mark l ≡ w.bucket.bind_to
      → is_held w.bucket ≡ false
      → (World.bucket (after (final (finalize_bucket k l [])) w)).bind_to ≡ ""
      → BindingStep w (after (final (finalize_bucket k l [])) w) (give_it_up k l reads)

gives-binding :
    (k : BucketServer) (l : LogSet) (w : World)
    → Reads k w.bucket
    → (w.bucket.bind_to =s "") ≡ false
    → ((World.bucket (after (final (finalize_bucket k l [])) w)).bind_to ≡ w.bucket.bind_to)
      ⊎ ((bucket_bind_to_mark l ≡ w.bucket.bind_to)
          × (is_held w.bucket ≡ false)
          × ((World.bucket (after (final (finalize_bucket k l [])) w)).bind_to ≡ ""))
gives-binding k l w reads bound =
    Writes-cases _
      (λ b.
        (b.bind_to ≡ w.bucket.bind_to)
        ⊎ ((bucket_bind_to_mark l ≡ w.bucket.bind_to)
            × (is_held w.bucket ≡ false)
            × (b.bind_to ≡ "")))
      w (final (finalize_bucket k l [])) (Gives.freed (finalize_bucket-Gives k l w.bucket reads))
      (inl refl)
      (λ b (own, unheld, free, s). inr (sym (not_taken l w.bucket own bound), unheld, free))

-- Whatever run comes next, a bucket that is bound to a LogSet stays bound to it, unless the step
-- is the run in which that LogSet gives it up, which takes that no CNSet or DNSet holds the bucket
-- with a finalizer and leaves it bound to none. Each run that writes the bucket is one step;
-- deletions that a LogSet asked for come at any later time or never.
pub Step-BindingStep :
    {w w' : World} (s : Step w w') → (w.bucket.bind_to =s "") ≡ false → BindingStep w w' s
Step-BindingStep {w} (take_it k l reads m) bound = kept _ _ (
    Writes-cases _ (λ b. b.bind_to ≡ w.bucket.bind_to) w (final (sync_bucket_claim k l []))
      (Takes.bound (sync_bucket_claim-Takes k l w.bucket reads)) refl
      (λ b (free, e, s). e ∙ sym (not_taken l w.bucket free bound)))
Step-BindingStep {w} (give_it_up k l reads) bound = elim (gives-binding k l w reads bound) [
  | inl same ↦ kept _ (give_it_up k l reads) same
  | inr (e, unheld, free) ↦ given k l reads e unheld free
]
Step-BindingStep {w} (hold_it k n m f reads) bound = kept _ _ (
    Writes-cases _ (λ b. b.bind_to ≡ w.bucket.bind_to) w _
      (Keeps.same_binding (add_bucket_finalizer-Keeps k w.bucket n m f reads)) refl (λ b e. e))
Step-BindingStep {w} (let_it_go k n m f reads) bound = kept _ _ (
    Writes-cases _ (λ b. b.bind_to ≡ w.bucket.bind_to) w _
      (Keeps.same_binding (remove_bucket_finalizer-Keeps k w.bucket n m f reads)) refl (λ b e. e))
Step-BindingStep {w} (mark_it k n m reads) bound = kept _ _ (
    Writes-cases _ (λ b. b.bind_to ≡ w.bucket.bind_to) w _
      (Keeps.same_binding (sync_bucket_ever_running_ann-Keeps k w.bucket n m reads)) refl
      (λ b e. e))
Step-BindingStep (delete_it n e) bound = kept _ _ refl
Step-BindingStep (lose_deletion n e) bound = kept _ _ refl
Step-BindingStep {w} (reclaim_it k e) bound = kept _ _ (
    Writes-cases _ (λ b. b.bind_to ≡ w.bucket.bind_to) w _
      (IsGuarded.binding (finalize-IsGuarded k w.bucket)) refl (λ b (e, f). e))

-- The bucket is in use exactly if it is bound.
abbrev pub IsMatched : Bucket → Type 0
IsMatched b = (b.state =s in_use) ≡ not (b.bind_to =s "")

IsMatched-same :
    (b b' : Bucket) → IsMatched b → b'.bind_to ≡ b.bind_to → b'.state ≡ b.state → IsMatched b'
IsMatched-same b b' m e f = ap (λ s. s =s in_use) f ∙ m ∙ ap (λ s. not (s =s "")) (sym e)

IsMatched-bound :
    (l : LogSet) (b : Bucket)
    → HasMark l
    → b.bind_to ≡ bucket_bind_to_mark l
    → b.state ≡ in_use
    → IsMatched b
IsMatched-bound l b m e f = ap (λ s. s =s in_use) f ∙ sym (ap (λ s. not (s =s "")) e ∙ ap not m)

IsMatched-free :
    (b : Bucket) → b.bind_to ≡ "" → (b.state ≡ released) ⊎ (b.state ≡ deleting) → IsMatched b
IsMatched-free b e (inl f) = ap (λ s. s =s in_use) f ∙ sym (ap (λ s. not (s =s "")) e)
IsMatched-free b e (inr f) = ap (λ s. s =s in_use) f ∙ sym (ap (λ s. not (s =s "")) e)

after-IsMatched :
    (w : World) (cs : Calls)
    → IsMatched w.bucket
    → Keeps w.bucket cs
    → IsMatched (World.bucket (after cs w))
after-IsMatched w cs h p = go (written cs) (Keeps.same_binding p) (Keeps.same_state p)
  where
    go :
        (o : Option Bucket)
        → Writes (λ b. b.bind_to ≡ w.bucket.bind_to) o
        → Writes (λ b. b.state ≡ w.bucket.state) o
        → IsMatched (or_default w.bucket o)
    go none e f = h
    go (some b) e f = IsMatched-same w.bucket b h e f

Step-IsMatched : {w w' : World} → Step w w' → IsMatched w.bucket → IsMatched w'.bucket
Step-IsMatched {w} (take_it k l reads m) h =
    Writes-cases _ IsMatched w _ (Takes.bound (sync_bucket_claim-Takes k l w.bucket reads)) h
      (λ b (free, e, s). IsMatched-bound l b m e s)
Step-IsMatched {w} (give_it_up k l reads) h =
    Writes-cases _ IsMatched w _ (Gives.freed (finalize_bucket-Gives k l w.bucket reads)) h
      (λ b (own, unheld, e, s). IsMatched-free b e s)
Step-IsMatched {w} (hold_it k n m f reads) h =
    after-IsMatched w _ h (add_bucket_finalizer-Keeps k w.bucket n m f reads)
Step-IsMatched {w} (let_it_go k n m f reads) h =
    after-IsMatched w _ h (remove_bucket_finalizer-Keeps k w.bucket n m f reads)
Step-IsMatched {w} (mark_it k n m reads) h =
    after-IsMatched w _ h (sync_bucket_ever_running_ann-Keeps k w.bucket n m reads)
Step-IsMatched (delete_it n e) h = h
Step-IsMatched (lose_deletion n e) h = h
Step-IsMatched {w} (reclaim_it k e) h =
    Writes-cases _ IsMatched w _ (IsGuarded.binding (finalize-IsGuarded k w.bucket)) h
      (λ b (e, f). IsMatched-same w.bucket b h e f)

Reach-IsMatched : {w : World} → Reach w → IsMatched w.bucket
unfolding new_bucket
Reach-IsMatched (created k l s m) = IsMatched-bound l (new_bucket k l s) m refl refl
Reach-IsMatched (later r s) = Step-IsMatched s (Reach-IsMatched r)

-- From a bucket that a LogSet creates, by any steps of LogSets, holders, deletions and the
-- bucket's controller: where the controller starts the job that deletes the data, the bucket is
-- bound to no LogSet, its state is neither InUse nor Released, and a pod of its cluster once ran.
pub Reach-job :
    {w : World} (k : BucketServer)
    → Reach w
    → starts_job (final (finalize k (World.bucket w) [])) ≡ true
    → (w.bucket.bind_to ≡ "") × IsDoomed w.bucket
Reach-job {w} k r starts = elim (IsGuarded.job (finalize-IsGuarded k w.bucket)) [
  | inl never ↦ cc
  | inr doomed ↦ (
    (=s_iff w.bucket.bind_to "").0 (ground (arith, Reach-IsMatched r, IsDoomed.unused doomed)),
    doomed,
  )
]
