-- ===== src/LogSet/Finalize/Gone.antt =====
-- The bucket is given up last.
use matrixone_operator.Base.{All, ◌≡◌, refl, ◌⊎◌, inl, inr, Bool, true, false, ◌&&◌, List, [], ◌∷◌}
use matrixone_operator.Base.Run.{
  ignore_missing, not_found, conflict, refused, Answer, ok, err, Run, done, fail, ◌>>=◌, ◌>>◌, pure,
  Ends, Ends-bind, Ends-map, answer, Ends-ite,
}
use matrixone_operator.Base.Trace.{Extends, same, more, Extends-trans}
use matrixone_operator.Bucket.Claim.{finalize_bucket}
use matrixone_operator.LogSet.State.{
  Owned, Orphan, LogCall, delete_owned, exists_owned, list_orphans, free_orphan, delete_orphan,
  LogSetState, LogSetServer, tell, on_bucket,
}
use matrixone_operator.LogSet.Finalize.{
  owned_objects, delete_all_owned, any_exists, clean_orphan, clean_orphans, after_orphans,
  when_gone, finalize,
}
use matrixone_operator.LogSet.Finalize.Apart.{
  IsApart, IsApart-refl, IsApart-tell, IsApart-trans, IsApart-any, of_either,
}

module _ (k : LogSetServer) where
  -- Every object was found to be missing, by a call of the run from `s` to `u`.
  abbrev pub AreGone : LogSetState → List Owned → LogSetState → Type 0
  AreGone s os u =
      All
        (λ o.
          (cs : List LogCall) × (k.owned_exists cs o ≡ ok false)
          × Extends (λ _. Unit {0}) s.calls cs
          × Extends (λ _. Unit {0}) (exists_owned o ∷ cs) u.calls)
        os

  -- What the state is like in which the bucket's turn comes: the last call listed no orphans.
  pub record IsCleared (s u : LogSetState) : Type 0 where
    pub gone : AreGone s owned_objects u
    pub left : List LogCall
    pub none_left : k.orphans left ≡ ok []
    pub just_listed : u.calls ≡ list_orphans ∷ left
    pub apart : IsApart s u

  -- A longer run.
  AreGone-longer :
      (os : List Owned) (s t u v : LogSetState)
      → Extends (λ _. Unit {0}) s.calls t.calls
      → Extends (λ _. Unit {0}) u.calls v.calls
      → AreGone t os u
      → AreGone s os v
  AreGone-longer [] s t u v before after g = tt
  AreGone-longer (o ∷ os) s t u v before after ((cs, e, x, y), g) = (
    (cs, e, Extends-trans before x, Extends-trans y after),
    AreGone-longer os s t u v before after g,
  )

  delete_all_owned-IsApart :
      (os : List Owned) (s t : LogSetState)
      → IsApart s t
      → Ends (λ _ u. IsApart s u) (λ _ u. IsApart s u) (delete_all_owned k os t)
  unfolding delete_all_owned
  delete_all_owned-IsApart [] s t a = a
  delete_all_owned-IsApart (o ∷ os) s t a = go (k.owned_deleted t.calls o) (
      delete_all_owned-IsApart os s (tell (delete_owned o) t)
        (IsApart-tell s t (delete_owned o) refl a))
    where
      go :
          (r : Answer (Unit {0}))
          → Ends
              (λ _ u. IsApart s u)
              (λ _ u. IsApart s u)
              (delete_all_owned k os (tell (delete_owned o) t))
          → Ends
              (λ _ u. IsApart s u)
              (λ _ u. IsApart s u)
              (((λ t. ignore_missing r t) >> delete_all_owned k os) (tell (delete_owned o) t))
      go (ok x) ih = ih
      go (err not_found) ih = ih
      go (err conflict) ih = IsApart-tell s t (delete_owned o) refl a
      go (err refused) ih = IsApart-tell s t (delete_owned o) refl a

  any_exists-AreGone :
      (os : List Owned) (t : LogSetState)
      → Ends
          (λ v u. IsApart t u × ((v ≡ true) ⊎ AreGone t os u))
          (λ _ u. IsApart t u)
          (any_exists k os t)
  unfolding any_exists
  any_exists-AreGone [] t = (IsApart-refl t, inr tt)
  any_exists-AreGone (o ∷ os) t = go (k.owned_exists t.calls o) refl (any_exists-AreGone os asked)
    where
      asked : LogSetState
      asked = tell (exists_owned o) t

      one_call : IsApart t asked
      one_call = IsApart-tell t t (exists_owned o) refl (IsApart-refl t)

      with_this :
          {v : Bool} {u : LogSetState}
          → k.owned_exists t.calls o ≡ ok false
          → IsApart asked u
          → (v ≡ true) ⊎ AreGone asked os u
          → (v ≡ true) ⊎ AreGone t (o ∷ os) u
      with_this m a (inl there) = inl there
      with_this {u = u} m a (inr gone) = inr (
        (t.calls, m, same, IsApart-any asked u a),
        AreGone-longer os t asked u u (IsApart-any t asked one_call) same gone,
      )

      go :
          (r : Answer Bool)
          → k.owned_exists t.calls o ≡ r
          → Ends
              (λ v u. IsApart asked u × ((v ≡ true) ⊎ AreGone asked os u))
              (λ _ u. IsApart asked u)
              (any_exists k os asked)
          → Ends
              (λ v u. IsApart t u × ((v ≡ true) ⊎ AreGone t (o ∷ os) u))
              (λ _ u. IsApart t u)
              ((answer r >>= λ there. elim there [ true ↦ pure true | false ↦ any_exists k os ])
                asked)
      go (err e) m ih = one_call
      go (ok true) m ih = (one_call, inl refl)
      go (ok false) m ih =
          Ends-map _ (λ v u. IsApart t u × ((v ≡ true) ⊎ AreGone t (o ∷ os) u)) _
            (λ _ u. IsApart t u) (any_exists k os asked)
            (λ v u h. (IsApart-trans t asked u one_call h.0, with_this m h.0 h.1))
            (λ _ u h. IsApart-trans t asked u one_call h) ih

  clean_orphan-IsApart :
      (o : Orphan) (s t : LogSetState) → IsApart s t → IsApart s (clean_orphan k o t).1
  unfolding clean_orphan
  clean_orphan-IsApart o s t a =
      of_either (IsApart s) o.is_kept _ _
        (IsApart-tell s (tell (free_orphan o) t) (delete_orphan o) refl
          (IsApart-tell s t (free_orphan o) refl a))
        (IsApart-tell s t (delete_orphan o) refl a)

  clean_orphans-IsApart :
      (os : List Orphan) (good : Bool) (s t : LogSetState)
      → IsApart s t
      → IsApart s (clean_orphans k os good t).1
  unfolding clean_orphans
  clean_orphans-IsApart [] good s t a = a
  clean_orphans-IsApart (o ∷ os) good s t a =
      clean_orphans-IsApart os (good && (clean_orphan k o t).0) s (clean_orphan k o t).1
        (clean_orphan-IsApart o s t a)

  -- Either the bucket has not been touched, or its turn came and decided the outcome.
  abbrev pub IsLast : LogSetState → Run LogSetState Bool → Type 0
  IsLast s r =
      Ends
        (λ v t.
          ((v ≡ false) × IsApart s t)
          ⊎ ((u : LogSetState) × IsCleared s u
              × (on_bucket k (λ b. finalize_bucket b u.log_set) u ≡ done v t)))
        (λ e t.
          IsApart s t
          ⊎ ((u : LogSetState) × IsCleared s u
              × (on_bucket k (λ b. finalize_bucket b u.log_set) u ≡ fail e t)))
        r

  -- A run decides an outcome by being it.
  own_outcome :
      (s u : LogSetState)
      → IsCleared s u
      → (r : Run LogSetState Bool) → on_bucket k (λ b. finalize_bucket b u.log_set) u ≡ r
      → IsLast s r
  own_outcome s u c (done v t) e = inr (u, c, e)
  own_outcome s u c (fail e t) m = inr (u, c, m)

  after_orphans-IsLast :
      (cs : List LogCall) (os : List Orphan) (s u : LogSetState)
      → k.orphans cs ≡ ok os
      → u.calls ≡ list_orphans ∷ cs
      → AreGone s owned_objects u
      → IsApart s u
      → IsLast s (after_orphans k os u)
  unfolding after_orphans
  after_orphans-IsLast cs [] s u e last gone a =
      own_outcome s u
        (record { gone = gone; left = cs; none_left = e; just_listed = last; apart = a }) _ refl
  after_orphans-IsLast cs (o ∷ os) s u e last gone a =
      Ends-ite _ _ (clean_orphans k (o ∷ os) true u).0 _ _
        (λ _. inl (refl, clean_orphans-IsApart (o ∷ os) true s u a))
        (λ _. inl (clean_orphans-IsApart (o ∷ os) true s u a))

  when_gone-IsLast :
      (v : Bool) (s u : LogSetState)
      → IsApart s u
      → (v ≡ true) ⊎ AreGone s owned_objects u
      → IsLast s (when_gone k v u)
  unfolding when_gone
  when_gone-IsLast true s u a h = inl (refl, a)
  when_gone-IsLast false s u a (inl h) = cc
  when_gone-IsLast false s u a (inr gone) = go (k.orphans u.calls) refl
    where
      go :
          (r : Answer (List Orphan))
          → k.orphans u.calls ≡ r
          → IsLast s ((answer r >>= after_orphans k) (tell list_orphans u))
      go (ok os) e =
          after_orphans-IsLast u.calls os s (tell list_orphans u) e refl
            (AreGone-longer owned_objects s s u (tell list_orphans u) same
              (more list_orphans u.calls tt same) gone)
            (IsApart-tell s u list_orphans refl a)
      go (err e) m = inl (IsApart-tell s u list_orphans refl a)

  of_run :
      (s t u : LogSetState) {v : Bool}
      → IsApart s t
      → (v ≡ true) ⊎ AreGone t owned_objects u
      → (v ≡ true) ⊎ AreGone s owned_objects u
  of_run s t u a (inl there) = inl there
  of_run s t u a (inr gone) =
      inr (AreGone-longer owned_objects s t u u (IsApart-any s t a) same gone)

  -- Finalize of a log service either makes no call on its bucket, and then answers false or fails,
  -- or its run on the bucket decides the outcome; that run comes only after every object of the
  -- service was found missing by a call of this Finalize, and right after a call that listed no
  -- orphaned pod.
  pub finalize-IsLast : (s : LogSetState) → IsLast s (finalize k s)
  unfolding finalize
  finalize-IsLast s =
      Ends-bind _ _ (delete_all_owned k owned_objects s) _
        (Ends-map _ (λ _ u. IsApart s u) _ _ (delete_all_owned k owned_objects s) (λ _ _ a. a)
          (λ _ _ a. inl a) (delete_all_owned-IsApart owned_objects s s (IsApart-refl s)))
        (λ _ t a.
          Ends-bind _ _ (any_exists k owned_objects t) (when_gone k)
            (Ends-map _ (λ v u. IsApart s u × ((v ≡ true) ⊎ AreGone s owned_objects u)) _ _
              (any_exists k owned_objects t)
              (λ v u h. (IsApart-trans s t u a h.0, of_run s t u a h.1))
              (λ _ u h. inl (IsApart-trans s t u a h)) (any_exists-AreGone owned_objects t))
            (λ v u h. when_gone-IsLast v s u h.0 h.1))
