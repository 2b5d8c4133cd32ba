-- ===== src/LogSet/Failover/Minority.antt =====
-- What Repair may do: only a minority of the replicas is ever replaced.
use matrixone_operator.Base.{
  ◌=s◌, =s_iff, length, ℕ, suc, ◌≤◌, String, ◌≡◌, refl, sym, ap, ◌∙◌, subst, Bool, true, false, not,
  Option, none, some, List, [], ◌∷◌, arith,
}
use matrixone_operator.Base.Run.{
  failed, out_of_fuel, Answer, ok, err, fail, M, Ends, Ends-map, Ends-choice, Ends-map, answer,
  Ends-ite,
}
use matrixone_operator.Base.Int.{pos, ltb_ℤ}
use matrixone_operator.Base.Trace.{Extends, same, more, After, Only, Only-then, Only-fail}
use matrixone_operator.Api.LogSet.{
  LogSet, get_store_failure_timeout, get_failed_pod_strategy, strategy_orphan,
}
use matrixone_operator.Common.Failover.{Store, FailoverStatus}
use matrixone_operator.LogSet.State.{
  StatefulSet, LogCall, update_sts, write_gossip, orphan_pod, LogSetState, LogSetServer, tell, call,
}
use matrixone_operator.LogSet.Ordinals.{gossip_seeds}
use matrixone_operator.LogSet.Failover.{
  stores_failed_for, minority_limit, update_gossip_config, keep_pod, reserve, repair_first, repair,
}

module _ (k : LogSetServer) (l : LogSet) (st : FailoverStatus) (sts : StatefulSet) (enabled : Bool)
    (now : ℕ) where
  -- The store is the first of those that have failed for the timeout, at most a minority of the stores
  -- has failed, and less than a minority has been replaced.
  pub record IsDue (c : Store) : Type 0 where
    pub on : enabled ≡ true
    pub few_failed : ltb_ℤ (minority_limit l) (pos (length st.failed_stores)) ≡ false
    pub few_replaced : ltb_ℤ (pos (length sts.reserve_ordinals)) (minority_limit l) ≡ true
    pub rest : List Store
    pub first : stores_failed_for now (get_store_failure_timeout l.spec) st.failed_stores ≡ c ∷ rest

  abbrev pub replaced : ℕ → StatefulSet
  replaced o = record sts { reserve_ordinals = k.upsert sts.reserve_ordinals o }

  -- The calls that Repair may make.
  pub data IsRepair : LogCall → Type 0 where
    keeps :
        (c : Store)
        → IsDue c
        → get_failed_pod_strategy l.spec ≡ strategy_orphan
        → IsRepair (orphan_pod c.pod_name)
    reserves :
        (c : Store) (o : ℕ)
        → IsDue c
        → k.pod_ordinal c.pod_name ≡ some o
        → ltb_ℤ (minority_limit l) (pos (length (k.upsert sts.reserve_ordinals o))) ≡ false
        → IsRepair (update_sts (replaced o))
    announces :
        (c : Store) (o : ℕ) (seeds : List String)
        → IsDue c
        → k.pod_ordinal c.pod_name ≡ some o
        → gossip_seeds l sts.replicas (k.upsert sts.reserve_ordinals o) ≡ some seeds
        → IsRepair (write_gossip seeds)

  -- The object and its status, while a run goes on.
  abbrev pub Holds : LogSetState → Type 0
  Holds s = (s.log_set ≡ l) × (s.status ≡ st)

  abbrev pub Repairs {ℓ} : {A : Type ℓ} → M LogSetState A → Type 0
  Repairs m = Only LogSetState.calls Holds IsRepair m

  call-Repairs :
      (c : LogCall) (f : List LogCall → Answer (Unit {0})) → IsRepair c → Repairs (call c f)
  call-Repairs c f p s i = go (f s.calls)
    where
      go :
          (a : Answer (Unit {0}))
          → Ends
              (λ _ t. After LogSetState.calls Holds IsRepair s t)
              (λ _ t. After LogSetState.calls Holds IsRepair s t)
              (answer a (tell c s))
      go (ok a) = (i, more c s.calls p same)
      go (err e) = (i, more c s.calls p same)

  gossip-Repairs :
      (c : Store) (o : ℕ)
      → IsDue c
      → k.pod_ordinal c.pod_name ≡ some o
      → Repairs (update_gossip_config k (replaced o))
  unfolding update_gossip_config
  gossip-Repairs c o due named s i =
      seeds_cases (gossip_seeds s.log_set sts.replicas (k.upsert sts.reserve_ordinals o))
        (ap (λ m. gossip_seeds m sts.replicas (k.upsert sts.reserve_ordinals o)) (sym i.0))
    where
      seeds_cases :
          (m : Option (List String))
          → gossip_seeds l sts.replicas (k.upsert sts.reserve_ordinals o) ≡ m
          → Ends
              (λ _ t. After LogSetState.calls Holds IsRepair s t)
              (λ _ t. After LogSetState.calls Holds IsRepair s t)
              (elim m [
                | none ↦ fail out_of_fuel s
                | some seeds ↦ call (write_gossip seeds) (λ cs. k.gossip_written cs seeds) s
              ])
      seeds_cases none e = (i, same)
      seeds_cases (some seeds) e =
          call-Repairs (write_gossip seeds) (λ cs. k.gossip_written cs seeds)
            (announces c o seeds due named e) s i

  module _ (one_more : (xs : List ℕ) (x : ℕ) → length (k.upsert xs x) ≤ suc (length xs)) where
    still_minority :
        (o : ℕ)
        → ltb_ℤ (pos (length sts.reserve_ordinals)) (minority_limit l) ≡ true
        → ltb_ℤ (minority_limit l) (pos (length (k.upsert sts.reserve_ordinals o))) ≡ false
    still_minority o h = ground (arith, h, one_more sts.reserve_ordinals o)

    reserve-Repairs :
        (c : Store)
        → IsDue c
        → (o : Option ℕ) → k.pod_ordinal c.pod_name ≡ o
        → Repairs (reserve k sts o)
    unfolding reserve
    reserve-Repairs c due none e = Only-fail LogSetState.calls Holds IsRepair (Unit {0}) failed
    reserve-Repairs c due (some o) e =
        Only-then LogSetState.calls Holds IsRepair _ (update_gossip_config k (replaced o))
          (call-Repairs (update_sts (replaced o)) (λ cs. k.sts_updated cs (replaced o))
            (reserves c o due e (still_minority o (IsDue.few_replaced due))))
          (gossip-Repairs c o due e)

    keep_pod-Repairs : (c : Store) → IsDue c → Repairs (keep_pod k l c)
    unfolding keep_pod
    keep_pod-Repairs c due s i =
        Ends-choice _ _ (get_failed_pod_strategy l.spec =s strategy_orphan) _ _ s
          (λ e.
            call-Repairs (orphan_pod c.pod_name) (λ cs. k.pod_orphaned cs c.pod_name)
              (keeps c due ((=s_iff (get_failed_pod_strategy l.spec) strategy_orphan).0 e)) s i)
          (λ _. (i, same))

    repair_first-Repairs :
        (c : Store) (rest : List Store) → IsDue c → Repairs (repair_first k sts (c ∷ rest))
    unfolding repair_first
    repair_first-Repairs c rest due s i = rw (ap (λ m. keep_pod k m c) i.0) (
        Only-then LogSetState.calls Holds IsRepair (keep_pod k l c)
          (reserve k sts (k.pod_ordinal c.pod_name)) (keep_pod-Repairs c due)
          (reserve-Repairs c due _ refl) s i)

    due_first-Repairs :
        (failing : List Store)
        → stores_failed_for now (get_store_failure_timeout l.spec) st.failed_stores ≡ failing
        → enabled ≡ true
        → ltb_ℤ (minority_limit l) (pos (length st.failed_stores)) ≡ false
        → ltb_ℤ (pos (length sts.reserve_ordinals)) (minority_limit l) ≡ true
        → Repairs (repair_first k sts failing)
    unfolding repair_first
    due_first-Repairs [] e on few few' s i = (i, same)
    due_first-Repairs (c ∷ rest) e on few few' s i =
        repair_first-Repairs c rest
          (record { on = on; few_failed = few; few_replaced = few'; rest = rest; first = e }) s i

    pub repair-Repairs :
        (s : LogSetState)
        → Holds s
        → k.now s.calls ≡ now
        → Ends
            (λ _ t. After LogSetState.calls Holds IsRepair s t)
            (λ _ t. After LogSetState.calls Holds IsRepair s t)
            (repair k enabled sts s)
    unfolding repair
    repair-Repairs s i clock =
        Ends-ite _ _ (not enabled) _ _ (λ _. (i, same))
          (λ on.
            Ends-ite _ _ (ltb_ℤ (minority_limit s.log_set) (pos (length s.status.failed_stores))) _
              _ (λ _. (i, same))
              (λ few.
                Ends-ite _ _
                  (not (ltb_ℤ (pos (length sts.reserve_ordinals)) (minority_limit s.log_set))) _ _
                  (λ _. (i, same))
                  (λ few'.
                    due_first-Repairs _
                      (ap
                          (λ n.
                            stores_failed_for n (get_store_failure_timeout l.spec) st.failed_stores)
                          (sym clock)
                        ∙ ap
                            (λ t.
                              stores_failed_for (k.now s.calls) (get_store_failure_timeout l.spec)
                                t.failed_stores)
                            (sym i.1)
                        ∙ ap
                            (λ m.
                              stores_failed_for (k.now s.calls) (get_store_failure_timeout m.spec)
                                s.status.failed_stores)
                            (sym i.0))
                      (ground (arith, on))
                      (subst (λ m. ltb_ℤ (minority_limit m) (pos (length st.failed_stores)) ≡ false)
                        i.0
                        (subst
                          (λ t.
                            ltb_ℤ (minority_limit s.log_set) (pos (length t.failed_stores)) ≡ false)
                          i.1 few))
                      (subst
                        (λ m. ltb_ℤ (pos (length sts.reserve_ordinals)) (minority_limit m) ≡ true)
                        i.0 (ground (arith, few')))
                      s i)))

-- However Repair ends, it leaves the object and the status as they are, and each call that it
-- makes is for one store, the first that has failed for the timeout, while failover is enabled, no
-- more stores have failed than half of the log shard's replicas and fewer ordinals than that are
-- reserved: it keeps the store's pod only under the strategy Orphan; it reserves that pod's
-- ordinal, and then no more ordinals than that half are reserved; it announces the addresses that
-- skip the reserved ordinals and that one. The utility Upsert lengthens a list by at most one.
pub repair-IsRepair :
    (k : LogSetServer) (sts : StatefulSet) (enabled : Bool) (s : LogSetState)
    → ((xs : List ℕ) (x : ℕ) → length (k.upsert xs x) ≤ suc (length xs))
    → Ends
        (λ _ t.
          (t.log_set ≡ s.log_set)
          × (t.status ≡ s.status)
          × Extends (IsRepair k s.log_set s.status sts enabled (k.now s.calls)) s.calls t.calls)
        (λ _ t.
          (t.log_set ≡ s.log_set)
          × (t.status ≡ s.status)
          × Extends (IsRepair k s.log_set s.status sts enabled (k.now s.calls)) s.calls t.calls)
        (repair k enabled sts s)
repair-IsRepair k sts enabled s one_more =
    Ends-map _ _ _ _ (repair k enabled sts s) (λ _ t h. (h.0.0, h.0.1, h.1))
      (λ _ t h. (h.0.0, h.0.1, h.1))
      (repair-Repairs k s.log_set s.status sts enabled (k.now s.calls) one_more s (refl, refl) refl)
