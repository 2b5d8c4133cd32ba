-- ===== src/Cluster/Up/Calls.antt =====
-- The calls that Up may make, and what its parts leave of the status.
use matrixone_operator.Base.{
  =s_refl, All, String, ◌≡◌, refl, true, false, not, ◌&&◌, Option, none, some, List, [], ◌∷◌, arith,
}
use matrixone_operator.Base.Run.{Answer, ok, err, M, pure, Ends, answer}
use matrixone_operator.Base.Trace.{
  same, more, After, Only, Only-bind, Only-then, Only-done, Only-if,
}
use matrixone_operator.Bucket.{contains}
use matrixone_operator.Cluster.{
  Cluster, CnSetItem, ClusterStatus, MetricSecret, MoCall, read_backup, sync_cn_set, delete_cn_set,
  create_secret, read_secret, sync_restore, sync_log_set, sync_dn_set, list_cn_sets, sync_web_ui,
  sync_proxy, update_status, create_metric_secret, query, delete_all_cn_sets, exists_owned,
  delete_owned, MoServer, MoState, tell, call, set_status, send_status,
}
use matrixone_operator.Cluster.Metric.{
  make_root, init_root_credential, make_metric, init_metric_credential, run_all,
  initialize_metric_user, metric_statements, credential_name, metric_credential_name,
}
use matrixone_operator.Cluster.Up.{desired_cn_sets, sync_cn_sets, sync_metric_user}

-- A set is made or kept only if it is desired, and deleted only if it is not; the optional parts are
-- made only if they are asked for.
abbrev pub IsMeant : Cluster → MoCall → Type 0
IsMeant m (sync_cn_set n) = contains n (desired_cn_sets m) ≡ true
IsMeant m (delete_cn_set n) = contains n (desired_cn_sets m) ≡ false
IsMeant m sync_web_ui = m.has_web_ui ≡ true
IsMeant m sync_proxy = m.has_proxy ≡ true
IsMeant m (read_backup b) = ⊥
IsMeant m (create_secret n) = Unit {0}
IsMeant m (read_secret n) = Unit {0}
IsMeant m sync_restore = ⊥
IsMeant m sync_log_set = Unit {0}
IsMeant m sync_dn_set = Unit {0}
IsMeant m list_cn_sets = Unit {0}
IsMeant m (update_status st) = Unit {0}
IsMeant m (create_metric_secret n) = Unit {0}
IsMeant m (query h q) = Unit {0}
IsMeant m delete_all_cn_sets = ⊥
IsMeant m (exists_owned o) = ⊥
IsMeant m (delete_owned o) = ⊥

contains_more :
    (n x : String) (ns : List String) → contains n ns ≡ true → contains n (x ∷ ns) ≡ true
unfolding contains
contains_more n x ns h = ground (arith, h)

-- Every text is in the list that begins with it.
contains_self : (n : String) (ns : List String) → contains n (n ∷ ns) ≡ true
unfolding contains
contains_self n ns = rw (=s_refl n) refl

All-map :
    {P Q : String → Type 0} → ((n : String) → P n → Q n) → (ns : List String) → All P ns → All Q ns
All-map f [] h = tt
All-map f (n ∷ ns) h = (f n h.0, All-map f ns h.1)

pub contains-All : (ns : List String) → All (λ n. contains n ns ≡ true) ns
contains-All [] = tt
contains-All (n ∷ ns) =
    (contains_self n ns, All-map (λ x h. contains_more x n ns h) ns (contains-All ns))

-- `J` is what is known of the status.
module _ (k : MoServer) (m : Cluster) (J : ClusterStatus → Type 0) where
  abbrev pub Keeps {ℓ} : {A : Type ℓ} → M MoState A → Type 0
  Keeps f = Only MoState.calls (λ s. J s.status) (IsMeant m) f

  pub call-Keeps :
      {A : Type 0} (c : MoCall) (f : List MoCall → Answer A) → IsMeant m c → Keeps (call c f)
  call-Keeps {A} c f p s i = go (f s.calls)
    where
      go :
          (r : Answer A)
          → Ends
              (λ _ t. After MoState.calls (λ u. J u.status) (IsMeant m) s t)
              (λ _ t. After MoState.calls (λ u. J u.status) (IsMeant m) s t)
              (answer r (tell c s))
      go (ok a) = (i, more c s.calls p same)
      go (err e) = (i, more c s.calls p same)

  pub set_status-Keeps :
      (f : ClusterStatus → ClusterStatus)
      → ((st : ClusterStatus) → J st → J (f st))
      → Keeps (set_status f)
  set_status-Keeps f h s i = (h s.status i, same)

  pub send_status-Keeps : Keeps (send_status k)
  send_status-Keeps s i =
      call-Keeps (update_status s.status) (λ cs. k.status_updated cs s.status) tt s i

  pub sync_cn_sets-Keeps :
      (ns : List String)
      → All (λ n. contains n (desired_cn_sets m) ≡ true) ns
      → Keeps (sync_cn_sets k m ns)
  unfolding sync_cn_sets
  sync_cn_sets-Keeps [] h = Only-done {0} MoState.calls _ _ tt
  sync_cn_sets-Keeps (n ∷ ns) h =
      Only-then MoState.calls _ _ _ _ (call-Keeps (sync_cn_set n) (λ cs. k.cn_set cs n) h.0)
        (sync_cn_sets-Keeps ns h.1)

  make_root-Keeps :
      ((st : ClusterStatus) (c : String) → J st → J (record st { credential_ref = some c }))
      → (o : Option String) → Keeps (make_root k m o)
  unfolding make_root
  make_root-Keeps h (some c) = Only-done {0} MoState.calls _ _ tt
  make_root-Keeps h none =
      Only-then MoState.calls _ _ _ _
        (Only-then MoState.calls _ _ _ _
          (call-Keeps (create_secret (credential_name m)) (λ cs. k.secret_created cs) tt)
          (set_status-Keeps _ (λ st i. h st (credential_name m) i)))
        send_status-Keeps

  pub init_root_credential-Keeps :
      ((st : ClusterStatus) (c : String) → J st → J (record st { credential_ref = some c }))
      → Keeps (init_root_credential k m)
  unfolding init_root_credential
  init_root_credential-Keeps h s i = make_root-Keeps h s.status.credential_ref s i

  module _
      (with_secret : (st : ClusterStatus) (c : String)
        → J st
        → J (record st { metric_secret_ref = some c }))
      (initialized : (st : ClusterStatus)
        → J st
        → J (record st { metric_initialized = true })) where
    make_metric-Keeps : (o : Option String) → Keeps (make_metric k m o)
    unfolding make_metric
    make_metric-Keeps (some c) s i = call-Keeps (read_secret c) (λ cs. k.metric_secret cs c) tt s i
    make_metric-Keeps none s i =
        Only-bind MoState.calls (λ u. J u.status) (IsMeant m)
          (call (create_metric_secret wanted) (λ cs. k.metric_secret_created cs wanted)) _
          (call-Keeps (create_metric_secret wanted) (λ cs. k.metric_secret_created cs wanted) tt)
          (λ made.
            Only-then MoState.calls _ _ _ (pure made)
              (Only-then MoState.calls _ _
                (set_status
                  (λ st. record st { metric_secret_ref = some (metric_credential_name m) }))
                _ (set_status-Keeps _ (λ st j. with_secret st (metric_credential_name m) j))
                send_status-Keeps)
              (Only-done MoState.calls _ _ made))
          s i
      where
        wanted : MetricSecret
        wanted = record {
          user = "mo_operator";
          password = k.password s.calls;
          role = "metric_reader";
        }

    run_all-Keeps : (host : String) (qs : List String) → Keeps (run_all k m host qs)
    unfolding run_all
    run_all-Keeps host [] = Only-done {0} MoState.calls _ _ tt
    run_all-Keeps host (q ∷ qs) =
        Only-then MoState.calls _ _ _ _ (call-Keeps (query host q) (λ cs. k.answered cs q) tt)
          (run_all-Keeps host qs)

    initialize-Keeps : (host : String) → Keeps (initialize_metric_user k m host)
    unfolding initialize_metric_user init_metric_credential
    initialize-Keeps host =
        Only-bind MoState.calls _ _ _ _ (λ s i. make_metric-Keeps s.status.metric_secret_ref s i)
          (λ secret.
            Only-then MoState.calls _ _ _ _
              (Only-then MoState.calls _ _ _ _ (run_all-Keeps host (metric_statements secret))
                (set_status-Keeps _ initialized))
              send_status-Keeps)

    pub sync_metric_user-Keeps : (o : Option CnSetItem) → Keeps (sync_metric_user k m o)
    unfolding sync_metric_user
    sync_metric_user-Keeps none s i = (i, same)
    sync_metric_user-Keeps (some f) s i =
        Only-if MoState.calls _ _ (m.metric_reader_enabled && not s.status.metric_initialized) _ _
          (λ _. initialize-Keeps f.set_status.host) (λ _. Only-done {0} MoState.calls _ _ tt) s i
