-- ===== src/Cluster/Metric.antt =====
-- The credentials of a cluster, and the database user that reads its metrics: InitRootCredential,
-- InitMetricCredential and initializeMetricUser of pkg/controllers/mocluster/controller.go.
use matrixone_operator.Base.{String, true, Option, none, some, List, [], ◌∷◌}
use matrixone_operator.Base.Run.{M, ◌>>=◌, ◌>>◌, pure}
use Prim.Native.String.{◌++◌ as join}
use matrixone_operator.Cluster.{
  Cluster, MetricSecret, create_secret, read_secret, create_metric_secret, query, MoServer, MoState,
  call, set_status, send_status,
}

-- credentialName
abbrev pub credential_name : Cluster → String
credential_name m = join m.name "-credential"

-- metricCredentialName
abbrev pub metric_credential_name : Cluster → String
metric_credential_name m = join m.name "-metric"

-- The statements that make the user, in order.
unfoldable pub metric_statements : MetricSecret → List String
metric_statements s =
    join "CREATE USER IF NOT EXISTS `"
      (join s.user (join "` identified by '" (join s.password "'")))
    ∷ join "CREATE ROLE IF NOT EXISTS `" (join s.role "`")
    ∷ join "GRANT connect ON ACCOUNT * TO `" (join s.role "`")
    ∷ join "GRANT select ON TABLE system_metrics.* TO " s.role
    ∷ join "GRANT `" (join s.role (join "` TO `" (join s.user "`")))
    ∷ []

module _ (k : MoServer) (m : Cluster) where
  -- InitRootCredential
  unfoldable pub make_root : Option String → M MoState (Unit {0})
  make_root (some c) = pure tt
  make_root none =
      call (create_secret (credential_name m)) (λ cs. k.secret_created cs)
      >> set_status (λ st. record st { credential_ref = some (credential_name m) })
      >> send_status k

  unfoldable pub init_root_credential : M MoState (Unit {0})
  init_root_credential s = make_root s.status.credential_ref s

  -- InitMetricCredential, with the user's fixed name and role.
  unfoldable pub make_metric : Option String → M MoState MetricSecret
  make_metric (some c) s = call (read_secret c) (λ cs. k.metric_secret cs c) s
  make_metric none s =
      (let wanted : MetricSecret = record {
        user = "mo_operator";
        password = k.password s.calls;
        role = "metric_reader";
      } in
          call (create_metric_secret wanted) (λ cs. k.metric_secret_created cs wanted) >>= λ made.
          set_status (λ st. record st { metric_secret_ref = some (metric_credential_name m) })
          >> send_status k
          >> pure made)
        s

  unfoldable pub init_metric_credential : M MoState MetricSecret
  init_metric_credential s = make_metric s.status.metric_secret_ref s

  unfoldable pub run_all : String → List String → M MoState (Unit {0})
  run_all host [] = pure tt
  run_all host (q ∷ qs) = call (query host q) (λ cs. k.answered cs q) >> run_all host qs

  -- initializeMetricUser
  unfoldable pub initialize_metric_user : String → M MoState (Unit {0})
  initialize_metric_user host = init_metric_credential >>= λ secret.
      run_all host (metric_statements secret)
      >> set_status (λ st. record st { metric_initialized = true })
      >> send_status k
