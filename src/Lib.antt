-- ===== src/Lib.antt =====
-- The controllers of the MatrixOne operator, which runs MatrixOne clusters on Kubernetes, and theorems
-- about them.
--
-- A MatrixOneCluster owns the sets that run it: a LogSet with its storage bucket, a DNSet, CNSets, a
-- proxy; it is ready when they are. Compute nodes (CN) may be pooled: a CNClaimSet (a number of claims)
-- owns CNClaims; a CNClaim binds one pod of a CNPool and keeps it; the CN store controller reconciles
-- each CN pod: it measures its load, drains it before a stop and brings a pool pod that was given back
-- to the pool or to deletion. Backup and restore jobs run beside. The controllers share no memory: they
-- meet in the labels and annotations of pods (claimed-by, phase, score) and in the objects of the API
-- server. So each is modelled on its own, against a server whose every answer is a parameter; the bucket
-- of a LogSet, which several of them write, is followed through all their runs (Bucket.Life).
--
--   Api        the objects and label keys: api/core/v1alpha1 (cnclaim_types.go, cnclaim_helper.go,
--              cnset_types.go, cnpool_types.go), and the feature gates of semver.go and
--              operator_version.go in Api.Version
--   Base       numbers, lists, Go maps, texts, sorting, and the monad Run of a reconciler; Base.Trace
--              says which calls a step adds to the record
--   Common     pkg/controllers/common: cnstore.go, owner resolution (Owner, Resolve) and the score (Score);
--              failover.go, CollectStoreStatus (Failover)
--   ClaimSet   pkg/controllers/cnclaimset/controller.go: Ids (genAvailableIds), Order (the deletion
--              order), Scale (scale, scaleIn, scaleOut), Sync (Sync, listOwnedClaims, Finalize)
--   Claim      pkg/controllers/cnclaim: Select (selectCN), Index (buildPodClaimIndex), Labels (the
--              writes of ensureOwnership, reclaimCN, transferPodOwnership), Store (patchStore), Bind,
--              Reclaim, Migrate (migrate.go), Sync (Observe, Sync), Finalize, Requests (pod events)
--   Store      pkg/controllers/cnstore: Client (withMOClientSet), Stats (syncStats), Readiness, Drain
--              (OnPreparingStop), Pooling (pooling.go), Reconcile (observe, OnNormal, OnDeleted)
--   Pool       pkg/controllers/cnpool/controller.go: Build (buildCNSet), Legacy (syncLegacySet and direct
--              pods), Order (deletionOrder), Scale (the scaling of the current set), Sync (Sync, Finalize)
--   Bucket     the life of an object storage bucket: api/core/v1alpha1/bucketclaim_helpers.go (Holders),
--              pkg/controllers/logset/bucketclaim.go (Claim), pkg/controllers/bucketclaim/controller.go
--              (Finalize), and all their runs in any order (Life)
--   LogSet     pkg/controllers/logset: bootstrap.go, the first replicas of a log service (Bootstrap);
--              controller.go (State, Observe, Failover for Scale, Repair and Update, Finalize);
--              configmap.go, the addresses of the pods (Ordinals)
--   Backup     pkg/controllers/br: command.go (Command), backup_controller.go (Text, Job),
--              restore_controller.go (Restore), gc_controller.go (Backup.gc); the status of a job over
--              its reconciliations (Life)
--   Cluster    pkg/controllers/mocluster/controller.go: credentials (Metric), Observe, Up and the conditions
--              (Up), Finalize
--   Toml       api/core/v1alpha1/toml_config.go: the configuration tree, its paths and deep merge
--
-- State. A reconciler's step is a function from a state to a run, which ends in a value or an error
-- and in the state that it leaves. The state is the object in memory and the record of calls, latest
-- first (SetState, ClaimState, StoreState, LogState, PoolState, LogSetState, BrState, MoState). The
-- server (Server, StoreServer, PoolServer, LogServer, LogSetServer, BrServer, MoServer,
-- BucketServer) answers a call from the record of all calls before it, so it may change its mind
-- between two calls: each theorem holds for every such server unless its hypotheses fix an answer. A
-- patch changes the object in memory before it is sent, as the reconciler library does, and a good
-- answer replaces it. What the code only logs is left out.
--
-- Parameters. Behind the server stand code and services outside the repository: the API server,
-- HAKeeper, the lock service, the query service, JSON, the clock with its RFC 3339 texts, the digest
-- GetCNPodUUID, the revision hash, the parsers of versions and label selectors, the deep equality of
-- objects, the random source of the id generator, and whether the client decodes the answer to a
-- creation into the label map of the object sent. Four theorems ask something of them: the
-- termination of scaleOut, that among some number of random texts in a row one is unused; the
-- repeated bootstrap, that the server keeps an annotation and JSON reads back its text; the bound on
-- failovers, that the utility Upsert lengthens a list by at most one; and the deletion of drained
-- sets of a pool, that every call succeeds and lists are answered alike.
--
-- Numbers. Replicas and counts of objects are natural numbers, as the API demands; int values that
-- may be negative (costs, comparisons, session counts) are the integers of Base.Int; times and
-- durations are seconds. The code has no arithmetic that could come near the bounds of its integer
-- types.
--
-- Fuel. The loop of genAvailableID draws until it finds an unused text: it takes fuel, with a
-- theorem that enough is given. The loops that list pod addresses take one round for each replica
-- and each reserved ordinal, and one more, with a theorem that this is enough. The decimal texts of
-- strconv.Itoa take as many steps as the number, which is at least its digits. All other loops are
-- over lists or a number of rounds.
--
-- Simplified. recon.CreateOwnedOrUpdate is, for a pool, the function of that name in pkg/utils, and
-- else a single call; slices.SortFunc is an insertion sort, whose result is one that its contract
-- allows; label selectors are the tests that they stand for; nil and empty maps are one, but nil
-- store labels, and nil labels of a claim set's template, into which a write panics, are kept apart
-- from empty ones; an error is a kind, with its text only where the code
-- reads it ("does not exist"); a LogSet stands for the HAKeeper client that its name selects; where
-- the code would panic (a nil pointer, a slice out of range), the run ends in an error.
--
-- Not modelled: the controllers of CNSets, transaction services and proxies; the webhooks; the
-- specifications that a cluster copies to its sets; and the builders of pod templates, services and
-- configuration text. Of the log service, Create is left out, which makes objects from such
-- templates.
pub mod Api
pub mod Backup
pub mod Base
pub mod Bucket
pub mod Claim
pub mod ClaimSet
pub mod Cluster
pub mod Common
pub mod LogSet
pub mod Pool
pub mod Store
pub mod Toml
