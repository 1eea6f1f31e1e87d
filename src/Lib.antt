-- ===== src/Lib.antt =====
-- A verification of the kopia-operator, a Kubernetes operator that backs volumes up with Kopia.
--
-- The program. A KopiaRepository says where snapshots are stored, a KopiaBackup says which volume (PVC)
-- is backed up to which repository and when. Three controllers reconcile them against the API server:
-- the PVC watcher creates and deletes backups by a label on the PVC; the repository controller deploys a
-- Kopia server for a repository in server mode; the backup controller keeps a CronJob for each backup,
-- which runs on the node of the pod that uses the volume, and in server mode a user on the server. Two
-- managers do the work on the server: one for its Deployment, Service and certificate, one for its users.
--
-- The files, and the code that each models:
--   Naming            internal/naming/names.go
--   Error, Interfaces internal/kopia/errors.go and interfaces.go: errors with errors.As and Unwrap, and
--                     the two managers as records of operations, which the controllers take as arguments
--                     and Server/Manager and Users/Manager fill
--   Api               api/backup/v1alpha1/kopiabackup_types.go and kopiarepository_types.go
--   Webhook           kopiabackup_webhook.go and kopiarepository_webhook.go: the validations, and the
--                     validators around them (Admission)
--   Lookup            getKopiaRepository of the backup controller and of the PVC watcher
--   PvcWatcher        internal/controller/pvcwatcher/reconciler.go
--   RepositoryController  internal/controller/kopiarepository/reconciler.go
--   BackupController  internal/controller/kopiabackup/reconciler.go, one file for each phase
--   Builder           internal/controller/kopiabackup/builder.go
--   Server            internal/kopia/server/manager.go; its scripts are texts, and Server/Reader says how a
--                     POSIX shell reads a command and a text in double quotes
--   Users             internal/kopia/user/manager.go; Users/Server takes the pod executor as a parameter,
--                     which NewKopiaUserManager sets to execInPod (Users/ExecInPod)
--   Operator          cmd/main.go: the flags, the wiring and the set-up; Registration, what wakes each
--                     controller; Steps, the reconciles of the wired controllers in any order
--   Sends             what each part sends, and the RBAC markers of the three reconcilers
--   Metrics           internal/metrics/metrics.go
--   Kube, Platform    the Kubernetes types in use, and what the operator calls of the Kubernetes
--                     libraries, as a parameter: the API server as one client for each kind over a state
--                     that the parameter chooses, with every request able to fail; the documented
--                     behaviour that a theorem needs is a hypothesis of Platform/Laws
--   World, Exec       the state of a reconcile: the API server's state and a trace of the writes, events
--                     and metrics in their order; Go's (value, error) as Result, whose world stays
--                     changed after an error
--   Controller        ctrl.Result, and the deferred status update of a reconcile
--   Prelude           lists, maps, texts, integers, and the library names that the other files share
--   Platform/Memory, Examples   a cluster in memory, at which the theorems are applied
-- A controller's function is one definition; the code after a call whose answer is examined is a
-- definition of its own (after_get, with_secret), by clauses on the answer.
--
-- Bounds. Every function is structural, so none has fuel but fmt's %d (Prelude/Decimal), which is given
-- one more step than the number; any number of steps above the number gives the same digits. int64
-- products wrap around as in Go. Texts are measured and cut by characters; the names of Kubernetes
-- objects are ASCII, where a character is a byte. A map of Go is an association list, of which the
-- first entry for a key counts.
--
-- Not modelled: the parsing of the flags, the scheme and the logger of cmd/main.go, generated code, log
-- lines (but for the redaction of secrets in them), the stream into a pod (a parameter of Users/ExecInPod), Go's crypto packages and the clock
-- (parameters of Server/Tls), and the concurrency of reconciles: a reconcile is one sequence of requests,
-- and what other clients do between its requests is the API server's state. Between whole reconciles
-- other clients act in the steps of Operator/Steps.
pub mod Prelude
pub mod Error
pub mod Exec
pub mod Kube
pub mod Api
pub mod Platform
pub mod World
pub mod Lookup
pub mod Controller
pub mod PvcWatcher
pub mod Interfaces
pub mod RepositoryController
pub mod Server
pub mod Sends
pub mod Operator
pub mod Metrics
pub mod Users
pub mod Webhook
pub mod Builder
pub mod BackupController
pub mod Naming
mod Examples
