-- ===== src/Operator/Statuses.antt =====
-- The deferred status updates of the wired controllers, counted in their traces.
use kopia_operator.Prelude.{ℕ, ◌+◌, String, ◌≡◌, true, Option, none, some, arith}
use kopia_operator.Exec.{Result, ok, err}
use kopia_operator.Kube.Meta.{Key}
use kopia_operator.Api.Backup.{Backup}
use kopia_operator.Api.Repository.{Repository}
use kopia_operator.Platform.{Platform}
use kopia_operator.World.{World, call}
use kopia_operator.World.Trace.{status_updates}
use kopia_operator.Builder.Config.{KopiaConfigData}
use kopia_operator.Server.Tls.{Crypto}
use kopia_operator.Server.Manager.{server_manager}
use kopia_operator.Users.Server.{Host}
use kopia_operator.RepositoryController
use kopia_operator.BackupController.Finalizer.{handle_finalizer}
use kopia_operator.BackupController.Reconcile
use kopia_operator.Sends.Servers.{IsQuietCrypto, server_manager-IsQuietServers}
use kopia_operator.Sends.Users.{IsQuietHost, user_manager-IsQuietUsers}
use kopia_operator.Sends.Repository
use kopia_operator.Sends.Backup
use kopia_operator.Operator.{Flags, backup_reconciler}

-- One if the repository is read.
abbrev pub if_read : Result Repository → ℕ
if_read (ok repo) = 1
if_read (err e) = 0

-- One if the backup goes on: it is not being deleted, and its finalizer is there or was stored.
abbrev pub if_live : Result (Option Backup) → ℕ
if_live (ok (some b)) = 1
if_live (ok none) = 0
if_live (err e) = 0

module _ (P : Platform) (C : Crypto P) (H : Host P) (marshal : KopiaConfigData → Result String)
    (crypto : IsQuietCrypto P C) (host : IsQuietHost P H) where
  open P use {State, backups, repositories}

  abbrev pub if_found : Flags → Result Backup → World State → ℕ
  unfolding backup_reconciler
  if_found flags (ok b) w =
      if_live (handle_finalizer P (backup_reconciler P C H marshal flags) b w).0
  if_found flags (err e) w = 0

  repository-one_status :
      (request : Key) (w : World State)
      → status_updates
          (RepositoryController.reconcile P (some (server_manager P C)) request w).1.trace
        ≡ status_updates w.trace + if_read (repositories.get request w.api).0
  repository-one_status request w = ground (
    arith,
    Repository.tally-reconcile true P (server_manager P C)
        (server_manager-IsQuietServers true P C crypto) request w,
  )

  backup-one_status :
      (flags : Flags) (request : Key) (w : World State)
      → status_updates
          (Reconcile.reconcile P (backup_reconciler P C H marshal flags) request w).1.trace
        ≡ status_updates w.trace
          + (let (found, w') = call (backups.get request) w in if_found flags found w')
  unfolding backup_reconciler
  backup-one_status flags request w = ground (
    arith,
    Backup.tally-reconcile true P (backup_reconciler P C H marshal flags)
        (user_manager-IsQuietUsers true P H host) request w,
  )

  -- A reconcile of a repository sends one update of a status if the repository is read, and none
  -- otherwise; one of a backup sends one if the backup is read and goes on after its finalizer, and
  -- none otherwise: whatever the phases find, whatever they send and however the API server answers.
  pub reconcile-one_status :
      (flags : Flags) (request : Key) (w : World State)
      → (status_updates
            (RepositoryController.reconcile P (some (server_manager P C)) request w).1.trace
          ≡ status_updates w.trace + if_read (repositories.get request w.api).0)
        × (status_updates
              (Reconcile.reconcile P (backup_reconciler P C H marshal flags) request w).1.trace
            ≡ status_updates w.trace
              + (let (found, w') = call (backups.get request) w in if_found flags found w'))
  reconcile-one_status flags request w =
      (repository-one_status request w, backup-one_status flags request w)
