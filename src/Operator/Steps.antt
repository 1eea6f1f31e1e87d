-- ===== src/Operator/Steps.antt =====
-- The operator at work: reconciles of its three controllers, in any order, between which other clients
-- change the cluster.
use kopia_operator.Prelude.{some}
use kopia_operator.Exec.{Result}
use kopia_operator.Prelude.{String}
use kopia_operator.Kube.Meta.{Key}
use kopia_operator.Platform.{Platform}
use kopia_operator.World.{World}
use kopia_operator.Builder.Config.{KopiaConfigData}
use kopia_operator.Server.Tls.{Crypto}
use kopia_operator.Server.Manager.{server_manager}
use kopia_operator.Users.Server.{Host}
use kopia_operator.PvcWatcher
use kopia_operator.RepositoryController
use kopia_operator.BackupController.Reconcile
use kopia_operator.Operator.{Flags, backup_reconciler}

module _ (P : Platform) (C : Crypto P) (H : Host P)
    (marshal : KopiaConfigData → Result String) where
  open P use {State}

  -- The controllers run with what main gives them. Others change the cluster, not the trace.
  pub data Step (flags : Flags) (w : World State) : World State → Type 0 where
    pvc : (request : Key) → Step flags w (PvcWatcher.reconcile P request w).1
    repository :
        (request : Key)
        → Step flags w (RepositoryController.reconcile P (some (server_manager P C)) request w).1
    backup :
        (request : Key)
        → Step flags w (Reconcile.reconcile P (backup_reconciler P C H marshal flags) request w).1
    others : (s : State) → Step flags w (record w { api = s })

  pub data Reach (flags : Flags) (w : World State) : World State → Type 0 where
    here : Reach flags w w
    next : {u v : World State} → Reach flags w u → Step flags u v → Reach flags w v
