-- ===== src/BackupController/Setup.antt =====
-- The reconciler's fields, and the helpers that its phases share.
use kopia_operator.Prelude.{String, Option, ◌==◌, if◌then◌else◌}
use kopia_operator.Exec.{Result}
use kopia_operator.Kube.Meta.{ConditionStatus}
use kopia_operator.Api.Backup.{Backup}
use kopia_operator.Platform.{Platform}
use kopia_operator.World.{World, warning, event, emit}
use kopia_operator.Interfaces.{ServerManager, UserManager}
use kopia_operator.Builder.Config.{KopiaConfigData}

-- KopiaBackupReconciler. The server manager is always there, as in cmd/main.go; `marshal` is
-- json.MarshalIndent.
pub record Reconciler (P : Platform) : Type 0 where
  pub image : String
  pub server_manager : ServerManager (World P.State)
  pub user_manager : Option (UserManager (World P.State))
  pub marshal : KopiaConfigData → Result String

abbrev pub finalizer_name : String
finalizer_name = "backup.cloudinfra.be/finalizer"

abbrev pub default_kopia_image : String
default_kopia_image =
    "ghcr.io/fastlorenzo/kopia:0.20.1@sha256:4a2660db62960eb0b4ba98982c4566bcc9dd2ee3b15b31af9626146aa4e5d8e3"

module _ (P : Platform) where
  unfoldable pub kopia_image : Reconciler P → String
  kopia_image r = if r.image == "" then default_kopia_image else r.image

  -- setCondition
  abbrev pub set_condition : Backup → String → ConditionStatus → String → String → Backup
  set_condition b type status reason message = record b {
    status = record b.status {
      conditions = P.set_status_condition b.status.conditions (record {
        type = type;
        status = status;
        reason = reason;
        message = message;
        observed_generation = b.metadata.generation;
      });
    };
  }

  -- Recorder.Event of a warning
  abbrev pub warn : Backup → String → String → World P.State → World P.State
  warn b reason message = emit (event b.metadata.name b.metadata.namespace warning reason message)
