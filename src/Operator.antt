-- ===== src/Operator.antt =====
-- cmd/main.go: the flags, the wiring of the controllers, and the order in which main sets them up.

pub mod Start
pub mod Registration
pub mod Steps
pub mod Sends
pub mod Statuses
use kopia_operator.Prelude.{
  String, ◌<>◌, Bool, true, false, some, Option, List, [], ◌∷◌, ◌==◌, if◌then◌else◌, ℕ,
}
use kopia_operator.Prelude.Quote.{quote}
use kopia_operator.Exec.{Result, ok, err, Exec, ◌>>=◌, ◌>>◌, pure, wrapping}
use kopia_operator.Platform.{Platform}
use kopia_operator.World.{World}
use kopia_operator.Interfaces.{ServerManager, UserManager}
use kopia_operator.Builder.Config.{KopiaConfigData}
use kopia_operator.BackupController.Setup.{Reconciler}
use kopia_operator.Server.Tls.{Crypto}
use kopia_operator.Server.Manager.{server_manager}
use kopia_operator.Users.Server.{Host}
use kopia_operator.Users.Manager.{user_manager}

-- The flags of main, as flag.Parse leaves them.
pub record Flags : Type 0 where
  pub metrics_bind_address : String
  pub health_probe_bind_address : String
  pub leader_elect : Bool
  pub metrics_secure : Bool
  pub enable_http2 : Bool
  pub kopia_image : String

-- The flags that are not on the command line.
abbrev pub default_flags : Flags
default_flags = record {
  metrics_bind_address = ":8080";
  health_probe_bind_address = ":8081";
  leader_elect = true;
  metrics_secure = false;
  enable_http2 = false;
  kopia_image = "";
}

-- The field of tls.Config that main sets.
pub record TlsConfig : Type 0 where
  pub next_protos : List String

-- disableHTTP2
unfoldable pub disable_http2 : TlsConfig → TlsConfig
disable_http2 c = record { next_protos = "http/1.1" ∷ [] }

unfoldable pub tls_options : Flags → List (TlsConfig → TlsConfig)
unfolding disable_http2
tls_options flags = if flags.enable_http2 then [] else disable_http2 ∷ []

-- The fields of ctrl.Options that main sets, those of the metrics server and the webhook server
-- included.
pub record ManagerOptions : Type 0 where
  pub metrics_bind_address : String
  pub metrics_secure_serving : Bool
  pub metrics_tls_options : List (TlsConfig → TlsConfig)
  pub webhook_port : ℕ
  pub webhook_tls_options : List (TlsConfig → TlsConfig)
  pub health_probe_bind_address : String
  pub leader_election : Bool
  pub leader_election_id : String
  pub leader_election_release_on_cancel : Bool

unfoldable pub manager_options : Flags → ManagerOptions
unfolding tls_options
manager_options flags = record {
  metrics_bind_address = flags.metrics_bind_address;
  metrics_secure_serving = flags.metrics_secure;
  metrics_tls_options = tls_options flags;
  webhook_port = 9443;
  webhook_tls_options = tls_options flags;
  health_probe_bind_address = flags.health_probe_bind_address;
  leader_election = flags.leader_elect;
  leader_election_id = "71b0af1d.cloudinfra.be";
  leader_election_release_on_cancel = true;
}

-- What main asks of controller-runtime and of the managers, each of which may fail.
pub data Setup (P : Platform) : Type 0 where
  new_manager : ManagerOptions → Setup P
  new_user_manager : Setup P
  backup_controller : Reconciler P → Setup P
  repository_controller : Option (ServerManager (World P.State)) → Setup P
  pvc_watcher : Setup P
  backup_webhook repository_webhook : Setup P
  healthz readyz : Setup P
  start : Setup P

module _ (P : Platform) (C : Crypto P) (H : Host P)
    (marshal : KopiaConfigData → Result String) where
  open P use {State}

  -- The reconciler of the backups, with the managers that main creates.
  unfoldable pub backup_reconciler : Flags → Reconciler P
  backup_reconciler flags = record {
    image = flags.kopia_image;
    server_manager = server_manager P C;
    user_manager = some (user_manager P H);
    marshal = marshal;
  }

  module _ {S : Type 0} (run : Setup P → Exec S (Unit {0})) where
    unfoldable pub set_up_webhooks : String → Exec S (Unit {0})
    set_up_webhooks enable_webhooks = if enable_webhooks == "false" then pure tt else do
      wrapping "unable to create webhook KopiaBackup" (run backup_webhook)
      wrapping "unable to create webhook KopiaRepository" (run repository_webhook)

    -- main, from the parsed flags and the value of ENABLE_WEBHOOKS, which is empty if it is not set.
    -- An error is logged and ends the process with the exit code 1.
    unfoldable pub main : Flags → String → Exec S (Unit {0})
    unfolding manager_options backup_reconciler set_up_webhooks
    main flags enable_webhooks = do
      wrapping "unable to start manager" (run (new_manager (manager_options flags)))
      wrapping "unable to create KopiaUserManager" (run new_user_manager)
      wrapping "unable to create controller KopiaBackup"
          (run (backup_controller (backup_reconciler flags)))
      wrapping "unable to create controller KopiaRepository"
          (run (repository_controller (some (server_manager P C))))
      wrapping "unable to create controller PVCWatcher" (run pvc_watcher)
      set_up_webhooks enable_webhooks
      wrapping "unable to set up health check" (run healthz)
      wrapping "unable to set up ready check" (run readyz)
      wrapping "problem running manager" (run start)
