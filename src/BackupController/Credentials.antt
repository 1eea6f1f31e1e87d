-- ===== src/BackupController/Credentials.antt =====
-- reconcileServerCredentials: the phase of the server mode.
use kopia_operator.Prelude.{String, ◌<>◌, true, Option, none, some, ◌==◌, if◌then◌else◌}
use kopia_operator.Error.{plain, wrap, is_server_not_ready}
use kopia_operator.Exec.{Result, ok, err}
use kopia_operator.Kube.Meta.{condition_false}
use kopia_operator.Api.Backup.{Backup, condition_type_ready, reason_cron_job_failed}
use kopia_operator.Api.Repository.{Repository}
use kopia_operator.Platform.{Platform}
use kopia_operator.World.{World, update, kopia_backup, write}
use kopia_operator.Controller.{CtrlResult, Outcome, finish, fail}
use kopia_operator.Interfaces.{ServerManager, UserManager}
use kopia_operator.BackupController.Setup.{Reconciler, set_condition}

-- A phase goes on with the backup, or stops the reconcile.
pub data Phase : Type 0 where
  go_on : Backup → Phase
  stop : Outcome Backup → Phase

abbrev pub stopped {ℓ} : {W : Type ℓ} → Outcome Backup × W → Phase × W
stopped (o, w) = (stop o, w)

-- requeueDelay, in seconds
abbrev pub requeue_delay : CtrlResult
requeue_delay = record { requeue_after = 30 }

module _ (P : Platform) where
  open P use {State, backups}

  -- The status fields of a connected backup.
  unfoldable pub connected : ServerManager (World State) → Backup → Repository → Backup
  connected servers b repo = record b {
    status = record b.status {
      server_url = servers.get_server_url repo;
      username = b.metadata.namespace <> ("-" <> (b.spec.pvc_name <> ("@" <> repo.spec.hostname)));
      connected = true;
    };
  }

  unfoldable pub after_persist :
      ServerManager (World State)
      → Backup
      → Repository
      → Result Backup
      → World State
      → Phase × World State
  unfolding connected
  after_persist servers b repo (ok stored) w = (go_on (connected servers stored repo), w)
  after_persist servers b repo (err e) w =
      stopped (fail b (wrap "failed to persist UserCredentialsSecret" e) w)

  unfoldable pub after_ensure_user :
      ServerManager (World State)
      → Backup
      → Repository
      → Result String
      → World State
      → Phase × World State
  unfolding after_persist
  after_ensure_user servers b repo (err e) w =
      if is_server_not_ready e
      then stopped (finish b requeue_delay w)
      else stopped (fail b (wrap "failed to ensure user" e) w)
  after_ensure_user servers b repo (ok secret_name) w =
      let b' : Backup = record b {
        spec = record b.spec { user_credentials_secret = secret_name };
      } in
      let (answer, w') = write update kopia_backup b'.metadata (backups.update b') w in
      if b.spec.user_credentials_secret == secret_name
      then (go_on (connected servers b repo), w)
      else after_persist servers b' repo answer w'

  unfoldable pub server_credentials :
      ServerManager (World State)
      → Option (UserManager (World State))
      → Backup
      → Repository
      → World State
      → Phase × World State
  unfolding after_ensure_user
  server_credentials servers none b repo w = stopped (
      fail
        (set_condition P b condition_type_ready condition_false reason_cron_job_failed
          "Server mode requires UserManager to be configured")
        (plain "user manager not configured for server mode") w)
  server_credentials servers (some users) b repo w =
      let (secret_name, w') = users.ensure_user b repo w in
      after_ensure_user servers b repo secret_name w'

  unfoldable pub reconcile_server_credentials :
      Reconciler P → Backup → Repository → World State → Phase × World State
  unfolding server_credentials
  reconcile_server_credentials r = server_credentials r.server_manager r.user_manager
