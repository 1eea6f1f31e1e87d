-- ===== src/Sends/Backup.antt =====
-- What the backup controller sends, from its phases in their order.
use kopia_operator.Prelude.{ℕ, ◌+◌, Bool, String, ◌≡◌, refl, arith, Option, none, some}
use kopia_operator.Error.{Error}
use kopia_operator.Exec.{Result, ok, err}
use kopia_operator.Kube.Meta.{Key}
use kopia_operator.Kube.Objects.{Pvc}
use kopia_operator.Api.Backup.{Backup}
use kopia_operator.Api.Repository.{Repository}
use kopia_operator.Platform.{Platform}
use kopia_operator.World.{call, World}
use kopia_operator.World.Trace.{count-append_one}
use kopia_operator.Interfaces.{ServerManager, UserManager}
use kopia_operator.Lookup.Reads.{trace-get_kopia_repository}
use kopia_operator.BackupController.Setup.{Reconciler}
use kopia_operator.BackupController.Finalizer.{handle_finalizer}
use kopia_operator.BackupController.Dependencies.{
  get_related_pvc, with_repository, with_pvc, validate_dependencies,
}
use kopia_operator.BackupController.Credentials.{
  Phase, go_on, stop, after_persist, after_ensure_user, server_credentials,
  reconcile_server_credentials,
}
use kopia_operator.BackupController.Reconcile.{
  after_config_map, phase_4, after_credentials, phase_3, after_validation, body, after_finalizer,
  after_get, reconcile_backup, count_error, reconcile,
}
use kopia_operator.Sends.{tally, one_status}
use kopia_operator.Sends.Finalizer.{IsQuietIfThere, tally-handle_finalizer}
use kopia_operator.Sends.Resources.{tally-reconcile_config_map, tally-reconcile_backup_resources}

module _ (k : Bool) (P : Platform) where
  open P use {State, backups}

  -- The dependencies.
  tally-with_repository :
      (b : Backup) (found : Result Repository) (w : World State)
      → tally k (with_repository P b found w).1.trace ≡ tally k w.trace
  unfolding with_repository
  tally-with_repository b (ok repo) w = refl
  tally-with_repository b (err e) w = grind (arith, count-append_one)

  tally-with_pvc :
      (b : Backup) (found : Result Pvc) (w : World State)
      → tally k (with_pvc P b found w).1.trace ≡ tally k w.trace
  unfolding with_pvc
  tally-with_pvc b (ok pvc) w = grind (arith, tally-with_repository, trace-get_kopia_repository)
  tally-with_pvc b (err e) w = grind (arith, count-append_one)

  tally-validate_dependencies :
      (b : Backup) (w : World State)
      → tally k (validate_dependencies P b w).1.trace ≡ tally k w.trace
  unfolding validate_dependencies get_related_pvc
  tally-validate_dependencies b w = grind (arith, tally-with_pvc)

  -- The credentials.
  tally-after_persist :
      (servers : ServerManager (World State)) (b : Backup) (repo : Repository)
      (answer : Result Backup) (w : World State)
      → tally k (after_persist P servers b repo answer w).1.trace ≡ tally k w.trace
  unfolding after_persist
  tally-after_persist servers b repo (ok stored) w = refl
  tally-after_persist servers b repo (err e) w = refl

  tally-after_ensure_user :
      (servers : ServerManager (World State)) (b : Backup) (repo : Repository)
      (answer : Result String) (w : World State)
      → tally k (after_ensure_user P servers b repo answer w).1.trace ≡ tally k w.trace
  unfolding after_ensure_user
  tally-after_ensure_user servers b repo (err e) w = ground arith
  tally-after_ensure_user servers b repo (ok name) w =
      grind (arith, count-append_one, tally-after_persist)

  tally-server_credentials :
      (servers : ServerManager (World State)) (users : Option (UserManager (World State)))
      (b : Backup) (repo : Repository) (w : World State)
      → IsQuietIfThere k users
      → tally k (server_credentials P servers users b repo w).1.trace ≡ tally k w.trace
  unfolding server_credentials
  tally-server_credentials servers none b repo w quiet = refl
  tally-server_credentials servers (some users) b repo w quiet =
      grind (arith, tally-after_ensure_user, quiet.ensure_user)

  -- The phases in their order.
  module _ (r : Reconciler P) (quiet : IsQuietIfThere k r.user_manager) where
    tally-after_config_map :
        (b : Backup) (repo : Repository) (answer : Result (Unit {0})) (w : World State)
        → tally k (after_config_map P r b repo answer w).1.trace ≡ tally k w.trace
    unfolding after_config_map
    tally-after_config_map b repo (err e) w = refl
    tally-after_config_map b repo (ok _) w = tally-reconcile_backup_resources k P r b repo w

    tally-phase_4 :
        (b : Backup) (repo : Repository) (w : World State)
        → tally k (phase_4 P r b repo w).1.trace ≡ tally k w.trace
    unfolding phase_4
    tally-phase_4 b repo w = grind (
      arith, tally-after_config_map, tally-reconcile_config_map, tally-reconcile_backup_resources,
    )

    tally-after_credentials :
        (repo : Repository) (phase : Phase) (w : World State)
        → tally k (after_credentials P r repo phase w).1.trace ≡ tally k w.trace
    unfolding after_credentials
    tally-after_credentials repo (go_on b) w = tally-phase_4 b repo w
    tally-after_credentials repo (stop o) w = refl

    tally-phase_3 :
        (b : Backup) (repo : Repository) (w : World State)
        → tally k (phase_3 P r b repo w).1.trace ≡ tally k w.trace
    unfolding phase_3 reconcile_server_credentials
    tally-phase_3 b repo w = grind (
      arith,
      tally-after_credentials,
      tally-phase_4,
      tally-server_credentials r.server_manager r.user_manager b repo w quiet,
    )

    tally-after_validation :
        (b : Backup) (found : Option Repository) (w : World State)
        → tally k (after_validation P r b found w).1.trace ≡ tally k w.trace
    unfolding after_validation
    tally-after_validation b none w = refl
    tally-after_validation b (some repo) w = tally-phase_3 b repo w

    tally-body : (b : Backup) (w : World State) → tally k (body P r b w).1.trace ≡ tally k w.trace
    unfolding body
    tally-body b w = grind (arith, tally-after_validation, tally-validate_dependencies)

    -- The status of a backup that goes on after its finalizer is updated.
    abbrev pub sent_after : Result (Option Backup) → ℕ
    sent_after (err e) = 0
    sent_after (ok none) = 0
    sent_after (ok (some b)) = one_status k

    tally-after_finalizer :
        (answer : Result (Option Backup)) (w : World State)
        → tally k (after_finalizer P r answer w).1.trace ≡ tally k w.trace + sent_after answer
    unfolding after_finalizer
    tally-after_finalizer (err e) w = omega arith
    tally-after_finalizer (ok none) w = omega arith
    tally-after_finalizer (ok (some b)) w = grind (arith, count-append_one, tally-body)

    abbrev pub sent_for : Result Backup → World State → ℕ
    sent_for (err e) w = 0
    sent_for (ok b) w = sent_after (handle_finalizer P r b w).0

    tally-after_get :
        (found : Result Backup) (w : World State)
        → tally k (after_get P r found w).1.trace ≡ tally k w.trace + sent_for found w
    unfolding after_get
    tally-after_get (err e) w = omega arith
    tally-after_get (ok b) w =
        grind (arith, tally-after_finalizer, tally-handle_finalizer k P r b w quiet)

    -- What a reconcile adds.
    abbrev pub sent : Key → World State → ℕ
    sent request w = let (b, w') = call (backups.get request) w in sent_for b w'

    tally-reconcile_backup :
        (request : Key) (w : World State)
        → tally k (reconcile_backup P r request w).1.trace ≡ tally k w.trace + sent request w
    unfolding reconcile_backup
    tally-reconcile_backup request w = grind (arith, tally-after_get)

    tally-count_error :
        (e : Option Error) (w : World State) → tally k (count_error P e w).trace ≡ tally k w.trace
    tally-count_error none w = refl
    tally-count_error (some e) w = grind (arith, count-append_one)

    pub tally-reconcile :
        (request : Key) (w : World State)
        → tally k (reconcile P r request w).1.trace ≡ tally k w.trace + sent request w
    unfolding reconcile
    tally-reconcile request w = grind (arith, tally-count_error, tally-reconcile_backup)
