-- ===== src/World.antt =====
-- The world that a controller changes: the API server's state, and the trace of the events that it
-- records, of the writes that it sends and of its calls on the metrics (internal/metrics/metrics.go).
pub mod Trace
use kopia_operator.Prelude.{ℕ, String, List, [], ◌∷◌, ◌++◌}
use kopia_operator.Exec.{ok, Exec}
use kopia_operator.Kube.Meta.{ObjectMeta}

pub data EventType : Type 0 where
  normal warning : EventType

pub data Verb : Type 0 where
  create update update_status patch delete : Verb

pub data Kind : Type 0 where
  kopia_backup kopia_repository cron_job config_map core_secret core_service apps_deployment : Kind

pub data Effect : Type 0 where
  -- a write that was sent to the API server: the object's name and namespace
  api_write : Verb → Kind → String → String → Effect
  -- Recorder.Event: the object's name and namespace, the type, the reason and the message
  event : String → String → EventType → String → String → Effect
  -- ReconcileErrors.WithLabelValues(controller).Inc()
  reconcile_error : String → Effect
  -- ServerReady.WithLabelValues(repository, namespace).Set(value)
  server_ready : String → String → ℕ → Effect
  -- LastSuccessfulBackup.DeleteLabelValues(backup, namespace, pvc)
  delete_last_successful_backup : String → String → String → Effect
  -- BackupsPerRepository.DeleteLabelValues(repository, namespace)
  delete_backups_per_repository : String → String → Effect
  -- ServerReady.DeleteLabelValues(repository, namespace)
  delete_server_ready : String → String → Effect

pub record World (S : Type 0) : Type 0 where
  pub api : S
  pub trace : List Effect

module _ {S : Type 0} where
  abbrev pub emit : Effect → World S → World S
  emit e w = record w { trace = w.trace ++ (e ∷ []) }

  -- A call on the API server.
  abbrev pub call : {A : Type 0} → Exec S A → Exec (World S) A
  call x w = let (r, s) = x w.api in (r, record w { api = s })

  -- A write, which the trace shows whether it succeeds or not.
  abbrev pub write : {A : Type 0} → Verb → Kind → ObjectMeta → Exec S A → Exec (World S) A
  write verb kind object x w = call x (emit (api_write verb kind object.name object.namespace) w)

  -- Recorder.Event
  abbrev pub record_event : ObjectMeta → EventType → String → String → Exec (World S) (Unit {0})
  record_event object type reason message w =
      (ok tt, emit (event object.name object.namespace type reason message) w)

  -- CleanupBackupMetrics
  unfoldable pub cleanup_backup_metrics : String → String → String → World S → World S
  cleanup_backup_metrics backup namespace pvc =
      emit (delete_last_successful_backup backup namespace pvc)

  -- CleanupRepositoryMetrics
  unfoldable pub cleanup_repository_metrics : String → String → World S → World S
  cleanup_repository_metrics repository namespace w =
      emit (delete_server_ready repository namespace)
        (emit (delete_backups_per_repository repository namespace) w)
