-- ===== src/RepositoryController.antt =====
-- internal/controller/kopiarepository/reconciler.go
pub mod Ready
use kopia_operator.Prelude.{
  ℕ, String, ◌<>◌, Bool, true, false, Option, none, some, ◌==◌, if◌then◌else◌,
}
use kopia_operator.Error.{Error, plain, wrap, error_text}
use kopia_operator.Exec.{Result, ok, err, Exec}
use kopia_operator.Kube.Meta.{Key, Condition, ConditionStatus, condition_true, condition_false}
use kopia_operator.Api.Repository.{
  Repository, condition_type_repository_ready, condition_type_server_ready, reason_config_valid,
  reason_missing_password, reason_server_deployed, reason_server_failed,
}
use kopia_operator.Platform.{Platform}
use kopia_operator.World.{
  World, normal, warning, update_status, kopia_repository, event, reconcile_error, server_ready,
  call, write, emit,
}
use kopia_operator.Controller.{
  CtrlResult, done, Reconciled, Outcome, finish, fail, ignore_not_found, first_error,
}
use kopia_operator.Interfaces.{ServerManager}
use kopia_operator.Naming.{server_deployment_name, server_service_name}

-- repo.Status.TLSCertFingerprint = fingerprint
abbrev pub fingerprinted : Repository → String → Repository
fingerprinted repo fingerprint = record repo {
  status = record repo.status { tls_cert_fingerprint = fingerprint };
}

abbrev pub or_false : Result Bool → Bool
or_false (ok b) = b
or_false (err _) = false

module _ (P : Platform) where
  open P use {State, repositories, set_status_condition}

  -- meta.SetStatusCondition on the repository in memory
  abbrev pub set_condition : Repository → String → ConditionStatus → String → String → Repository
  set_condition repo type status reason message = record repo {
    status = record repo.status {
      conditions = set_status_condition repo.status.conditions (record {
        type = type;
        status = status;
        reason = reason;
        message = message;
        observed_generation = repo.metadata.generation;
      });
    };
  }

  abbrev pub server_failed : Repository → String → Repository
  server_failed repo message =
      set_condition repo condition_type_server_ready condition_false reason_server_failed message

  abbrev pub warn : Repository → String → Error → World State → World State
  warn repo reason e =
      emit (event repo.metadata.name repo.metadata.namespace warning reason (error_text e))

  -- "All checks passed"
  unfoldable pub all_checks_passed : Repository → World State → Outcome Repository × World State
  all_checks_passed repo =
      finish
        (set_condition repo condition_type_repository_ready condition_true reason_config_valid
          "Repository configuration is valid")
        done

  -- The tail of the server mode, from the answer of IsServerReady; an error of it counts as not ready.
  unfoldable pub after_readiness :
      ServerManager (World State)
      → Repository
      → Bool
      → World State
      → Outcome Repository × World State
  unfolding all_checks_passed server_deployment_name server_service_name
  after_readiness m repo ready w =
      let deployed : Repository = record repo {
        status = record repo.status {
          server_ready = ready;
          server_url = m.get_server_url repo;
          server_deployment = server_deployment_name repo.metadata.name;
          server_service = server_service_name repo.metadata.name;
        };
      } in
      let w' =
        emit (server_ready repo.metadata.name repo.metadata.namespace (if ready then 1 else 0)) w in
      if ready
      then all_checks_passed
          (set_condition deployed condition_type_server_ready condition_true reason_server_deployed
            "Kopia Server is deployed and ready")
          (emit
            (event repo.metadata.name repo.metadata.namespace normal "ServerReady"
              "Kopia Server is deployed and ready")
            w')
      else finish
          (set_condition (server_failed deployed "Kopia Server deployment is not ready yet")
            condition_type_repository_ready condition_false reason_server_failed
            "Waiting for Kopia Server to be ready")
          (record { requeue_after = 15 }) w'

  unfoldable pub after_service :
      ServerManager (World State)
      → Repository
      → Result (Unit {0})
      → World State
      → Outcome Repository × World State
  unfolding after_readiness
  after_service m repo (err e) w =
      fail (server_failed repo ("Failed to ensure Service: " <> error_text e))
        (wrap "failed to ensure server service" e) (warn repo "ServiceFailed" e w)
  after_service m repo (ok _) w =
      let (ready, w') = m.is_server_ready repo w in after_readiness m repo (or_false ready) w'

  unfoldable pub after_deployment :
      ServerManager (World State)
      → Repository
      → Result (Unit {0})
      → World State
      → Outcome Repository × World State
  unfolding after_service
  after_deployment m repo (err e) w =
      fail (server_failed repo ("Failed to ensure Deployment: " <> error_text e))
        (wrap "failed to ensure server deployment" e) (warn repo "DeploymentFailed" e w)
  after_deployment m repo (ok _) w =
      let (service, w') = m.ensure_server_service repo w in after_service m repo service w'

  unfoldable pub after_tls :
      ServerManager (World State)
      → Repository
      → Result String
      → World State
      → Outcome Repository × World State
  unfolding after_deployment
  after_tls m repo (err e) w =
      fail (server_failed repo ("Failed to ensure TLS: " <> error_text e))
        (wrap "failed to ensure TLS secret" e) (warn repo "TLSFailed" e w)
  after_tls m repo (ok fingerprint) w =
      let repo' = fingerprinted repo fingerprint in
      let (deployment, w') = m.ensure_server_deployment repo' w in
      after_deployment m repo' deployment w'

  unfoldable pub server_mode :
      Option (ServerManager (World State))
      → Repository
      → World State
      → Outcome Repository × World State
  unfolding after_tls
  server_mode none repo w =
      fail
        (set_condition repo condition_type_repository_ready condition_false reason_server_failed
          "Server mode requires ServerManager to be configured")
        (plain "server manager not configured for server mode") w
  server_mode (some m) repo w =
      let (tls, w') = m.ensure_tls_secret repo w in after_tls m repo tls w'

  -- What `reconcile` does between reading the repository and the deferred status update.
  unfoldable pub body :
      Option (ServerManager (World State))
      → Repository
      → World State
      → Outcome Repository × World State
  unfolding server_mode all_checks_passed
  body manager repo =
      if repo.spec.password_secret_name == ""
      then finish
          (set_condition repo condition_type_repository_ready condition_false
            reason_missing_password "spec.passwordSecretName must be set")
          done
      else if repo.spec.server.enabled
      then server_mode manager repo
      else all_checks_passed repo

  unfoldable pub after_get :
      Option (ServerManager (World State))
      → Result Repository
      → World State
      → Reconciled × World State
  unfolding body ignore_not_found first_error
  after_get manager (err e) w = (record { result = done; error = ignore_not_found e }, w)
  after_get manager (ok repo) w =
      let (o, w') = body manager repo w in
      let (answer, w'') =
        write update_status kopia_repository o.object.metadata (repositories.update_status o.object)
          w' in
      (record { result = o.result; error = first_error o.error answer }, w'')

  unfoldable pub reconcile_repository :
      Option (ServerManager (World State)) → Key → World State → Reconciled × World State
  unfolding after_get
  reconcile_repository manager request w =
      let (repo, w') = call (repositories.get request) w in after_get manager repo w'

  abbrev pub count_error : Option Error → World State → World State
  count_error none w = w
  count_error (some _) w = emit (reconcile_error "kopiarepository") w

  unfoldable pub reconcile :
      Option (ServerManager (World State)) → Key → World State → Reconciled × World State
  unfolding reconcile_repository
  reconcile manager request w =
      let (r, w') = reconcile_repository manager request w in (r, count_error r.error w')
