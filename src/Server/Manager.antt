-- ===== src/Server/Manager.antt =====
-- EnsureServerDeployment, EnsureServerService, IsServerReady and EnsureTLSSecret.
use kopia_operator.Prelude.{
  String, ◌<>◌, Bool, true, false, ◌&&◌, Option, none, some, List, [], ◌∷◌, nat_eq, ◌==◌,
  if◌then◌else◌,
}
use kopia_operator.Prelude.Lists.{lookup}
use kopia_operator.Prelude.Int.{ℤ, pos, negsuc, is_pos}
use kopia_operator.Error.{plain, wrap, is_not_found}
use kopia_operator.Exec.{
  Result, ok, err, Exec, ◌>>=◌, ◌>>◌, pure, raise, wrapping, wrap_result, attempt,
}
use kopia_operator.Kube.Meta.{Key, new_meta}
use kopia_operator.Kube.Objects.{Secret, Service, ServiceSpec}
use kopia_operator.Kube.Deployments.{Deployment}
use kopia_operator.Api.Repository.{Repository}
use kopia_operator.Platform.{Platform}
use kopia_operator.World.{
  World, create, update, delete, core_secret, core_service, apps_deployment, call, write,
}
use kopia_operator.Interfaces.{ServerManager}
use kopia_operator.Naming.{server_deployment_name, server_service_name}
use kopia_operator.Server.Deployment.{get_tls_secret_name, construct_server_deployment}
use kopia_operator.Server.Service.{construct_server_service, get_server_url}
use kopia_operator.Server.Tls.{
  Crypto, renew_before, calculate_cert_fingerprint, cert_needs_rotation, generate_self_signed_cert,
}

-- existing.Spec.Ports, Type and Selector set from the desired spec
abbrev pub merge_service_spec : ServiceSpec → ServiceSpec → ServiceSpec
merge_service_spec existing desired = record existing {
  ports = desired.ports;
  type = desired.type;
  selector = desired.selector;
}

abbrev int_eq : ℤ → ℤ → Bool
int_eq (pos m) (pos n) = nat_eq m n
int_eq (negsuc m) (negsuc n) = nat_eq m n
int_eq _ _ = false

-- The names that an auto-generated certificate holds for.
unfoldable pub server_dns_names : Repository → List String
unfolding server_service_name
server_dns_names repo =
    let name = server_service_name repo.metadata.name in
    let namespace = repo.metadata.namespace in
    name
    ∷ (name <> ("." <> namespace))
    ∷ (name <> ("." <> (namespace <> ".svc")))
    ∷ (name <> ("." <> (namespace <> ".svc.cluster.local")))
    ∷ repo.spec.server.tls.certificate_dns_names

unfoldable pub server_common_name : Repository → String
unfolding server_service_name
server_common_name repo =
    if repo.spec.server.tls.certificate_common_name == ""
    then server_service_name repo.metadata.name
      <> ("." <> (repo.metadata.namespace <> ".svc.cluster.local"))
    else repo.spec.server.tls.certificate_common_name

abbrev pub new_tls_secret : Repository → String → String → String → String → Secret
new_tls_secret repo name cert_pem key_pem fingerprint = record {
  metadata = new_meta name repo.metadata.namespace (
      ("app.kubernetes.io/name", "kopia-server")
      ∷ ("app.kubernetes.io/instance", repo.metadata.name)
      ∷ ("app.kubernetes.io/managed-by", "kopia-operator")
      ∷ []);
  type = "kubernetes.io/tls";
  contents = ("tls.crt", cert_pem) ∷ ("tls.key", key_pem) ∷ ("fingerprint", fingerprint) ∷ [];
  string_data = [];
}

abbrev pub in_namespace : Repository → String → Key
in_namespace repo name = record { name = name; namespace = repo.metadata.namespace }

module _ (P : Platform) (C : Crypto P) where
  open P use {
    State, secrets, services, deployments, set_controller_reference, service_spec_equal,
    deployment_spec_equal,
  }

  unfoldable pub with_deployment : Deployment → Result Deployment → Exec (World State) (Unit {0})
  with_deployment desired (err e) =
      if is_not_found e
      then (do write create apps_deployment desired.metadata (deployments.create desired); pure tt)
      else raise (wrap ("failed to get Deployment " <> desired.metadata.name) e)
  with_deployment desired (ok existing) =
      if deployment_spec_equal existing.spec desired.spec then pure tt else do
        write update apps_deployment existing.metadata
            (deployments.update (record existing { spec = desired.spec }))
        pure tt

  unfoldable pub ensure_server_deployment : Repository → Exec (World State) (Unit {0})
  unfolding with_deployment construct_server_deployment
  ensure_server_deployment repo = do
    let name = server_deployment_name repo.metadata.name
    let desired = construct_server_deployment repo name
    metadata ← (λ w. (
      wrap_result "failed to set controller reference on Deployment"
          (set_controller_reference "KopiaRepository" repo.metadata desired.metadata),
      w,
    ))
    existing ← attempt (call (deployments.get (in_namespace repo name)))
    with_deployment (record desired { metadata = metadata }) existing

  unfoldable pub with_service : Service → Result Service → Exec (World State) (Unit {0})
  with_service desired (err e) =
      if is_not_found e
      then (do write create core_service desired.metadata (services.create desired); pure tt)
      else raise (wrap ("failed to get Service " <> desired.metadata.name) e)
  with_service desired (ok existing) =
      let spec = merge_service_spec existing.spec desired.spec in
      if service_spec_equal spec desired.spec then pure tt else do
        write update core_service existing.metadata
            (services.update (record existing { spec = spec }))
        pure tt

  unfoldable pub ensure_server_service : Repository → Exec (World State) (Unit {0})
  unfolding with_service
  ensure_server_service repo = do
    let name = server_service_name repo.metadata.name
    let desired = construct_server_service repo name
    metadata ← (λ w. (
      wrap_result "failed to set controller reference on Service"
          (set_controller_reference "KopiaRepository" repo.metadata desired.metadata),
      w,
    ))
    existing ← attempt (call (services.get (in_namespace repo name)))
    with_service (record desired { metadata = metadata }) existing

  unfoldable pub is_server_ready : Repository → Exec (World State) Bool
  is_server_ready repo = do
    let name = server_deployment_name repo.metadata.name
    d ←
        wrapping ("failed to get Deployment " <> name)
          (call (deployments.get (in_namespace repo name)))
    pure (int_eq d.ready_replicas d.status_replicas && is_pos d.status_replicas)

  -- From "Auto-generating TLS certificate" on.
  unfoldable pub generate_tls_secret : Repository → String → Exec (World State) String
  unfolding server_dns_names server_common_name generate_self_signed_cert
  generate_tls_secret repo name = do
    (cert_pem, key_pem) ←
        wrapping "failed to generate TLS certificate"
          (generate_self_signed_cert P C (server_common_name repo) (server_dns_names repo))
    fingerprint ← (λ w. (
      wrap_result "failed to calculate fingerprint" (calculate_cert_fingerprint P C cert_pem),
      w,
    ))
    let secret = new_tls_secret repo name cert_pem key_pem fingerprint
    metadata ← (λ w. (
      wrap_result "failed to set controller reference on TLS secret"
          (set_controller_reference "KopiaRepository" repo.metadata secret.metadata),
      w,
    ))
    wrapping ("failed to create TLS secret " <> name)
        (write create core_secret metadata (secrets.create (record secret { metadata = metadata })))
    pure fingerprint

  -- What there is under tls.crt and tls.key of a secret that the user provides.
  unfoldable pub provided : String → Option String → Option String → Exec (World State) String
  provided name none key w = (err (plain ("tls secret " <> (name <> " missing 'tls.crt' key"))), w)
  provided name (some cert_pem) none w =
      (err (plain ("tls secret " <> (name <> " missing 'tls.key' key"))), w)
  provided name (some cert_pem) (some key) w = (
    wrap_result "failed to calculate fingerprint from user-provided cert"
        (calculate_cert_fingerprint P C cert_pem),
    w,
  )

  -- An auto-generated certificate that stays: the stored fingerprint, or the calculated one.
  unfoldable pub kept : String → Option String → Exec (World State) String
  kept cert_pem (some fingerprint) w = (ok fingerprint, w)
  kept cert_pem none w =
      (wrap_result "failed to calculate fingerprint" (calculate_cert_fingerprint P C cert_pem), w)

  unfoldable pub rotated : Repository → String → Secret → String → Bool → Exec (World State) String
  unfolding generate_tls_secret kept
  rotated repo name secret cert_pem false = kept cert_pem (lookup "fingerprint" secret.contents)
  rotated repo name secret cert_pem true = do
    wrapping "failed to delete expiring TLS secret"
        (write delete core_secret secret.metadata (secrets.delete secret))
    generate_tls_secret repo name

  unfoldable pub auto_generated :
      Repository → String → Secret → Option String → Exec (World State) String
  unfolding rotated cert_needs_rotation
  auto_generated repo name secret none w = generate_tls_secret repo name w
  auto_generated repo name secret (some cert_pem) w =
      let (needs_rotation, w') = cert_needs_rotation P C cert_pem renew_before w in
      rotated repo name secret cert_pem needs_rotation w'

  unfoldable pub with_tls_secret : Repository → String → Result Secret → Exec (World State) String
  unfolding auto_generated provided
  with_tls_secret repo name (ok secret) =
      if repo.spec.server.tls.secret_name == ""
      then auto_generated repo name secret (lookup "tls.crt" secret.contents)
      else provided name (lookup "tls.crt" secret.contents) (lookup "tls.key" secret.contents)
  with_tls_secret repo name (err e) =
      if is_not_found e
      then (if repo.spec.server.tls.secret_name == ""
          then generate_tls_secret repo name
          else raise (
              plain (
                "tls secret "
                <> (name <> " not found: create it with 'tls.crt' and 'tls.key' keys"))))
      else raise (wrap ("failed to get TLS secret " <> name) e)

  unfoldable pub ensure_tls_secret : Repository → Exec (World State) String
  unfolding with_tls_secret get_tls_secret_name
  ensure_tls_secret repo = do
    let name = get_tls_secret_name repo
    secret ← attempt (call (secrets.get (in_namespace repo name)))
    with_tls_secret repo name secret

  -- The manager behind its interface.
  abbrev pub server_manager : ServerManager (World State)
  server_manager = record {
    ensure_server_deployment = ensure_server_deployment;
    ensure_server_service = ensure_server_service;
    ensure_tls_secret = ensure_tls_secret;
    is_server_ready = is_server_ready;
    get_server_url = get_server_url;
  }
