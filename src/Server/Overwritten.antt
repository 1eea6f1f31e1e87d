-- ===== src/Server/Overwritten.antt =====
-- When EnsureServerDeployment updates a Deployment that is there.
use kopia_operator.Prelude.{◌≡◌, ◌≢◌, false, [], inl, inr, Bool-cases}
use kopia_operator.Exec.{ok, then_pure}
use kopia_operator.Kube.Meta.{ObjectMeta}
use kopia_operator.Kube.Deployments.{Deployment, DeploymentSpec}
use kopia_operator.Api.Repository.{Repository}
use kopia_operator.Platform.{Platform}
use kopia_operator.Platform.Laws.{IsSemanticEqual}
use kopia_operator.World.{World, api_write, update, apps_deployment, emit, write}
use kopia_operator.Naming.{server_deployment_name}
use kopia_operator.Server.Deployment.{construct_server_deployment}
use kopia_operator.Server.Tls.{Crypto}
use kopia_operator.Server.Manager.{in_namespace, with_deployment, ensure_server_deployment}

module _ (P : Platform) (C : Crypto P) (E : IsSemanticEqual P) where
  open P use {State, deployments, set_controller_reference}

  unequal : (s t : DeploymentSpec) → s.rest ≢ t.rest → P.deployment_spec_equal s t ≡ false
  unequal s t differ = elim (Bool-cases (P.deployment_spec_equal s t)) [
    | inl e ↦ absurd (differ (E.same_deployment s t e))
    | inr e ↦ e
  ]

  -- For a Deployment that is there with a field that the API server filled in, an update with the spec
  -- that is built for the repository is sent, and nothing else: also when that spec differs in no field
  -- that the operator sets, and without the fields that were filled in.
  pub ensure_server_deployment-always_updates :
      (repo : Repository) (w : World State) (existing : Deployment) (metadata : ObjectMeta)
      (s : State)
      → (let desired =
            construct_server_deployment repo (server_deployment_name repo.metadata.name) in
          set_controller_reference "KopiaRepository" repo.metadata desired.metadata ≡ ok metadata)
      → deployments.get (in_namespace repo (server_deployment_name repo.metadata.name)) w.api
        ≡ (ok existing, s)
      → existing.spec.rest ≢ []
      → (ensure_server_deployment P C repo w).1
        ≡ record (emit
            (api_write update apps_deployment existing.metadata.name existing.metadata.namespace)
            w) {
              api =
                  (deployments.update
                    (record existing {
                      spec =
                          (construct_server_deployment repo
                            (server_deployment_name repo.metadata.name)).spec;
                    })
                    s).1;
            }
  unfolding ensure_server_deployment with_deployment construct_server_deployment
  ensure_server_deployment-always_updates repo w existing metadata s owned got filled =
      let desired = construct_server_deployment repo (server_deployment_name repo.metadata.name) in
      let updates : P.deployment_spec_equal existing.spec desired.spec ≡ false =
        unequal existing.spec desired.spec filled in
      let sent =
        write update apps_deployment existing.metadata
          (deployments.update (record existing { spec = desired.spec })) in
      rw (owned, got, updates) (then_pure sent (record w { api = s }))
