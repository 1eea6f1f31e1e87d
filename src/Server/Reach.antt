-- ===== src/Server/Reach.antt =====
-- Where the server is, for itself and for the backups: manager.go's GetServerURL, Service and
-- Deployment, and the URL in the script of builder.go, which is written out there a second time.
use kopia_operator.Prelude.{
  String, ◌<>◌, ◌≡◌, refl, ap, sym, ◌∙◌, true, List, [], ◌∷◌, ◌++◌, map, arith, ◌==◌,
}
use text.Mathlib.TextLemmas.{append_assoc}
use kopia_operator.Prelude.Decimal.{decimal_int}
use kopia_operator.Prelude.Lists.{any, all}
use kopia_operator.Prelude.Int.{ℤ}
use kopia_operator.Kube.Objects.{ServicePort}
use kopia_operator.Kube.Pods.{VolumeMount, Volume}
use kopia_operator.Kube.Deployments.{ServerContainer, ContainerPort}
use kopia_operator.Api.Repository.{Repository}
use kopia_operator.Naming.{server_service_name}
use kopia_operator.Builder.Command.{server_url, server_port}
use kopia_operator.Server.Deployment.{
  server_volume_mounts, server_volumes, construct_server_deployment, server_container,
}
use kopia_operator.Server.Service.{service_port, construct_server_service, get_server_url}

-- The ports that the containers of a deployment declare.
abbrev pub container_ports : List ServerContainer → List ℤ
container_ports [] = []
container_ports (c ∷ cs) =
    map (λ (p : ContainerPort). p.container_port) c.ports ++ container_ports cs

same_url : (repo : Repository) → get_server_url repo ≡ server_url repo
unfolding get_server_url server_url service_port server_port server_service_name
same_url repo =
    let rest =
      "."
      <> (repo.metadata.namespace <> (".svc.cluster.local:" <> decimal_int (server_port repo))) in
    ap (λ t. "https://" <> t) (append_assoc "kopia-server-" repo.metadata.name rest)
    ∙ sym (append_assoc "https://" "kopia-server-" (repo.metadata.name <> rest))

-- The URL in the status of a backup is the one that its script connects to; its port is the Service's
-- only port, which goes to the port that the server's container declares and is probed at; and the
-- Service selects the labels of the server's pods.
pub server_url-reaches :
    (repo : Repository) (name deployment_name : String)
    → let service = (construct_server_service repo name).spec in
      let spec = (construct_server_deployment repo deployment_name).spec in
      (get_server_url repo ≡ server_url repo)
      × ((map (λ (p : ServicePort). p.port) service.ports ≡ server_port repo ∷ [])
          × ((map (λ (p : ServicePort). p.target_port) service.ports
                ≡ container_ports spec.containers)
              × ((map (λ (c : ServerContainer). c.readiness_probe.port) spec.containers
                    ≡ container_ports spec.containers)
                  × (service.selector ≡ spec.template_labels))))
unfolding get_server_url server_url service_port server_port construct_server_service
    construct_server_deployment server_service_name server_container
server_url-reaches repo name deployment_name = (same_url repo, (refl, (refl, (refl, refl))))

-- Every mount of the server's container names a volume of its pod, whatever the storage type.
pub server_volumes-are_mountable :
    (repo : Repository)
    → all
        (λ (m : VolumeMount). any (λ (v : Volume). v.name == m.name) (server_volumes repo))
        (server_volume_mounts repo)
      ≡ true
unfolding server_volumes server_volume_mounts
server_volumes-are_mountable repo = ground arith
