-- ===== src/Server/Service.antt =====
-- constructServerService and GetServerURL.
use kopia_operator.Prelude.{String, ◌<>◌, [], ◌∷◌, ◌==◌, if◌then◌else◌}
use kopia_operator.Prelude.Decimal.{decimal_int}
use kopia_operator.Prelude.Int.{ℤ, is_zero}
use kopia_operator.Kube.Meta.{new_meta}
use kopia_operator.Kube.Objects.{Service}
use kopia_operator.Api.Repository.{Repository}
use kopia_operator.Naming.{server_labels, server_service_name}
use kopia_operator.Server.Deployment.{default_server_port}

unfoldable pub service_port : Repository → ℤ
service_port repo =
    if is_zero repo.spec.server.exposure.service_port
    then default_server_port
    else repo.spec.server.exposure.service_port

unfoldable pub construct_server_service : Repository → String → Service
unfolding service_port server_labels
construct_server_service repo service_name = record {
  metadata = new_meta service_name repo.metadata.namespace (server_labels repo.metadata.name);
  spec = record {
    type =
        if repo.spec.server.exposure.service_type == ""
        then "ClusterIP"
        else repo.spec.server.exposure.service_type;
    selector = server_labels repo.metadata.name;
    ports =
        record {
          name = "api";
          port = service_port repo;
          target_port = default_server_port;
          protocol = "TCP";
        }
        ∷ [];
    rest = [];
  };
}

unfoldable pub get_server_url : Repository → String
unfolding service_port server_service_name
get_server_url repo =
    "https://"
    <> (server_service_name repo.metadata.name
        <> ("."
            <> (repo.metadata.namespace
                <> (".svc.cluster.local:" <> decimal_int (service_port repo)))))
