-- ===== src/Naming.antt =====
-- internal/naming/names.go: the names of the objects that the operator creates.
pub mod Length
pub mod Collisions
use kopia_operator.Prelude.{String, ◌<>◌, List, [], ◌∷◌, ltb, ◌==◌, if◌then◌else◌}
use kopia_operator.Prelude.Lists.{Dict}
use kopia_operator.Prelude.Text

abbrev pub cron_job_prefix : String
cron_job_prefix = "snapshot-"

unfoldable pub cron_job_name : String → String
cron_job_name pvc_name =
    if pvc_name == ""
    then cron_job_prefix <> "unknown"
    else if ltb 42 (Text.length pvc_name)
    then cron_job_prefix <> (Text.take 42 pvc_name <> ("-" <> Text.last pvc_name))
    else cron_job_prefix <> pvc_name

unfoldable pub server_deployment_name : String → String
server_deployment_name repo_name = "kopia-server-" <> repo_name

unfoldable pub server_service_name : String → String
server_service_name repo_name = "kopia-server-" <> repo_name

unfoldable pub tls_secret_name : String → String
tls_secret_name repo_name = "kopia-server-tls-" <> repo_name

unfoldable pub user_secret_name : String → String → String
user_secret_name namespace pvc_name = "kopia-backup-user-" <> (namespace <> ("-" <> pvc_name))

unfoldable pub config_map_name : String → String
config_map_name repo_name = "kopia-config-" <> repo_name

unfoldable pub username : String → String → String → String
username namespace pvc_name hostname = namespace <> ("-" <> (pvc_name <> ("@" <> hostname)))

unfoldable pub server_labels : String → Dict String
server_labels repo_name =
    ("app", "kopia-server")
    ∷ ("kopia-repository", repo_name)
    ∷ ("app.kubernetes.io/name", "kopia-server")
    ∷ ("app.kubernetes.io/instance", repo_name)
    ∷ ("app.kubernetes.io/managed-by", "kopia-operator")
    ∷ []
