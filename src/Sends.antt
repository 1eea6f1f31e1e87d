-- ===== src/Sends.antt =====
-- What the operator sends to the API server and to the metrics, beside what it is granted: a table of
-- the writes that the three controllers and the two managers need, and the writes that the RBAC
-- markers above their Reconcile functions grant.
pub mod Users
pub mod Finalizer
pub mod Resources
pub mod Backup
pub mod Watcher
pub mod Repository
pub mod Servers
use kopia_operator.Prelude.{
  String, ◌<>◌, ◌==◌, ◌&&◌, ℕ, Bool, true, false, not, ◌≡◌, refl, List, [], ◌∷◌, arith, leb, ◌++◌,
  ◌+◌, if◌then◌else◌,
}
use kopia_operator.Prelude.Lists.{all, any}
use kopia_operator.World.{
  Effect, api_write, event, reconcile_error, server_ready, delete_last_successful_backup,
  delete_backups_per_repository, delete_server_ready, Verb, create, update, update_status, patch,
  delete, Kind, kopia_backup, kopia_repository, cron_job, config_map, core_secret, core_service,
  apps_deployment,
}
use kopia_operator.World.Trace.{count, is_status_update}

-- The writes that the operator needs.
abbrev pub needs : Verb → Kind → Bool
needs create kopia_backup = true
needs update kopia_backup = true
needs update_status kopia_backup = true
needs delete kopia_backup = true
needs update_status kopia_repository = true
needs create cron_job = true
needs update cron_job = true
needs create config_map = true
needs update config_map = true
needs create core_secret = true
needs patch core_secret = true
needs delete core_secret = true
needs create core_service = true
needs update core_service = true
needs create apps_deployment = true
needs update apps_deployment = true
needs _ _ = false

-- Nothing else is written, the gauge of a server is 0 or 1, and only a backup's metric is removed.
abbrev pub is_expected : Effect → Bool
is_expected (api_write verb kind _ _) = needs verb kind
is_expected (server_ready _ _ value) = leb value 1
is_expected (delete_backups_per_repository _ _) = false
is_expected (delete_server_ready _ _) = false
is_expected _ = true

abbrev pub unexpected : List Effect → ℕ
unexpected = count (λ e. not (is_expected e))

-- A count of the effects of one sort: the updates of a status, or what is not expected.
abbrev pub tally : Bool → List Effect → ℕ
tally k = count (λ e. if k then is_status_update e else not (is_expected e))

-- The effects that a status update adds to the tally.
abbrev pub one_status : Bool → ℕ
one_status k = if k then 1 else 0

-- A marker `+kubebuilder:rbac`: the resources that it names, with the group before the slash, and the
-- verbs that it grants on them.
pub record Marker : Type 0 where
  pub resource : String
  pub verbs : List String

abbrev reading : List String
reading = "get" ∷ "list" ∷ "watch" ∷ []

abbrev everything : List String
everything = "get" ∷ "list" ∷ "watch" ∷ "create" ∷ "update" ∷ "patch" ∷ "delete" ∷ []

abbrev of_status : List String
of_status = "get" ∷ "update" ∷ "patch" ∷ []

abbrev pub backup_markers : List Marker
backup_markers =
    record { resource = "backup.cloudinfra.be/kopiabackups"; verbs = everything }
    ∷ record { resource = "backup.cloudinfra.be/kopiabackups/status"; verbs = of_status }
    ∷ record { resource = "backup.cloudinfra.be/kopiabackups/finalizers"; verbs = "update" ∷ [] }
    ∷ record { resource = "batch/cronjobs"; verbs = everything }
    ∷ record { resource = "/configmaps"; verbs = everything }
    ∷ record { resource = "/pods"; verbs = reading }
    ∷ record { resource = "/pods/exec"; verbs = "create" ∷ [] }
    ∷ record { resource = "/persistentvolumeclaims"; verbs = reading }
    ∷ record { resource = "/secrets"; verbs = everything }
    ∷ record { resource = "/events"; verbs = "create" ∷ "patch" ∷ [] }
    ∷ record { resource = "backup.cloudinfra.be/kopiarepositories"; verbs = reading }
    ∷ []

abbrev pub repository_markers : List Marker
repository_markers =
    record { resource = "backup.cloudinfra.be/kopiarepositories"; verbs = everything }
    ∷ record { resource = "backup.cloudinfra.be/kopiarepositories/status"; verbs = of_status }
    ∷ record {
      resource = "backup.cloudinfra.be/kopiarepositories/finalizers";
      verbs = "update" ∷ [];
    }
    ∷ record { resource = "apps/deployments"; verbs = everything }
    ∷ record { resource = "/services"; verbs = everything }
    ∷ []

abbrev pub watcher_markers : List Marker
watcher_markers =
    record { resource = "/persistentvolumeclaims"; verbs = reading }
    ∷ record { resource = "backup.cloudinfra.be/kopiabackups"; verbs = everything }
    ∷ record { resource = "backup.cloudinfra.be/kopiabackups/status"; verbs = of_status }
    ∷ record { resource = "backup.cloudinfra.be/kopiarepositories"; verbs = reading }
    ∷ record { resource = "/events"; verbs = "create" ∷ "patch" ∷ [] }
    ∷ []

-- The role of the operator has the markers of all three files.
unfoldable pub grants : String → String → Bool
grants verb resource =
    any (λ (m : Marker). m.resource == resource && any (λ v. v == verb) m.verbs)
      (backup_markers ++ (repository_markers ++ watcher_markers))

-- The resource of a kind in the API.
abbrev pub resource_of : Kind → String
resource_of kopia_backup = "backup.cloudinfra.be/kopiabackups"
resource_of kopia_repository = "backup.cloudinfra.be/kopiarepositories"
resource_of cron_job = "batch/cronjobs"
resource_of config_map = "/configmaps"
resource_of core_secret = "/secrets"
resource_of core_service = "/services"
resource_of apps_deployment = "apps/deployments"

-- A write needs its verb on the resource, an update of the status on the subresource, and an event is
-- created or patched; the metrics need no grant.
unfoldable pub is_granted : Effect → Bool
unfolding grants
is_granted (api_write create kind _ _) = grants "create" (resource_of kind)
is_granted (api_write update kind _ _) = grants "update" (resource_of kind)
is_granted (api_write update_status kind _ _) = grants "update" (resource_of kind <> "/status")
is_granted (api_write patch kind _ _) = grants "patch" (resource_of kind)
is_granted (api_write delete kind _ _) = grants "delete" (resource_of kind)
is_granted (event _ _ _ _ _) = grants "create" "/events" && grants "patch" "/events"
is_granted _ = true

grants-needs :
    (verb : Verb) (kind : Kind) (name namespace : String)
    → needs verb kind ≡ true
    → is_granted (api_write verb kind name namespace) ≡ true
unfolding is_granted grants
grants-needs create kopia_backup name namespace h = refl
grants-needs create kopia_repository name namespace h = cc
grants-needs create cron_job name namespace h = refl
grants-needs create config_map name namespace h = refl
grants-needs create core_secret name namespace h = refl
grants-needs create core_service name namespace h = refl
grants-needs create apps_deployment name namespace h = refl
grants-needs update kopia_backup name namespace h = refl
grants-needs update kopia_repository name namespace h = cc
grants-needs update cron_job name namespace h = refl
grants-needs update config_map name namespace h = refl
grants-needs update core_secret name namespace h = cc
grants-needs update core_service name namespace h = refl
grants-needs update apps_deployment name namespace h = refl
grants-needs update_status kopia_backup name namespace h = refl
grants-needs update_status kopia_repository name namespace h = refl
grants-needs update_status cron_job name namespace h = cc
grants-needs update_status config_map name namespace h = cc
grants-needs update_status core_secret name namespace h = cc
grants-needs update_status core_service name namespace h = cc
grants-needs update_status apps_deployment name namespace h = cc
grants-needs patch kopia_backup name namespace h = cc
grants-needs patch kopia_repository name namespace h = cc
grants-needs patch cron_job name namespace h = cc
grants-needs patch config_map name namespace h = cc
grants-needs patch core_secret name namespace h = refl
grants-needs patch core_service name namespace h = cc
grants-needs patch apps_deployment name namespace h = cc
grants-needs delete kopia_backup name namespace h = refl
grants-needs delete kopia_repository name namespace h = cc
grants-needs delete cron_job name namespace h = cc
grants-needs delete config_map name namespace h = cc
grants-needs delete core_secret name namespace h = refl
grants-needs delete core_service name namespace h = cc
grants-needs delete apps_deployment name namespace h = cc

pub granted_of_expected : (e : Effect) → is_expected e ≡ true → is_granted e ≡ true
unfolding is_granted
granted_of_expected (api_write verb kind name namespace) h = grants-needs verb kind name namespace h
granted_of_expected _ h = refl
