-- ===== src/BackupController/Watches.antt =====
-- The predicate and the map functions of the watches.
use kopia_operator.Prelude.{
  String, Bool, false, not, ◌&&◌, ◌||◌, some, List, [], ◌∷◌, ◌++◌, map, ◌==◌, starts_with,
  if◌then◌else◌,
}
use kopia_operator.Exec.{Result, ok, err}
use kopia_operator.Kube.Meta.{Key, ObjectMeta}
use kopia_operator.Kube.Pods.{Pod, Volume, persistent_volume_claim, pod_running}
use kopia_operator.Api.Backup.{Backup}
use kopia_operator.Platform.{Platform, ListOptions}
use kopia_operator.World.{World, call}
use kopia_operator.Naming.{cron_job_prefix}

abbrev pub pvc_name_field : String
pvc_name_field = ".spec.pvcName"

abbrev pub repository_name_field : String
repository_name_field = ".spec.repository"

-- The two indexers of SetupWithManager.
unfoldable pub index_pvc_name : Backup → List String
index_pvc_name b = if b.spec.pvc_name == "" then [] else b.spec.pvc_name ∷ []

unfoldable pub index_repository_name : Backup → List String
index_repository_name b = if b.spec.repository == "" then [] else b.spec.repository ∷ []

-- podRunningPredicate's four methods, on pods.
unfoldable pub on_create : Pod → Bool
on_create pod = pod.phase == pod_running

unfoldable pub on_update : Pod → Pod → Bool
on_update old new =
    let phase_changed = not (old.phase == pod_running) && new.phase == pod_running in
    let node_assigned = old.node_name == "" && not (new.node_name == "") in
    phase_changed || node_assigned

unfoldable pub on_delete : Pod → Bool
on_delete pod = false

unfoldable pub on_generic : Pod → Bool
on_generic pod = false

abbrev pub request_of : Backup → Key
request_of b = record { name = b.metadata.name; namespace = b.metadata.namespace }

abbrev pub requests_of : Result (List Backup) → List Key
requests_of (ok found) = map request_of found
requests_of (err _) = []

module _ (P : Platform) where
  open P use {State, backups}

  abbrev pub matching : String → String → String → ListOptions
  matching namespace field name = record {
    namespace = some namespace;
    labels = [];
    fields = (field, name) ∷ [];
  }

  -- A failed request is logged and yields no requests.
  unfoldable pub find_backups_for_field : String → ObjectMeta → World State → List Key × World State
  find_backups_for_field field object w =
      let (found, w') = call (backups.list (matching object.namespace field object.name)) w in
      (requests_of found, w')

  -- The loop over the volumes.
  unfoldable pub backups_of_volumes : String → List Volume → World State → List Key × World State
  backups_of_volumes namespace [] w = ([], w)
  backups_of_volumes namespace (v ∷ volumes) w =
      let skip = backups_of_volumes namespace volumes w in
      elim v.source [
        | persistent_volume_claim claim ↦
            let (found, w') = call (backups.list (matching namespace pvc_name_field claim)) w in
            let (rest, w'') = backups_of_volumes namespace volumes w' in
            (requests_of found ++ rest, w'')
        | _ ↦ skip
      ]

  unfoldable pub find_backups_for_pod : Pod → World State → List Key × World State
  unfolding backups_of_volumes
  find_backups_for_pod pod w =
      if starts_with pod.metadata.name cron_job_prefix
      then ([], w)
      else backups_of_volumes pod.metadata.namespace pod.volumes w
