-- ===== src/Examples/Sharing.antt =====
-- The theorems on what backups share, and on a backup with no finalizer, at concrete objects.
use kopia_operator.Prelude.{
  ◌≡◌, refl, Bool, true, false, ◌&&◌, some, none, List, [], ◌∷◌, ◌==◌, eq_iff, arith, Bool-cases,
  inl, inr, subst,
}
use kopia_operator.Prelude.Lists.{any, all, filter}
use kopia_operator.Error.{plain, wrap}
use kopia_operator.Exec.{ok, err}
use kopia_operator.Kube.Meta.{Key, ObjectMeta, new_meta}
use kopia_operator.Kube.Objects.{ConfigMap}
use kopia_operator.Api.Backup.{Backup}
use kopia_operator.Api.Repository.{Repository}
use kopia_operator.Platform.{Platform}
use kopia_operator.Platform.Memory.{Cluster, nothing, memory}
use kopia_operator.World.{World, emit, api_write, update, kopia_backup, reconcile_error}
use kopia_operator.Controller.{done}
use kopia_operator.Naming.{config_map_name}
use kopia_operator.PvcWatcher.{new_spec}
use kopia_operator.Builder.Config.{build_config_map}
use kopia_operator.BackupController.Watches.{repository_name_field, find_backups_for_field}
use kopia_operator.BackupController.Missed.{IsNamespaced, find_backups_for_field-misses}
use kopia_operator.BackupController.Resources.{reconcile_config_map}
use kopia_operator.BackupController.SharedConfig.{reconcile_config_map-shared, config_map_meta}
use kopia_operator.BackupController.FinalizerFirst.{reconcile-finalizer_first}
use kopia_operator.BackupController.Reconcile
use kopia_operator.BackupController.Setup.{Reconciler}
use kopia_operator.Examples.Data.{repository, with_server, backup, world, reconciler, servers}

all-filter :
    (p q : Backup → Bool) (xs : List Backup)
    → ((b : Backup) → p b ≡ true → q b ≡ true)
    → all q (filter p xs) ≡ true
all-filter p q [] h = refl
all-filter p q (b ∷ xs) h = elim (Bool-cases (p b)) [
  | inl e ↦ rw (e, h b e) (all-filter p q xs h)
  | inr e ↦ rw e (all-filter p q xs h)
]

-- The list is what passes a filter.
ok-filter :
    (p q : Backup → Bool) (xs found : List Backup)
    → ok (filter p xs) ≡ ok found
    → ((b : Backup) → p b ≡ true → q b ≡ true)
    → all q found ≡ true
ok-filter p q xs found answer h =
    let same : filter p xs ≡ found = cc in subst (λ ys. all q ys ≡ true) same (all-filter p q xs h)

and-left : (a b : Bool) → (a && b) ≡ true → a ≡ true
and-left a b h = ground arith

memory-IsNamespaced : IsNamespaced memory
memory-IsNamespaced = record {
  in_namespace = λ namespace field name s found answer.
      ok-filter _ (λ b. b.metadata.namespace == namespace) s.backups found answer
        (λ b h. and-left _ _ h);
}

-- A backup in another namespace than the repository that it uses.
abbrev across : World Cluster
across = world (record nothing { backups = backup ∷ []; repositories = with_server ∷ [] })

find_backups_for_field-misses_example :
    any
      (λ (k : Key). k.namespace == "web")
      (find_backups_for_field memory repository_name_field with_server.metadata across).0
    ≡ false
find_backups_for_field-misses_example =
    find_backups_for_field-misses memory memory-IsNamespaced with_server.metadata "web" across
      (λ e. let h : ("web" == "backup") ≡ true = (eq_iff "web" "backup").1 e in cc h)

-- Two backups of one repository in direct mode, in one namespace.
abbrev direct : Repository
direct = repository false ""

abbrev second : Backup
second = record backup {
  metadata = new_meta "logs" "web" [];
  spec = new_spec "logs" "nas" "0 3 * * *";
}

abbrev built : ConfigMap
built = record {
  metadata = config_map_meta backup direct;
  contents = ("repository.config", "{}") ∷ [];
}

abbrev owned : Backup → ObjectMeta
owned b = record (config_map_meta b direct) {
  owner_references =
      record { kind = "KopiaBackup"; name = b.metadata.name; uid = ""; controller = some "true" }
      ∷ [];
}

abbrev first_config : ConfigMap
first_config = record built { metadata = owned backup }

abbrev sharing : World Cluster
sharing = world (record nothing { config_maps = first_config ∷ [] })

reconcile_config_map-shared_example :
    reconcile_config_map memory reconciler second direct sharing ≡ (ok tt, sharing)
unfolding build_config_map config_map_name
reconcile_config_map-shared_example =
    reconcile_config_map-shared memory reconciler backup second direct sharing built first_config
      (owned second) sharing.api refl refl refl refl

-- A cluster that refuses every update of a backup.
abbrev refusing : Platform
refusing = record memory {
  backups = record memory.backups { update = λ b s. (err (plain "conflict"), s) };
}

abbrev refused : Reconciler refusing
refused = record {
  image = "";
  server_manager = servers;
  user_manager = none;
  marshal = λ config. ok "{}";
}

abbrev request : Key
request = record { name = "data"; namespace = "web" }

abbrev fresh : World Cluster
fresh = world (record nothing { backups = backup ∷ [] })

reconcile-finalizer_first_example : Reconcile.reconcile refusing refused request fresh ≡ (
  record { result = done; error = some (wrap "failed to add finalizer" (plain "conflict")) },
  record {
    api = fresh.api;
    trace =
        (emit
          (reconcile_error "kopiabackup")
          (emit (api_write update kopia_backup "data" "web") fresh)).trace;
  },
)
reconcile-finalizer_first_example =
    reconcile-finalizer_first refusing refused request backup (plain "conflict") fresh fresh.api
      fresh.api refl refl refl refl
