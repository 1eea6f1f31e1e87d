-- ===== src/BackupController/SharedConfig.antt =====
-- The ConfigMap of the direct mode, which the backups of one repository in a namespace share.
use kopia_operator.Prelude.{String, ◌≡◌, eq_refl, [], ◌∷◌, arith}
use kopia_operator.Exec.{Result, ok, err}
use kopia_operator.Kube.Meta.{ObjectMeta, new_meta}
use kopia_operator.Kube.Objects.{ConfigMap}
use kopia_operator.Api.Backup.{Backup}
use kopia_operator.Api.Repository.{Repository}
use kopia_operator.Platform.{Platform}
use kopia_operator.World.{World}
use kopia_operator.Naming
use kopia_operator.Builder.Config.{
  KopiaConfigData, StorageConfig, with_text, with_storage, storage_config, config_data,
  build_config_map,
}
use kopia_operator.BackupController.Setup.{Reconciler}
use kopia_operator.BackupController.Resources.{with_config_map, reconcile_config_map}

-- The metadata that a backup gives the ConfigMap, before it is set as the owner.
abbrev pub config_map_meta : Backup → Repository → ObjectMeta
config_map_meta b repo =
    new_meta (Naming.config_map_name repo.metadata.name) b.metadata.namespace
      (("backup.cloudinfra.be/pvc-name", b.spec.pvc_name) ∷ [])

module _ (marshal : KopiaConfigData → Result String) (a b : Backup) (repo : Repository)
    (built : ConfigMap) where
  -- The same contents, under the metadata of the other backup.
  abbrev pub other : ConfigMap
  other = record { metadata = config_map_meta b repo; contents = built.contents }

  with_text-other :
      (text : Result String) → with_text a repo text ≡ ok built → with_text b repo text ≡ ok other
  unfolding with_text
  with_text-other (ok text) h = ground arith
  with_text-other (err e) h = absurd (ground arith)

  with_storage-other :
      (storage : Result StorageConfig)
      → with_storage marshal a repo storage ≡ ok built
      → with_storage marshal b repo storage ≡ ok other
  unfolding with_storage
  with_storage-other (ok storage) h = with_text-other (marshal (config_data repo storage)) h
  with_storage-other (err e) h = absurd (ground arith)

  build_config_map-other :
      build_config_map marshal a repo ≡ ok built → build_config_map marshal b repo ≡ ok other
  unfolding build_config_map
  build_config_map-other h = with_storage-other (storage_config repo) h

module _ (P : Platform) where
  open P use {State, config_maps, set_controller_reference}

  -- Once the ConfigMap of a repository holds what the reconcile of one backup builds, the reconcile of
  -- any backup of that repository finds it up to date and sends no write, whatever the metadata: so the
  -- ConfigMap stays as it is, owned by the backup that created it.
  pub reconcile_config_map-shared :
      (r : Reconciler P) (a b : Backup) (repo : Repository) (w : World State)
      (built existing : ConfigMap) (owned : ObjectMeta) (s : State)
      → build_config_map r.marshal a repo ≡ ok built
      → set_controller_reference "KopiaBackup" b.metadata (config_map_meta b repo) ≡ ok owned
      → config_maps.get
          (record {
            name = Naming.config_map_name repo.metadata.name;
            namespace = b.metadata.namespace;
          })
          w.api
        ≡ (ok existing, s)
      → existing.contents ≡ built.contents
      → reconcile_config_map P r b repo w ≡ (ok tt, record w { api = s })
  unfolding reconcile_config_map with_config_map
  reconcile_config_map-shared r a b repo w built existing owned s builds owns got same =
      rw (build_config_map-other r.marshal a b repo built builds, owns, got) (simp (same, eq_refl))
