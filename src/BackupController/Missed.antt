-- ===== src/BackupController/Missed.antt =====
-- Which backups a change of a repository wakes.
use kopia_operator.Prelude.{
  String, ◌≡◌, ◌≢◌, refl, true, false, List, [], ◌∷◌, map, ◌==◌, eq_iff, arith,
}
use kopia_operator.Prelude.Lists.{any, all}
use kopia_operator.Exec.{Result, ok, err}
use kopia_operator.Kube.Meta.{Key, ObjectMeta}
use kopia_operator.Api.Backup.{Backup}
use kopia_operator.Platform.{Platform}
use kopia_operator.World.{World}
use kopia_operator.BackupController.Watches.{
  request_of, requests_of, matching, repository_name_field, find_backups_for_field,
}

-- client.InNamespace: a list in a namespace holds objects of that namespace only.
pub record IsNamespaced (P : Platform) : Type 0 where
  pub in_namespace :
      (namespace field name : String) (s : P.State) (found : List Backup)
      → (P.backups.list (matching P namespace field name) s).0 ≡ ok found
      → all (λ (b : Backup). b.metadata.namespace == namespace) found ≡ true

module _ (namespace other : String) (apart : other ≢ namespace) where
  any-request_of :
      (found : List Backup)
      → all (λ (b : Backup). b.metadata.namespace == namespace) found ≡ true
      → any (λ (k : Key). k.namespace == other) (map request_of found) ≡ false
  any-request_of [] h = refl
  any-request_of (b ∷ found) h = ground (
    arith,
    eq_iff b.metadata.namespace namespace,
    eq_iff b.metadata.namespace other,
    any-request_of found,
  )

  any-requests_of :
      (answer : Result (List Backup))
      → ((found : List Backup)
          → answer ≡ ok found
          → all (λ (b : Backup). b.metadata.namespace == namespace) found ≡ true)
      → any (λ (k : Key). k.namespace == other) (requests_of answer) ≡ false
  any-requests_of (ok found) h = any-request_of found (h found refl)
  any-requests_of (err e) h = refl

module _ (P : Platform) (laws : IsNamespaced P) where
  open P use {State, backups}

  -- A change of a repository wakes no backup of another namespace, although the search lets a backup
  -- use a repository of any namespace.
  pub find_backups_for_field-misses :
      (repository : ObjectMeta) (other : String) (w : World State)
      → other ≢ repository.namespace
      → any
          (λ (k : Key). k.namespace == other)
          (find_backups_for_field P repository_name_field repository w).0
        ≡ false
  unfolding find_backups_for_field
  find_backups_for_field-misses repository other w apart =
      any-requests_of repository.namespace other apart
        (backups.list (matching P repository.namespace repository_name_field repository.name)
          w.api).0
        (λ found.
          laws.in_namespace repository.namespace repository_name_field repository.name w.api found)
