-- ===== src/PvcWatcher/Store.antt =====
-- The API server as a table of backups, and what the PVC watcher is to make of the table.
use kopia_operator.Prelude.{String, ◌≡◌, ◌≢◌, Bool, true, false, Option, none, some, ◌==◌, ◌⊎◌}
use kopia_operator.Error.{is_not_found, is_already_exists, Error}
use kopia_operator.Exec.{Result, ok, err}
use kopia_operator.Kube.Meta.{Key, ObjectMeta}
use kopia_operator.Kube.Objects.{Pvc}
use kopia_operator.Api.Backup.{Backup, BackupSpec, defaulted}
use kopia_operator.Api.Repository.{Repository}
use kopia_operator.Platform.{Platform, everything}
use kopia_operator.Controller.{get_or_empty}
use kopia_operator.PvcWatcher.{
  repository_label_key, key_of, get_schedule_from_pvc, new_spec, is_auto_created,
}

-- The same spec, up to the defaults that the API server fills in.
abbrev pub SameSpec : BackupSpec → BackupSpec → Type 0
SameSpec s t = defaulted s ≡ defaulted t

-- Not there, or about to go: an object with finalizers stays until they are removed.
abbrev pub IsGone : Option Backup → Type 0
IsGone none = Unit
IsGone (some b) = b.metadata.deletion_timestamp ≢ none

-- What the watcher relies on in the API server. A read changes nothing; a write that is answered
-- without error is in the table, where no other entry changes, whatever the answer; the spec that is
-- then stored is the one that was sent, up to the defaults of the custom resource; a Create that is
-- answered with AlreadyExists changes no entry; Update leaves the status alone and the update of the
-- status the spec; and the repositories are other objects. A read may miss an entry: it comes from a
-- cache.
pub record IsBackupStore (P : Platform) : Type 0 where
  pub stored : P.State → Key → Option Backup
  pub pvc_read : (k : Key) (s : P.State) → (P.pvcs.get k s).1 ≡ s
  pub backup_read : (k : Key) (s : P.State) → (P.backups.get k s).1 ≡ s
  pub repository_read : (k : Key) (s : P.State) → (P.repositories.get k s).1 ≡ s
  pub repositories_read : (s : P.State) → (P.repositories.list everything s).1 ≡ s
  pub get_ok :
      (k : Key) (s : P.State) (b : Backup)
      → (P.backups.get k s).0 ≡ ok b
      → (stored s k ≡ some b) × (key_of b.metadata ≡ k)
  pub create_ok :
      (b b' : Backup) (s : P.State)
      → (P.backups.create b s).0 ≡ ok b'
      → (key_of b'.metadata ≡ key_of b.metadata)
        × SameSpec b'.spec b.spec
        × (stored (P.backups.create b s).1 (key_of b.metadata) ≡ some b')
  pub create_exists :
      (b : Backup) (s : P.State) (e : Error)
      → (P.backups.create b s).0 ≡ err e
      → is_already_exists e ≡ true
      → (stored s (key_of b.metadata) ≢ none)
        × (stored (P.backups.create b s).1 (key_of b.metadata) ≡ stored s (key_of b.metadata))
  pub update_ok :
      (b c b' : Backup) (s : P.State)
      → stored s (key_of b.metadata) ≡ some c
      → c.status ≡ b.status
      → (P.backups.update b s).0 ≡ ok b'
      → SameSpec b'.spec b.spec
        × (b'.status ≡ b.status)
        × (stored (P.backups.update b s).1 (key_of b.metadata) ≡ some b')
  pub update_status_ok :
      (b c b' : Backup) (s : P.State)
      → stored s (key_of b.metadata) ≡ some c
      → c.spec ≡ b.spec
      → (P.backups.update_status b s).0 ≡ ok b'
      → (key_of b'.metadata ≡ key_of b.metadata)
        × SameSpec b'.spec b.spec
        × (b'.status ≡ b.status)
        × (stored (P.backups.update_status b s).1 (key_of b.metadata) ≡ some b')
  pub delete_ok :
      (b : Backup) (s : P.State) (u : Unit {0})
      → (P.backups.delete b s).0 ≡ ok u
      → IsGone (stored (P.backups.delete b s).1 (key_of b.metadata))
  pub delete_missing :
      (b : Backup) (s : P.State) (e : Error)
      → (P.backups.delete b s).0 ≡ err e
      → is_not_found e ≡ true
      → stored (P.backups.delete b s).1 (key_of b.metadata) ≡ none
  pub create_others :
      (b : Backup) (s : P.State) (j : Key)
      → j ≢ key_of b.metadata
      → stored (P.backups.create b s).1 j ≡ stored s j
  pub update_others :
      (b : Backup) (s : P.State) (j : Key)
      → j ≢ key_of b.metadata
      → stored (P.backups.update b s).1 j ≡ stored s j
  pub update_status_others :
      (b : Backup) (s : P.State) (j : Key)
      → j ≢ key_of b.metadata
      → stored (P.backups.update_status b s).1 j ≡ stored s j
  pub delete_others :
      (b : Backup) (s : P.State) (j : Key)
      → j ≢ key_of b.metadata
      → stored (P.backups.delete b s).1 j ≡ stored s j
  pub get_kept :
      (b : Backup) (k : Key) (s : P.State)
      → (P.repositories.get k (P.backups.update_status b s).1).0 ≡ (P.repositories.get k s).0
  pub list_kept :
      (b : Backup) (s : P.State)
      → (P.repositories.list everything (P.backups.update_status b s).1).0
        ≡ (P.repositories.list everything s).0
  pub owned_key :
      (kind : String) (owner m m' : ObjectMeta)
      → P.set_controller_reference kind owner m ≡ ok m'
      → key_of m' ≡ key_of m

-- The spec with the schedule that the PVC and the repository ask for.
abbrev pub synced_spec : Pvc → Result Repository → BackupSpec → BackupSpec
synced_spec pvc (ok repo) spec = record spec {
  schedule = get_schedule_from_pvc pvc repo.spec.default_schedule;
}
synced_spec pvc (err _) spec = spec

-- A backup that the watcher looks after, with this spec up to the defaults.
abbrev pub Managed : Option Backup → BackupSpec → Type 0
Managed after spec =
    (b : Backup) × (after ≡ some b) × SameSpec b.spec spec × (b.status.auto_created ≡ true)

-- There is such a backup now, or there was an entry that the watcher had not read, and it stays.
abbrev pub Created : Pvc → String → Result Repository → Option Backup → Option Backup → Type 0
Created pvc name (ok repo) before after =
    Managed after
      (new_spec pvc.metadata.name name (get_schedule_from_pvc pvc repo.spec.default_schedule))
    ⊎ ((before ≢ none) × (after ≡ before))
Created pvc name (err _) before after = after ≡ before

abbrev pub When : Bool → Type 0 → Type 0 → Type 0
When true A B = A
When false A B = B

abbrev pub Removed : Platform → Pvc → Option Backup → Option Backup → Option Backup → Type 0
Removed P pvc none before after = after ≡ before
Removed P pvc (some b) before after = When (is_auto_created P b pvc) (IsGone after) (after ≡ before)

abbrev pub Wanted :
    Platform
    → Pvc
    → String
    → Result Repository
    → Option Backup
    → Option Backup
    → Option Backup
    → Type 0
Wanted P pvc name found none before after = Created pvc name found before after
Wanted P pvc name found (some b) before after =
    When (is_auto_created P b pvc) (Managed after (synced_spec pvc found b.spec)) (after ≡ before)

-- The entry of a PVC's backup before and after: `found` is the repository that the label names, `read`
-- the backup that the watcher read. With no label a backup that the watcher created is gone; with it
-- one is created from the PVC and the repository if none was read, and one that was read is brought to
-- their schedule; a backup of somebody else stays as it is.
abbrev pub Meets :
    Platform → Pvc → Result Repository → Option Backup → Option Backup → Option Backup → Type 0
Meets P pvc found read before after =
    let name = get_or_empty repository_label_key pvc.metadata.labels in
    When (name == "") (Removed P pvc read before after) (Wanted P pvc name found read before after)

-- What a read answers with.
abbrev pub read_of : Result Backup → Option Backup
read_of (ok b) = some b
read_of (err _) = none

-- A backup that was read is the entry at its own key.
abbrev pub IsRead : Key → Option Backup → Option Backup → Type 0
IsRead k none before = Unit
IsRead k (some b) before = (before ≡ some b) × (key_of b.metadata ≡ k)
