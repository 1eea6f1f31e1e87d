-- ===== src/Webhook/Admission.antt =====
-- The validators around the two validate functions. The objects that the API machinery hands over are
-- of any type.
use kopia_operator.Prelude.{String, ◌<>◌, List, []}
use kopia_operator.Error.{plain}
use kopia_operator.Exec.{Result, ok, err}
use kopia_operator.Api.Backup.{Backup}
use kopia_operator.Api.Repository.{Repository}
use kopia_operator.Webhook.{validate_kopia_backup, validate_kopia_repository}

-- A runtime.Object; the last is named by its type, as %T prints it.
pub data Object : Type 0 where
  a_backup : Backup → Object
  a_repository : Repository → Object
  something_else : String → Object

abbrev pub type_name : Object → String
type_name (a_backup b) = "*v1alpha1.KopiaBackup"
type_name (a_repository r) = "*v1alpha1.KopiaRepository"
type_name (something_else t) = t

-- (admission.Warnings, error)
abbrev pub Response : Type 0
Response = List String × Result (Unit {0})

abbrev unexpected_type : String → Object → Response
unexpected_type expected object =
    ([], err (plain ("expected " <> (expected <> (", got " <> type_name object)))))

-- KopiaBackupCustomValidator
unfoldable pub validate_create_backup : (String → List String) → Object → Response
unfolding validate_kopia_backup
validate_create_backup dns_complaints (a_backup b) = ([], validate_kopia_backup dns_complaints b)
validate_create_backup dns_complaints (a_repository r) =
    unexpected_type "KopiaBackup" (a_repository r)
validate_create_backup dns_complaints (something_else t) =
    unexpected_type "KopiaBackup" (something_else t)

-- The old object is not looked at.
unfoldable pub validate_update_backup : (String → List String) → Object → Object → Response
unfolding validate_create_backup
validate_update_backup dns_complaints old = validate_create_backup dns_complaints

unfoldable pub validate_delete_backup : Object → Response
validate_delete_backup object = ([], ok tt)

-- KopiaRepositoryCustomValidator
unfoldable pub validate_create_repository : Object → Response
unfolding validate_kopia_repository
validate_create_repository (a_repository r) = validate_kopia_repository r
validate_create_repository (a_backup b) = unexpected_type "KopiaRepository" (a_backup b)
validate_create_repository (something_else t) = unexpected_type "KopiaRepository" (something_else t)

unfoldable pub validate_update_repository : Object → Object → Response
unfolding validate_create_repository
validate_update_repository old = validate_create_repository

unfoldable pub validate_delete_repository : Object → Response
validate_delete_repository object = ([], ok tt)
