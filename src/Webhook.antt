-- ===== src/Webhook.antt =====
-- The validating webhooks (api/backup/v1alpha1/*_webhook.go). The API machinery decodes the objects,
-- and its IsDNS1123Subdomain is a parameter: the complaints about a name.
pub mod Fields
pub mod Schedule
pub mod Storage
pub mod Admission
use kopia_operator.Prelude.{
  ℕ, String, ◌<>◌, true, ◌&&◌, List, [], ◌∷◌, ◌++◌, nat_eq, ◌==◌, if◌then◌else◌,
}
use kopia_operator.Prelude.Lists.{length}
use kopia_operator.Prelude.Decimal.{decimal}
use kopia_operator.Prelude.Quote.{quote}
use kopia_operator.Prelude.Text.{join}
use kopia_operator.Error.{Error, plain, wrap, error_text}
use kopia_operator.Exec.{Result, ok, err}
use kopia_operator.Api.Backup.{Backup}
use kopia_operator.Api.Repository.{Repository, storage_type_filesystem, storage_type_sftp}
use kopia_operator.Webhook.Fields.{fields}

unfoldable pub validate_cron_schedule : String → Result (Unit {0})
validate_cron_schedule schedule =
    let n = length (fields schedule) in
    if nat_eq n 5
    then ok tt
    else err (
        plain (
          "must have exactly 5 fields (minute hour day-of-month month day-of-week), got "
          <> decimal n))

-- The complaint that an error adds to the list.
abbrev complaint : String → Result (Unit {0}) → List String
complaint field (ok _) = []
complaint field (err e) = (field <> (": " <> error_text e)) ∷ []

abbrev complaints : String → List String → List String
complaints field [] = []
complaints field (e ∷ errs) = (field <> (": " <> join "; " (e ∷ errs))) ∷ []

abbrev pub verdict : List String → Result (Unit {0})
verdict [] = ok tt
verdict (e ∷ errs) = err (plain ("validation failed: " <> join ", " (e ∷ errs)))

-- It never warns.
unfoldable pub validate_kopia_backup : (String → List String) → Backup → Result (Unit {0})
unfolding validate_cron_schedule
validate_kopia_backup dns_complaints b = verdict (
    complaint "spec.schedule" (validate_cron_schedule b.spec.schedule)
    ++ complaints "spec.pvcName" (dns_complaints b.spec.pvc_name))

-- `if value == "" { allErrs = append(allErrs, message) }`
abbrev required : String → String → List String
required v message = if v == "" then message ∷ [] else []

unfoldable pub storage_complaints : Repository → List String
storage_complaints repo =
    let sftp = repo.spec.sftp_options in
    if repo.spec.storage_type == storage_type_filesystem
    then required repo.spec.file_system_options.path
        "spec.fileSystemOptions.path is required when storageType is \"filesystem\""
    else if repo.spec.storage_type == storage_type_sftp
    then required sftp.path "spec.sftpOptions.path is required when storageType is \"sftp\""
      ++ (required sftp.host "spec.sftpOptions.host is required when storageType is \"sftp\""
          ++ required sftp.credentials_secret
              "spec.sftpOptions.credentialsSecret is required when storageType is \"sftp\"")
    else ("unsupported storageType "
        <> (quote repo.spec.storage_type
            <> (", must be one of: "
                <> (quote storage_type_filesystem <> (", " <> quote storage_type_sftp)))))
      ∷ []

unfoldable pub server_warnings : Repository → List String
server_warnings repo =
    if repo.spec.server.enabled && repo.spec.server.admin_password_secret_name == ""
    then "server.adminPasswordSecretName not set; repository password secret will be used for the server admin password"
      ∷ []
    else []

-- The warnings and the verdict.
unfoldable pub validate_kopia_repository : Repository → List String × Result (Unit {0})
unfolding storage_complaints server_warnings
validate_kopia_repository repo = (server_warnings repo, verdict (storage_complaints repo))
