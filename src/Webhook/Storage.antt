-- ===== src/Webhook/Storage.antt =====
-- Which repositories the webhook accepts.
use kopia_operator.Prelude.{
  String, ◌≡◌, ◌≢◌, ◌↔◌, ◌⊎◌, refl, inl, inr, List, [], ◌∷◌, Bool-cases, arith, ◌==◌, eq_iff,
}
use kopia_operator.Exec.{ok}
use kopia_operator.Api.Repository.{Repository}
use kopia_operator.Webhook.{verdict, storage_complaints, validate_kopia_repository}

-- The options that a storage type needs.
abbrev pub IsComplete : Repository → Type 0
IsComplete repo =
    ((repo.spec.storage_type ≡ "filesystem") × (repo.spec.file_system_options.path ≢ ""))
    ⊎ ((repo.spec.storage_type ≡ "sftp")
        × (repo.spec.sftp_options.path ≢ "")
        × (repo.spec.sftp_options.host ≢ "")
        × (repo.spec.sftp_options.credentials_secret ≢ ""))

verdict_iff : (l : List String) → (verdict l ≡ ok tt) ↔ (l ≡ [])
verdict_iff [] = (λ _. refl, λ _. refl)
verdict_iff (e ∷ errs) = (λ h. cc, λ h. cc)

storage_complaints_iff : (repo : Repository) → (storage_complaints repo ≡ []) ↔ IsComplete repo
unfolding storage_complaints
storage_complaints_iff repo =
    let type = repo.spec.storage_type in
    elim (Bool-cases (type == "filesystem")) [
      | inl file ↦
          rw (file, storage_complaints)
            (ground (
              arith,
              file,
              eq_iff type "filesystem",
              eq_iff "filesystem" "sftp",
              eq_iff repo.spec.file_system_options.path "",
            ))
      | inr other ↦ elim (Bool-cases (type == "sftp")) [
        | inl sftp ↦
            rw (other, sftp, storage_complaints)
              (ground (
                arith,
                other,
                sftp,
                eq_iff type "filesystem",
                eq_iff type "sftp",
                eq_iff repo.spec.sftp_options.path "",
                eq_iff repo.spec.sftp_options.host "",
                eq_iff repo.spec.sftp_options.credentials_secret "",
              ))
        | inr none ↦
            rw (other, none, storage_complaints)
              (ground (arith, other, none, eq_iff type "filesystem", eq_iff type "sftp"))
      ]
    ]

-- The webhook accepts a repository exactly when its storage type is one of the two known ones and the
-- options that this type needs are all given.
pub validate_kopia_repository_iff :
    (repo : Repository) → ((validate_kopia_repository repo).1 ≡ ok tt) ↔ IsComplete repo
unfolding validate_kopia_repository
validate_kopia_repository_iff repo =
    let (to, from) = verdict_iff (storage_complaints repo) in
    let (to', from') = storage_complaints_iff repo in (λ h. to' (to h), λ h. from (from' h))
