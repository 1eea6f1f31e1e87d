-- ===== src/Interfaces.antt =====
-- internal/kopia/interfaces.go: the two managers, as the controllers see them.
use kopia_operator.Prelude.{String, Bool}
use kopia_operator.Exec.{Exec}
use kopia_operator.Api.Backup.{Backup}
use kopia_operator.Api.Repository.{Repository}

pub record ServerManager (W : Type 0) : Type 0 where
  pub ensure_server_deployment : Repository → Exec W (Unit {0})
  pub ensure_server_service : Repository → Exec W (Unit {0})
  -- the fingerprint of the certificate
  pub ensure_tls_secret : Repository → Exec W String
  pub is_server_ready : Repository → Exec W Bool
  pub get_server_url : Repository → String

pub record UserManager (W : Type 0) : Type 0 where
  -- the name of the secret with the credentials
  pub ensure_user : Backup → Repository → Exec W String
  pub delete_user : Backup → Repository → Exec W (Unit {0})
