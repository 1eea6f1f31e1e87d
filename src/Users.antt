-- ===== src/Users.antt =====
-- internal/kopia/user/manager.go: the users of a Kopia server.
pub mod Password
pub mod Alphabet
pub mod Commands
pub mod Server
pub mod ExecInPod
pub mod Manager
pub mod Redactor
pub mod Sync
pub mod SecretName
