-- ===== src/Server.antt =====
-- internal/kopia/server/manager.go: the Kopia server and its certificate.
pub mod Shell
pub mod Reader
pub mod ShellWords
pub mod ShellLine
pub mod DoubleQuotes
pub mod SftpLine
pub mod Script
pub mod Command
pub mod Deployment
pub mod Service
pub mod Tls
pub mod Manager
pub mod Secrets
pub mod Certificate
pub mod Reach
pub mod Drift
pub mod Overwritten
pub mod Stuck
