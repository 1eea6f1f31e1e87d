-- ===== src/BackupController.antt =====
-- internal/controller/kopiabackup/reconciler.go
pub mod Setup
pub mod Finalizer
pub mod Dependencies
pub mod Credentials
pub mod Placement
pub mod Resources
pub mod Reconcile
pub mod Watches
pub mod JobPods
pub mod Ready
pub mod Overwritten
pub mod SharedConfig
pub mod Waiting
pub mod Cleanup
pub mod Deletion
pub mod FinalizerFirst
pub mod Missed
pub mod Verdict
