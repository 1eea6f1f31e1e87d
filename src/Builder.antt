-- ===== src/Builder.antt =====
-- internal/controller/kopiabackup/builder.go
pub mod Path
pub mod Command
pub mod Modes
pub mod Job
pub mod Config
pub mod Volumes
