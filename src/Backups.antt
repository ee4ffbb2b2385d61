-- ===== src/Backups.antt =====
-- Backups: backend/internal/repository/backup_repository.go and
-- backend/internal/service/backup_service.go.
pub mod Store
pub mod Names
pub mod World
pub mod Service
pub mod Retention
pub mod Artifact
