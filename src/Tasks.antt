-- ===== src/Tasks.antt =====
-- The background tasks: backend/internal/model/schema.go (the row), repository/task_repository.go
-- (the SQL statements) and service/task_service.go (the service and its workers).
pub mod Model
pub mod Repository
pub mod World
pub mod Retry
pub mod Payload
pub mod Pages
pub mod Create
pub mod Control
pub mod Execute
pub mod Run
pub mod Worker
pub mod Service
pub mod Validity
pub mod Canceled
pub mod Outcome
