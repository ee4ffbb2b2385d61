-- ===== src/Files.antt =====
-- backend/internal/service/file_service.go: the files of the host, read and written through the core
-- agent.
pub mod Agent
mod Rounds
pub mod Service
pub mod Download
pub mod Upload
pub mod Answers
pub mod RoundTrip
