-- ===== src/Tests.antt =====
-- The development at concrete inputs.
mod Data
mod Tables
mod Service
mod Rules
mod Login
mod Pages
mod Auth
mod Gate
mod Backups
mod Files
