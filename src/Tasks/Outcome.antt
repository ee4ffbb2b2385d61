-- ===== src/Tasks/Outcome.antt =====
-- What a worker makes of a claimed restart task when nothing else takes the task away: one call of
-- the service, and a row that says how it went.
pub mod Held
pub mod Ended
pub mod Operation
pub mod Restart
