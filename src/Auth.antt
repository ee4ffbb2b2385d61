-- ===== src/Auth.antt =====
-- Who may use the panel: backend/internal/repository/user_repository.go (users, roles and
-- permissions), backend/internal/service/auth_service.go (logins, sessions and tokens), the
-- middleware in backend/internal/middleware that lets requests through, and the login handler of
-- backend/internal/api/handler/auth_handler.go.
pub mod Users
pub mod Roles
pub mod Env
pub mod Password
pub mod Tokens
pub mod Sessions
pub mod Bootstrap
pub mod Gate
pub mod Calls
pub mod Revoked
pub mod Ended
pub mod Lost
pub mod Credentials
pub mod Stored
pub mod Desk
pub mod Handler
