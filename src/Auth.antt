-- ===== src/Auth.antt =====
-- The authentication of internal/api: middleware.go, the role levels and the API key handlers of
-- keys.go, and their order in server.go. A handler maps a request to a reply, and a middleware maps
-- handlers to handlers. The JWT library and the table of API keys are parameters.
pub mod Requests
pub mod Middleware
pub mod Keys
pub mod Credentials
pub mod Writes
pub mod Uploads
pub mod KeyRoles
mod Tests
