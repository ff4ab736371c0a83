-- ===== src/Access.antt =====
-- Who may use an endpoint: the cached user state, the roles guard and the API key guard
-- (src/auth/guards, src/modules/auth).
pub mod UserStatus
pub mod Staleness
pub mod Roles
pub mod RoleChecks
pub mod ApiKey
pub mod KeyChecks
pub mod RateLimit
mod Tests
