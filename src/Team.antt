-- ===== src/Team.antt =====
-- internal/service/team.go: the team service.
pub mod Service
pub mod Rules
pub mod Laws
pub mod Owners
mod Tests
