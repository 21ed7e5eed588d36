-- ===== src/Repository.antt =====
-- internal/repository: one module for each repository, with the SQL of each method.
pub mod Users
pub mod Teams
pub mod Members
pub mod Tasks
pub mod Comments
pub mod History
pub mod Sessions
pub mod Analytics
