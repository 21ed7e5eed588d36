-- ===== src/Task.antt =====
-- internal/service/task.go: the task service, in the order of its source.
pub mod Fields
pub mod Patch
pub mod Diff
pub mod Access
pub mod Service
pub mod Rules
pub mod Audit
pub mod Reading
pub mod Atomicity
mod Tests
pub mod Rights
pub mod Records
