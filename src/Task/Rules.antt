-- ===== src/Task/Rules.antt =====
-- How the writing methods of the task service end, whatever MySQL does.
pub mod Update
pub mod Delete
pub mod Others
