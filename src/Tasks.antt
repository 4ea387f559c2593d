-- ===== src/Tasks.antt =====
-- The tasks of the server: the rows, the guardrails of their statuses and the actions on them.
pub mod Table
pub mod Guardrails
