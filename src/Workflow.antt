-- ===== src/Workflow.antt =====
-- The workflow engine of server/internal/workflow: definitions of steps, schemas, the check that a
-- definition has no cycle, and the rounds that run it.
pub mod Schema
pub mod Step
pub mod Graph
pub mod Engine
pub mod Pipelines
pub mod Sample
