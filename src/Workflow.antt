-- ===== src/Workflow.antt =====
-- The interoperability workflows.
pub mod Engine
