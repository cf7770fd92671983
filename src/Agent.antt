-- ===== src/Agent.antt =====
-- sentinel_home/agent: reading the model's answers (validator.py), asking it (`_run_task` of
-- orchestrator.py) and the actor that works through the queue (`ActorOrchestrator`).
pub mod Reading
pub mod Tasks
pub mod Briefs
pub mod Actor
mod Examples
