-- ===== src/Engine.antt =====
-- sentinel_home/rules/engine.py: `RuleEngine`. `State` holds its attributes and the world around it,
-- `Loading` the two caches, `Matching` and `Windows` the detection, `Firing` the actions and
-- `Evaluate` the two entry points. The clock is read once for each call of an entry point.
pub mod State
pub mod Loading
pub mod Matching
pub mod Windows
pub mod Firing
pub mod Evaluate
pub mod Footprint
pub mod Footstep
pub mod Spacing
pub mod Cooldown
pub mod Quiet
pub mod Distinct
pub mod WindowSpec
mod Examples
