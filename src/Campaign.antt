-- ===== src/Campaign.antt =====
-- The campaign runner: src/quant_pipeline/campaign/runner.py.
pub mod Definition
pub mod Stages
pub mod Journal
pub mod Files
pub mod Gates
pub mod Replay
pub mod Tests
