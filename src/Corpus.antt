-- ===== src/Corpus.antt =====
-- The sealed calibration corpus: src/quant_pipeline/calibration/windows.py.
pub mod Documents
pub mod Split
pub mod Windows
pub mod Seal
pub mod Tests
