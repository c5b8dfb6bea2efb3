-- ===== src/Factory.antt =====
-- The allocator across candidate factories: src/quant_pipeline/candidates/factory_allocation.py.
pub mod Metadata
pub mod Frontier
pub mod Tests
