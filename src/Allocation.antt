-- ===== src/Allocation.antt =====
-- The exact byte allocator of src/quant_pipeline/allocation/global_dp.py and what it shares with the
-- allocator across candidate factories.
pub mod Candidate
pub mod Staircase
pub mod Table
pub mod Round
pub mod Fill
pub mod GlobalDp
mod Tests
