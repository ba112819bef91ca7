-- ===== src/ChainBoot.antt =====
-- chainboot/: the staging allocator.
pub mod StageAlloc
