-- ===== src/ChainBoot/StageAlloc.antt =====
-- chainboot/stagealloc.cpp: where an image is staged.
use rapi_bootloader.Base.{ℕ, ◌≤◌, ◌<◌, ◌≡◌, ◌≢◌, false, ◌&&◌, map, arith, leb, if◌then◌else◌}
use rapi_bootloader.Circle.{heap_high, heap_low, MemorySystem, mem_highmem_start, mem_kernel_end}

module _ (ms : MemorySystem) where
  open ms use {Heap, get_high_mem_size, get_heap_free_space, allocate}

  unfoldable pub stage_alloc : Heap → ℕ → Heap × ℕ
  stage_alloc h n =
      if leb n get_high_mem_size && leb n (get_heap_free_space h heap_high)
      then allocate h heap_high n
      else if leb n (get_heap_free_space h heap_low)
      then allocate h heap_low n
      else (h, 0)

  -- The Circle memory map: the low heap starts above the kernel's region, the high heap, on a board
  -- that has high memory, at 1 GB.
  pub record MemoryMap : Type 0 where
    pub kernel_below_high : mem_kernel_end ms ≤ mem_highmem_start
    pub low_heap :
        (h : Heap) (n : ℕ)
        → (allocate h heap_low n).1 ≢ 0
        → mem_kernel_end ms ≤ (allocate h heap_low n).1
    pub high_heap :
        (h : Heap) (n : ℕ)
        → 0 < get_high_mem_size
        → (allocate h heap_high n).1 ≢ 0
        → mem_highmem_start ≤ (allocate h heap_high n).1

  -- On every board that keeps the memory map, a buffer that StageAlloc returns for at least one
  -- byte lies above the region that a chain-boot copies the kernel to.
  pub stage_alloc_clear :
      MemoryMap
      → (h : Heap) (n : ℕ) → 0 < n
      → (stage_alloc h n).1 ≢ 0
      → mem_kernel_end ms ≤ (stage_alloc h n).1
  unfolding stage_alloc
  stage_alloc_clear map h n pos got =
      ground (arith, map.kernel_below_high, map.low_heap h n, map.high_heap h n)

-- A board with no high memory never has its high heap used: whatever that heap reports or returns,
-- StageAlloc of at least one byte takes the low heap when it has room, and is null otherwise.
pub stage_alloc_low_only :
    (ms : MemorySystem) (h : ms.Heap) (n : ℕ)
    → 0 < n
    → ms.get_high_mem_size ≡ 0
    → stage_alloc ms h n
      ≡ (if leb n (ms.get_heap_free_space h heap_low) then ms.allocate h heap_low n else (h, 0))
unfolding stage_alloc
stage_alloc_low_only ms h n pos low =
    let e : leb n ms.get_high_mem_size ≡ false = ground arith in rw (e, stage_alloc)
