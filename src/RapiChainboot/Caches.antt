-- ===== src/RapiChainboot/Caches.antt =====
-- chainboot/rapi_chainboot.cpp: DoChainBoot and the stub with the caches of the board between them and
-- the memory. The caches and the instructions on them are parameters.

pub mod Sweep
pub mod Carries
use rapi_bootloader.Base.{
  ℕ, zero, suc, ◌+◌, ◌-◌, ◌/◌, ◌%◌, ◌≤◌, ◌<◌, ◌≡◌, ◌⊎◌, ◌==◌, if◌then◌else◌, get_or, Bytes,
}
use rapi_bootloader.Circle.{mem_kernel_start, mem_highmem_start}
use rapi_bootloader.Memory.{Memory, write}
use rapi_bootloader.RapiChainboot.{Statics, rapi_stub_max_size}
use rapi_bootloader.RapiChainboot.Handoff.{arm_dtb_ptr32, u32_bytes, stub_words}

-- `coherent` is the memory as the loader sees it through its caches, and `dram` what a payload finds that
-- has no caches yet. `store` is an ordinary write; `load32` and `store32` are accesses with the MMU off.
pub record Caches : Type 1 where
  pub State : Type 0
  pub coherent : State → Memory
  pub dram : State → Memory
  pub store : State → ℕ → Bytes → State
  pub clean_data_cache : State → State
  pub clean_data_cache_range : State → ℕ → ℕ → State
  pub clean_and_invalidate_data_cache_range : State → ℕ → ℕ → State
  pub caches_off : State → State
  pub dc_civac : State → ℕ → State
  pub load32 : State → ℕ → State × Bytes
  pub store32 : State → ℕ → Bytes → State

-- The lines from MEM_KERNEL_START to the first gigabyte.
abbrev pub sweep_lines : ℕ
sweep_lines = (mem_highmem_start - mem_kernel_start) / 64

module _ (c : Caches) where
  open c use {
    State, coherent, dram, store, clean_data_cache, clean_data_cache_range,
    clean_and_invalidate_data_cache_range, caches_off, dc_civac, load32, store32,
  }

  -- The loop of `dc civac` over so many lines of 64 bytes.
  unfoldable pub sweep : ℕ → ℕ → State → State
  sweep zero at w = w
  sweep (suc n) at w = sweep n (at + 64) (dc_civac w at)

  -- The loop of the stub that copies words.
  unfoldable pub copy_uncached : ℕ → ℕ → ℕ → State → State
  copy_uncached zero source target w = w
  copy_uncached (suc n) source target w =
      let loaded = load32 w source in
      copy_uncached n (source + 4) (target + 4) (store32 loaded.0 target loaded.1)

  -- `RapiChainBootStub`, up to the jump to the payload.
  unfoldable pub run_stub : ℕ → ℕ → State → State
  unfolding sweep copy_uncached
  run_stub image image_size w =
      let evicted = sweep sweep_lines mem_kernel_start w in
      let copied = copy_uncached (stub_words image_size) image mem_kernel_start evicted in
      sweep sweep_lines mem_kernel_start copied

  -- The slot of the device tree, written with the caches on.
  unfoldable pub store_slot : Statics → State → State
  store_slot s w = if s.dtb_copy == 0 then w else store w arm_dtb_ptr32 (u32_bytes s.dtb_copy)

  -- The device tree and the line of the slot.
  unfoldable pub clean_tree : Statics → State → State
  clean_tree s w =
      let cleaned = clean_data_cache_range w s.dtb_copy s.dtb_size in
      if s.dtb_copy == 0
      then w
      else clean_and_invalidate_data_cache_range cleaned (arm_dtb_ptr32 - arm_dtb_ptr32 % 64) 64

  -- `DoChainBoot`
  unfoldable pub hand_off : Statics → State → State
  unfolding run_stub store_slot clean_tree
  hand_off s w =
      let cleaned = clean_data_cache (store_slot s w) in
      let stub = clean_data_cache_range cleaned s.stub rapi_stub_max_size in
      let image = clean_data_cache_range stub s.kernel_image s.kernel_size in
      run_stub s.kernel_image s.kernel_size (caches_off (clean_tree s image))

  -- The laws of the caches speak of `value`, what DRAM comes to hold at an address once the lines with
  -- it are written back, and of the addresses that are settled: no cache holds data of them that is
  -- older than the last write, so that accesses past the caches are in order.
  module _ (value : State → Memory) (settled : State → ℕ → Type 0) where
    -- Nothing happens to an address between two states.
    pub record Keeps (w w' : State) (a : ℕ) : Type 0 where
      pub same_value : value w' a ≡ value w a
      pub still_settled : settled w a → settled w' a
      pub still_home : dram w a ≡ value w a → dram w' a ≡ value w' a

    -- The address is settled, and its data are in DRAM.
    pub record IsHome (w : State) (a : ℕ) : Type 0 where
      pub is_settled : settled w a
      pub in_dram : dram w a ≡ value w a

  -- The documented behaviour of the caches and of the instructions on them.
  pub record CacheLaws : Type 1 where
    pub value : State → Memory
    pub settled : State → ℕ → Type 0
    pub store_coherent :
        (w : State) (at : ℕ) (bs : Bytes) (a : ℕ)
        → coherent (store w at bs) a ≡ write (coherent w) at bs a
    -- Set and way reach the caches of the processor alone: what these held may be in the system cache.
    pub cleans : (w : State) (a : ℕ) → value (clean_data_cache w) a ≡ coherent w a
    pub range_keeps :
        (w : State) (at n a : ℕ) → Keeps value settled w (clean_data_cache_range w at n) a
    pub range_homes :
        (w : State) (at n a : ℕ)
        → at ≤ a
        → a < at + n
        → IsHome value settled (clean_data_cache_range w at n) a
    pub invalidate_keeps :
        (w : State) (at n a : ℕ)
        → Keeps value settled w (clean_and_invalidate_data_cache_range w at n) a
    pub invalidate_homes :
        (w : State) (at n a : ℕ)
        → at ≤ a
        → a < at + n
        → IsHome value settled (clean_and_invalidate_data_cache_range w at n) a
    pub off_keeps : (w : State) (a : ℕ) → Keeps value settled w (caches_off w) a
    pub civac_keeps : (w : State) (at a : ℕ) → Keeps value settled w (dc_civac w at) a
    pub civac_homes :
        (w : State) (at a : ℕ)
        → at % 64 ≡ 0
        → at ≤ a
        → a < at + 64
        → IsHome value settled (dc_civac w at) a
    pub load_keeps : (w : State) (at a : ℕ) → Keeps value settled w (load32 w at).0 a
    pub load_value :
        (w : State) (at i : ℕ)
        → i < 4
        → settled w (at + i)
        → get_or (load32 w at).1 i 0 ≡ value w (at + i)
    pub store_keeps :
        (w : State) (at : ℕ) (bs : Bytes) (a : ℕ)
        → (a < at) ⊎ (at + 4 ≤ a)
        → Keeps value settled w (store32 w at bs) a
    -- A store lands in DRAM, or in a line of the system cache. If a line held older data, it could
    -- be written back over the store.
    pub store_value :
        (w : State) (at : ℕ) (bs : Bytes) (i : ℕ)
        → i < 4
        → ((j : ℕ) → j < 4 → settled w (at + j))
        → value (store32 w at bs) (at + i) ≡ get_or bs i 0
