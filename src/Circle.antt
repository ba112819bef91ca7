-- ===== src/Circle.antt =====
-- What the loaders take from the Circle framework: its heaps, the machine state that a boot changes,
-- and the arming of a chain-boot. On the Pi 3 and Pi 4 the arming is Circle's own; on the Pi 5 it is
-- chainboot/rapi_chainboot.cpp.
use rapi_bootloader.Base.{ℕ, ◌+◌, ◌≡◌, ◌≢◌, Option, some}
use rapi_bootloader.Memory.{Memory}

pub data HeapType : Type 0 where
  heap_high heap_low : HeapType

-- `CMemorySystem`. `allocate` is `new (type) u8[n]`: the heap after it, and the address (0 is null).
pub record MemorySystem : Type 1 where
  pub Heap : Type 0
  pub kernel_max_size : ℕ
  pub get_high_mem_size : ℕ
  pub get_heap_free_space : Heap → HeapType → ℕ
  pub allocate : Heap → HeapType → ℕ → Heap × ℕ

abbrev pub mem_kernel_start : ℕ
mem_kernel_start = 0x80000

abbrev pub mem_highmem_start : ℕ
mem_highmem_start = 0x4000_0000

abbrev pub mem_kernel_end : MemorySystem → ℕ
mem_kernel_end ms = mem_kernel_start + ms.kernel_max_size

pub record Machine (Heap Boot : Type 0) : Type 0 where
  pub memory : Memory
  pub heap : Heap
  pub boot : Boot

-- The chain-boot that `EnableChainBoot` arms: what is armed is the image and its size.
pub record ChainLoader (Heap : Type 0) : Type 1 where
  pub Boot : Type 0
  pub enable_chain_boot : Machine Heap Boot → ℕ → ℕ → Machine Heap Boot
  pub armed : Boot → Option (ℕ × ℕ)
  pub armed-enable_chain_boot :
      (m : Machine Heap Boot) (image image_size : ℕ)
      → image ≢ 0
      → armed (enable_chain_boot m image image_size).boot ≡ some (image, image_size)
