-- ===== src/Tests/Board.antt =====
-- A small board for the tests: heaps that never run out, a chain-boot that notes what was armed, and
-- a card whose open file is the list of its bytes.
use rapi_bootloader.Base.{
  ℕ, ◌+◌, refl, Option, none, some, [], ◌∷◌, ◌++◌, arith, length, Bytes, codes,
}
use rapi_bootloader.ChainBoot.StageAlloc.{MemoryMap}
use rapi_bootloader.Circle.{HeapType, heap_high, heap_low, MemorySystem, Machine, ChainLoader}
use rapi_bootloader.FatFs.{FatFs, fr_ok}
use rapi_bootloader.Memory.{Memory, AllBytes, write}
use rapi_bootloader.Memory.Laws.{AllBytes-write}
use rapi_bootloader.Tftp.SdWrite.{WritesAppend}

abbrev heap_base : HeapType → ℕ
heap_base heap_high = 0x4000_0000
heap_base heap_low = 0x20_0000

abbrev pub board : MemorySystem
board = record {
  Heap = ℕ;
  kernel_max_size = 0x1000;
  get_high_mem_size = 0x1000_0000;
  get_heap_free_space = λ h t. 0x1000_0000;
  allocate = λ h t n. (h + n, heap_base t + h);
}

-- The same board with no high memory.
abbrev pub small_board : MemorySystem
small_board = record {
  Heap = ℕ;
  kernel_max_size = 0x1000;
  get_high_mem_size = 0;
  get_heap_free_space = λ h t. 0x1000_0000;
  allocate = λ h t n. (h + n, heap_base t + h);
}

pub board-MemoryMap : MemoryMap board
board-MemoryMap = record {
  kernel_below_high = omega arith;
  low_heap = λ h n k. omega arith;
  high_heap = λ h n p k. omega arith;
}

abbrev pub chain : ChainLoader ℕ
chain = record {
  Boot = Option (ℕ × ℕ);
  enable_chain_boot = λ m image image_size. record m { boot = some (image, image_size) };
  armed = λ b. b;
  armed-enable_chain_boot = λ m image image_size real. refl;
}

abbrev pub card : FatFs
card = record {
  Card = ℕ;
  File = Bytes;
  ff_max_lfn = 255;
  f_open = λ c path mode. (c, fr_ok, []);
  f_close = λ c f. c;
  f_size = λ f. length f;
  f_read = λ c f n. (c, f, fr_ok, []);
  f_write = λ c f bs. (c, f ++ bs, fr_ok, length bs);
  f_mkdir = λ c path. (c, fr_ok);
}

abbrev pub card-WritesAppend : WritesAppend card
card-WritesAppend = record { contents = λ c f. f; appends = λ c f bs h k. refl }

abbrev pub blank : Memory
blank = λ a. 0

-- An image at 0 with a defaults block of 512 bytes.
abbrev pub block_image : Memory
block_image = write blank 0x800 (codes "PM8D" ++ 0 ∷ 2 ∷ [])

pub block_image-AllBytes : AllBytes block_image
block_image-AllBytes = AllBytes-write blank 0x800 _ (omega arith) (λ a. omega arith)

abbrev pub machine : Machine ℕ (Option (ℕ × ℕ))
machine = record { memory = block_image; heap = 0; boot = none }
