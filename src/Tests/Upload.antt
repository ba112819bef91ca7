-- ===== src/Tests/Upload.antt =====
-- An upload on a small board, up to the entry of the payload.
use rapi_bootloader.Base.{
  ℕ, ◌≤◌, ◌≡◌, refl, inl, inr, true, false, [], ◌∷◌, arith, codes, starts_with,
}
use rapi_bootloader.Tftp.Enters.{update_status-enters}
use rapi_bootloader.Tftp.Push.{Closed}
use rapi_bootloader.Tftp.Finish.{update_status}
use rapi_bootloader.Tftp.Buffers.{fnv1a}
use rapi_bootloader.Tftp.{
  TftpWorld, init, fnv_offset_basis, status_write_completed, status_write_aborted,
}
use rapi_bootloader.HttpBoot.Enters.{pi_5, get_content-enters}
use rapi_bootloader.HttpBoot.{Part, Pages, HttpWorld, is_kernel_part, contains, get_content}
use rapi_bootloader.RapiChainboot.Boots.{Apart, KeepsImage}
use rapi_bootloader.RapiChainboot.Handoff.{do_chain_boot}
use rapi_bootloader.RapiChainboot.{
  MachineInfo, initial, main_returning, is_chain_boot_enabled, hands_off,
}
use rapi_bootloader.Memory.{read}
use rapi_bootloader.ChainBoot.StageAlloc.{stage_alloc, MemoryMap}
use rapi_bootloader.Circle.{HeapType, heap_high, heap_low, mem_kernel_start}
use rapi_bootloader.Tests.Chainboot.{new_bytes}
use rapi_bootloader.Tests.Board.{small_board, blank, card}

small_board-MemoryMap : MemoryMap small_board
small_board-MemoryMap = record {
  kernel_below_high = omega arith;
  low_heap = λ h n k. omega arith;
  high_heap = λ h n p k. omega (arith, p);
}

abbrev no_info : MachineInfo
no_info = record {
  get_dtb = 0;
  find_node = λ m name. 0;
  find_property = λ m node name. 0;
  get_property_value_length = λ m property. 0;
  get_property_value = λ m property. 0;
}

abbrev uploaded : Part
uploaded = record {
  header = codes "name=\"kernelimg\"; filename=\"kernel8.img\"";
  data_bytes = 1 ∷ 2 ∷ 3 ∷ [];
}

uploaded-kernel : is_kernel_part uploaded ≡ true
unfolding is_kernel_part contains starts_with
uploaded-kernel = refl

abbrev small_pages : Pages
small_pages = record { index_page = λ message. message; style = []; favicon = [] }

abbrev small_world : HttpWorld small_board (pi_5 small_board no_info new_bytes 0x1_0000)
small_world = record {
  machine = record { memory = blank; heap = 0; boot = initial };
  reboot_requested = false;
}

staged_low : stage_alloc small_board 0 3 ≡ (3, 0x20_0000)
unfolding stage_alloc
staged_low = refl

-- After the image is staged, both heaps go on behind it.
small_staged :
    (h : ℕ) (t : HeapType) (n : ℕ) → 3 ≤ h → Apart (small_board.allocate h t n).1 n 0x20_0000 3
small_staged h heap_high n held = inr (omega (arith, held))
small_staged h heap_low n held = inr (omega (arith, held))

abbrev small_keeps : KeepsImage small_board no_info new_bytes 0x1_0000 0x20_0000 3
small_keeps = record {
  holds = λ h. 3 ≤ h;
  after_staging = λ h t n held. omega (arith, held);
  staged = λ h t n held real. small_staged h t n held;
  stubs = λ h n held. inr (omega (arith, held));
}

get_content-enters_example :
    let m' =
      (get_content small_board
        (pi_5 small_board no_info new_bytes 0x1_0000)
        small_pages
        small_world
        (codes "/")
        (uploaded ∷ [])
        4000).0.machine in
    let s = main_returning m'.boot in
    (is_chain_boot_enabled s ≡ hands_off)
    × (read (do_chain_boot s m'.memory) mem_kernel_start 3 ≡ 1 ∷ 2 ∷ 3 ∷ [])
unfolding stage_alloc
get_content-enters_example =
    get_content-enters small_board no_info new_bytes 0x1_0000 small_pages small_world uploaded 4000
      uploaded-kernel (λ z. omega (arith, z)) (omega arith) small_board-MemoryMap refl small_keeps
      (omega arith) (inl refl) (inl refl) refl

-- A push of three bytes waits for its verdict.
abbrev pushed : TftpWorld small_board (pi_5 small_board no_info new_bytes 0x1_0000) card
pushed = record {
  server = record (init 0x1000 3 [] blank) {
    kernel_buffer = 0x20_0000;
    kernel_closed = true;
    kernel_hash = fnv1a fnv_offset_basis (0 ∷ 0 ∷ 0 ∷ []);
  };
  machine = record { memory = blank; heap = 3; boot = initial };
  card = 0;
}

pushed-Closed :
    Closed small_board (pi_5 small_board no_info new_bytes 0x1_0000) card pushed (0 ∷ 0 ∷ 0 ∷ [])
unfolding init read
pushed-Closed = record {
  idle = refl;
  buffer = omega arith;
  size = refl;
  bytes = refl;
  hash = refl;
  closed = refl;
}

update_status-enters_example :
    let pi = pi_5 small_board no_info new_bytes 0x1_0000 in
    let done = (update_status small_board pi card pushed status_write_completed).machine in
    let aborted = (update_status small_board pi card pushed status_write_aborted).machine in
    let s = main_returning done.boot in
    (is_chain_boot_enabled s ≡ hands_off)
    × (read (do_chain_boot s done.memory) mem_kernel_start 3 ≡ 0 ∷ 0 ∷ 0 ∷ [])
    × (is_chain_boot_enabled (main_returning aborted.boot)
        ≡ is_chain_boot_enabled (main_returning initial))
unfolding init
update_status-enters_example =
    update_status-enters small_board no_info new_bytes 0x1_0000 card pushed (0 ∷ 0 ∷ 0 ∷ [])
      pushed-Closed refl (omega arith) (omega arith) small_board-MemoryMap refl small_keeps
      (omega arith) (inl refl) (inl refl) refl
