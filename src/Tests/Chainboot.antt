-- ===== src/Tests/Chainboot.antt =====
-- The Pi 5 chain-boot at concrete inputs.
use rapi_bootloader.Base.{ℕ, ◌+◌, ◌≡◌, refl, ◌⊎◌, inl, inr, true, false, [], ◌∷◌, arith}
use rapi_bootloader.ChainBoot.StageAlloc.{stage_alloc}
use rapi_bootloader.RapiChainboot.Refines.{
  run_calls, run_abstract, asks, arms, returns, run_calls-run_abstract,
}
use rapi_bootloader.RapiChainboot.Boots.{KeepsImage, enable_chain_boot-enters, Apart}
use rapi_bootloader.RapiChainboot.Handoff.{do_chain_boot, arm_dtb_ptr32}
use rapi_bootloader.RapiChainboot.DeviceTree.{Unchanged, Copied, capture_dtb-Copied}
use rapi_bootloader.RapiChainboot.{
  MachineInfo, Statics, initial, capture_dtb, stage_dtb, is_device_tree, parser_agrees, be_word,
  le_number, enable_chain_boot, main_returning, is_chain_boot_enabled, answers, hands_off,
}
use rapi_bootloader.Memory.{Memory, read, write}
use rapi_bootloader.Circle.{Machine, heap_high, heap_low, mem_kernel_start, HeapType}
use rapi_bootloader.Tests.Board.{board, board-MemoryMap, blank}

abbrev pub new_bytes : ℕ → ℕ → ℕ × ℕ
new_bytes h n = (h + n, 0x20_0000 + h)

-- A tree of 64 bytes at 0x20000, whose address lies at 0x100.
abbrev tree : Memory
tree = write (write blank 0x100 (0 ∷ 0 ∷ 2 ∷ 0 ∷ [])) 0x20000 (
    0xd0 ∷ 0x0d ∷ 0xfe ∷ 0xed ∷ 0 ∷ 0 ∷ 0 ∷ 64 ∷ 0 ∷ 0 ∷ 0 ∷ 0 ∷ 0 ∷ 0 ∷ 0 ∷ 0 ∷ 0 ∷ 0 ∷ 0 ∷ 0 ∷ 0
    ∷ 0 ∷ 0 ∷ 0 ∷ 0 ∷ 0 ∷ 0 ∷ 16 ∷ [])

abbrev pub info : MachineInfo
info = record {
  get_dtb = 0x100;
  find_node = λ m name. 1;
  find_property = λ m node name. 2;
  get_property_value_length = λ m property. 6;
  get_property_value = λ m property. 0x20030;
}

abbrev started : Machine ℕ Statics
started = record { memory = tree; heap = 0; boot = initial }

capture_dtb-Copied_example :
    Unchanged board info new_bytes 0x1_0000 started
      (capture_dtb board info new_bytes 0x1_0000 started)
    ⊎ Copied board info new_bytes 0x1_0000 started
        (capture_dtb board info new_bytes 0x1_0000 started)
capture_dtb-Copied_example =
    capture_dtb-Copied board info new_bytes 0x1_0000 started board-MemoryMap

captured_at : (capture_dtb board info new_bytes 0x1_0000 started).boot.dtb_copy ≡ 0x4000_0000
unfolding capture_dtb stage_dtb is_device_tree parser_agrees be_word le_number write stage_alloc
captured_at = refl

-- The heaps of this board never give out anything below 0x20_0000.
staged_above : (h : ℕ) (t : HeapType) (n : ℕ) → Apart (board.allocate h t n).1 n 0x9_0000 0x20
staged_above h heap_high n = inr (omega arith)
staged_above h heap_low n = inr (omega arith)

abbrev board-KeepsImage : KeepsImage board info new_bytes 0x1_0000 0x9_0000 0x20
board-KeepsImage = record {
  holds = λ h. Unit;
  after_staging = λ h t n held. tt;
  staged = λ h t n held real. staged_above h t n;
  stubs = λ h n held. inr (omega arith);
}

enable_chain_boot-enters_example :
    let m' = enable_chain_boot board info new_bytes 0x1_0000 started 0x9_0000 0x20 in
    let s = main_returning m'.boot in
    (is_chain_boot_enabled m'.boot ≡ answers true)
    × (is_chain_boot_enabled s ≡ hands_off)
    × (read (do_chain_boot s m'.memory) mem_kernel_start 0x20 ≡ read tree 0x9_0000 0x20)
    × ((s.dtb_copy ≡ 0) ⊎ (le_number (do_chain_boot s m'.memory) arm_dtb_ptr32 4 ≡ s.dtb_copy))
enable_chain_boot-enters_example =
    enable_chain_boot-enters board info new_bytes 0x1_0000 0x9_0000 0x20 board-KeepsImage started
      board-MemoryMap tt refl (omega arith) (omega arith) (inl refl) (inl refl) refl

run_calls-run_abstract_example :
    run_calls board info new_bytes 0x1_0000
      (asks ∷ arms 0x9_0000 0x20 ∷ asks ∷ returns ∷ asks ∷ [])
      started
    ≡ answers false ∷ answers true ∷ hands_off ∷ []
unfolding run_abstract
run_calls-run_abstract_example =
    run_calls-run_abstract board info new_bytes 0x1_0000
      (asks ∷ arms 0x9_0000 0x20 ∷ asks ∷ returns ∷ asks ∷ []) started ((λ z. omega (arith, z)), tt)
