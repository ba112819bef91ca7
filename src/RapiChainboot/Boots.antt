-- ===== src/RapiChainboot/Boots.antt =====
-- From `EnableChainBoot` to the entry of the payload.
use rapi_bootloader.Base.{
  ℕ, ◌+◌, ◌%◌, ◌≤◌, ◌<◌, ◌≡◌, refl, sym, ap, ◌∙◌, subst, ◌≢◌, ◌⊎◌, inl, inr, true, false, ◌&&◌, map,
  arith, leb, ◌==◌, Bool-cases,
}
use rapi_bootloader.Memory.Laws.{write_outside, read_same, length-read}
use rapi_bootloader.RapiChainboot.Handoff.{arm_dtb_ptr32, do_chain_boot}
use rapi_bootloader.RapiChainboot.Entry.{do_chain_boot-Entered, Entered-slot}
use rapi_bootloader.RapiChainboot.DeviceTree.{InReach, capture_dtb-Copied}
use rapi_bootloader.Memory.{Memory, read}
use rapi_bootloader.Circle.{
  HeapType, MemorySystem, Machine, mem_kernel_start, mem_kernel_end, heap_high, heap_low,
}
use rapi_bootloader.RapiChainboot.{
  MachineInfo, Statics, rapi_stub_max_size, capture_dtb, with_stub, enable_chain_boot, le_number,
  main_returning, is_chain_boot_enabled, answers, hands_off, stage_dtb, be_word, fdt_word_totalsize,
}
use rapi_bootloader.ChainBoot.StageAlloc.{stage_alloc, MemoryMap}

-- Two blocks that share no byte.
abbrev pub Apart : ℕ → ℕ → ℕ → ℕ → Type 0
Apart a n b k = (a + n ≤ b) ⊎ (b + k ≤ a)

module _ (ms : MemorySystem) (info : MachineInfo) (new_bytes : ms.Heap → ℕ → ms.Heap × ℕ)
    (stub_code image image_size : ℕ) where
  -- The capture leaves the heap, or takes a block for the tree.
  heap-capture_dtb :
      (m : Machine ms.Heap Statics)
      → let m' = capture_dtb ms info new_bytes stub_code m in
        let size = be_word m.memory (le_number m.memory info.get_dtb 8) fdt_word_totalsize in
        (m'.heap ≡ m.heap) ⊎ (m'.heap ≡ (stage_alloc ms m.heap size).0)
  unfolding capture_dtb stage_dtb
  heap-capture_dtb m = ground arith

  -- While the image is an allocated block, the heaps give out no block on top of it. `holds` are the
  -- heaps in which it is one.
  pub record KeepsImage : Type 1 where
    pub holds : ms.Heap → Type 0
    pub after_staging : (h : ms.Heap) (t : HeapType) (n : ℕ) → holds h → holds (ms.allocate h t n).0
    pub staged :
        (h : ms.Heap) (t : HeapType) (n : ℕ)
        → holds h
        → (ms.allocate h t n).1 ≢ 0
        → Apart (ms.allocate h t n).1 n image image_size
    pub stubs : (h : ms.Heap) (n : ℕ) → holds h → Apart (new_bytes h n).1 n image image_size

  module _ (keeps : KeepsImage) where
    stage_alloc-Apart :
        (h : ms.Heap) (n : ℕ)
        → keeps.holds h
        → (stage_alloc ms h n).1 ≢ 0
        → Apart (stage_alloc ms h n).1 n image image_size
    unfolding stage_alloc
    stage_alloc-Apart h n held real = grind (arith, keeps.staged)

    holds-stage_alloc : (h : ms.Heap) (n : ℕ) → keeps.holds h → keeps.holds (stage_alloc ms h n).0
    unfolding stage_alloc
    holds-stage_alloc h n held =
        elim (Bool-cases
          (leb n ms.get_high_mem_size && leb n (ms.get_heap_free_space h heap_high))) [
            | inl high ↦ rw high (keeps.after_staging h heap_high n held)
            | inr low ↦ elim (Bool-cases (leb n (ms.get_heap_free_space h heap_low))) [
              | inl room ↦ rw (low, room) (keeps.after_staging h heap_low n held)
              | inr full ↦ rw (low, full) held
            ]
          ]

    holds-capture_dtb :
        (m : Machine ms.Heap Statics)
        → keeps.holds m.heap
        → keeps.holds (capture_dtb ms info new_bytes stub_code m).heap
    holds-capture_dtb m held = elim (heap-capture_dtb m) [
      | inl same ↦ subst keeps.holds (sym same) held
      | inr grown ↦ subst keeps.holds (sym grown) (holds-stage_alloc m.heap _ held)
    ]

    captured_same :
        (m : Machine ms.Heap Statics) (a : ℕ)
        → MemoryMap ms
        → keeps.holds m.heap
        → image ≤ a
        → a < image + image_size
        → (capture_dtb ms info new_bytes stub_code m).memory a ≡ m.memory a
    captured_same m a map held lo hi = elim (capture_dtb-Copied ms info new_bytes stub_code m map) [
      | inl same ↦ ap (λ (f : Memory). f a) same.1
      | inr c ↦
          let apart = stage_alloc-Apart m.heap c.size held (λ z. c.is_staged (c.from_heap ∙ z)) in
          c.elsewhere a (ground (arith, apart, c.from_heap, lo, hi))
    ]

    stub_Apart :
        (m : Machine ms.Heap Statics)
        → keeps.holds m.heap
        → (m.boot.stub ≡ 0) ⊎ Apart m.boot.stub rapi_stub_max_size image image_size
        → Apart
            (with_stub ms info new_bytes stub_code m).boot.stub
            rapi_stub_max_size
            image
            image_size
    unfolding with_stub
    stub_Apart m held old = ground (arith, keeps.stubs m.heap (rapi_stub_max_size + 63) held)

    -- The static variables after the arming.
    record IsArmed (s : Statics) : Type 0 where
      pub image_kept : s.kernel_image ≡ image
      pub size_kept : s.kernel_size ≡ image_size
      pub reach : InReach ms s
      pub still_running : s.loader_main_returned ≡ false

    noted : Machine ms.Heap Statics → Machine ms.Heap Statics
    noted m = record m { boot = record m.boot { kernel_image = image; kernel_size = image_size } }

    captured-IsArmed :
        (m : Machine ms.Heap Statics)
        → MemoryMap ms
        → InReach ms m.boot
        → m.boot.loader_main_returned ≡ false
        → IsArmed (capture_dtb ms info new_bytes stub_code (noted m)).boot
    unfolding noted
    captured-IsArmed m map reach running =
        elim (capture_dtb-Copied ms info new_bytes stub_code (noted m) map) [
          | inl same ↦ rw same.0 (record {
            image_kept = refl;
            size_kept = refl;
            reach = reach;
            still_running = running;
          })
          | inr c ↦ record {
            image_kept = ap (λ (s : Statics). s.kernel_image) c.boots_with;
            size_kept = ap (λ (s : Statics). s.kernel_size) c.boots_with;
            still_running = ap (λ (s : Statics). s.loader_main_returned) c.boots_with ∙ running;
            reach = inr (
              c.above,
              subst (λ n. _ + n ≤ 0x1_0000_0000)
                  (sym (ap (λ (s : Statics). s.dtb_size) c.boots_with)) c.addressable,
              subst (λ n. 0 < n) (sym (ap (λ (s : Statics). s.dtb_size) c.boots_with)) c.some_bytes,
            );
          }
        ]

    stubbed-IsArmed :
        (m : Machine ms.Heap Statics)
        → IsArmed m.boot
        → IsArmed (with_stub ms info new_bytes stub_code m).boot
    unfolding with_stub
    stubbed-IsArmed m h = elim (Bool-cases (m.boot.stub == 0)) [
      | inl e ↦ rw e (record {
        image_kept = h.image_kept;
        size_kept = h.size_kept;
        reach = h.reach;
        still_running = h.still_running;
      })
      | inr e ↦ rw e h
    ]

    captured_stub :
        (m : Machine ms.Heap Statics)
        → MemoryMap ms
        → (capture_dtb ms info new_bytes stub_code (noted m)).boot.stub ≡ m.boot.stub
    unfolding noted
    captured_stub m map = elim (capture_dtb-Copied ms info new_bytes stub_code (noted m) map) [
      | inl same ↦ ap (λ (s : Statics). s.stub) same.0
      | inr c ↦ ap (λ (s : Statics). s.stub) c.boots_with
    ]

    stubbed_memory :
        (m : Machine ms.Heap Statics) → (with_stub ms info new_bytes stub_code m).memory ≡ m.memory
    unfolding with_stub
    stubbed_memory m = ground arith

    armed_image :
        (m : Machine ms.Heap Statics)
        → MemoryMap ms
        → keeps.holds m.heap
        → (m.boot.stub ≡ 0) ⊎ Apart m.boot.stub rapi_stub_max_size image image_size
        → read
            (enable_chain_boot ms info new_bytes stub_code m image image_size).memory
            image
            image_size
          ≡ read m.memory image image_size
    unfolding enable_chain_boot noted
    armed_image m map held old =
        let captured = capture_dtb ms info new_bytes stub_code (noted m) in
        let old_stub =
          subst (λ n. (n ≡ 0) ⊎ Apart n rapi_stub_max_size image image_size)
            (sym (captured_stub m map)) old in
        let apart = stub_Apart captured (holds-capture_dtb (noted m) held) old_stub in
        let staged = with_stub ms info new_bytes stub_code captured in
        let code = read staged.memory stub_code rapi_stub_max_size in
        read_same _ m.memory image image_size (λ a lo hi.
          write_outside staged.memory staged.boot.stub code a
            (ground (arith, apart, lo, hi, length-read staged.memory stub_code rapi_stub_max_size))
          ∙ ap (λ (f : Memory). f a) (stubbed_memory captured)
          ∙ captured_same (noted m) a map held lo hi)

    enable_chain_boot-IsArmed :
        (m : Machine ms.Heap Statics)
        → MemoryMap ms
        → InReach ms m.boot
        → m.boot.loader_main_returned ≡ false
        → IsArmed (enable_chain_boot ms info new_bytes stub_code m image image_size).boot
    unfolding enable_chain_boot noted
    enable_chain_boot-IsArmed m map reach running =
        stubbed-IsArmed _ (captured-IsArmed m map reach running)

    -- On a board that keeps the memory map, with heaps that never give out a block on top of the
    -- image, for an image that was staged above the kernel's region and is no larger than it: after
    -- EnableChainBoot the polling loop is told so, and once main has returned the same question hands
    -- off; the payload is then entered with exactly the bytes that were staged at its load address,
    -- and the slot of the device tree holds the address of the captured copy if there is one.
    pub enable_chain_boot-enters :
        (m : Machine ms.Heap Statics)
        → MemoryMap ms
        → keeps.holds m.heap
        → ms.kernel_max_size % 4 ≡ 0
        → mem_kernel_end ms ≤ image
        → image_size ≤ ms.kernel_max_size
        → InReach ms m.boot
        → (m.boot.stub ≡ 0) ⊎ Apart m.boot.stub rapi_stub_max_size image image_size
        → m.boot.loader_main_returned ≡ false
        → let m' = enable_chain_boot ms info new_bytes stub_code m image image_size in
          let s = main_returning m'.boot in
          (is_chain_boot_enabled m'.boot ≡ answers true)
          × (is_chain_boot_enabled s ≡ hands_off)
          × (read (do_chain_boot s m'.memory) mem_kernel_start image_size
              ≡ read m.memory image image_size)
          × ((s.dtb_copy ≡ 0)
              ⊎ (le_number (do_chain_boot s m'.memory) arm_dtb_ptr32 4 ≡ s.dtb_copy))
    unfolding is_chain_boot_enabled main_returning
    enable_chain_boot-enters m map held aligned above fits reach old running =
        let m' = enable_chain_boot ms info new_bytes stub_code m image image_size in
        let s = main_returning m'.boot in
        let h = enable_chain_boot-IsArmed m map reach running in
        let entered =
          do_chain_boot-Entered ms s m'.memory aligned
            (subst (λ n. mem_kernel_end ms ≤ n) (sym h.image_kept) above)
            (subst (λ n. n ≤ ms.kernel_max_size) (sym h.size_kept) fits) h.reach in
        (
          ground (arith, h.image_kept, h.still_running, above),
          ground (arith, h.image_kept, above),
          subst (λ n. read (do_chain_boot s m'.memory) mem_kernel_start n ≡ read m'.memory image n)
                h.size_kept
                (subst
                  (λ n.
                    read (do_chain_boot s m'.memory) mem_kernel_start m'.boot.kernel_size
                    ≡ read m'.memory n m'.boot.kernel_size)
                  h.image_kept entered.image)
              ∙ armed_image m map held old,
          Entered-slot s m'.memory (do_chain_boot s m'.memory) entered,
        )
