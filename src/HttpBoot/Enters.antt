-- ===== src/HttpBoot/Enters.antt =====
-- From the upload form to the entry of the payload on the Pi 5.
use rapi_bootloader.Base.{
  ℕ, ◌%◌, ◌≤◌, ◌<◌, ◌≡◌, refl, ◌∙◌, ◌≢◌, ◌⊎◌, true, false, [], ◌∷◌, map, arith, ◌==◌, length, codes,
  equal,
}
use rapi_bootloader.RapiChainboot.Refines.{rapi_chain_loader}
use rapi_bootloader.RapiChainboot.Boots.{Apart, KeepsImage, enable_chain_boot-enters}
use rapi_bootloader.RapiChainboot.DeviceTree.{InReach}
use rapi_bootloader.RapiChainboot.Handoff.{do_chain_boot}
use rapi_bootloader.RapiChainboot.{
  MachineInfo, rapi_stub_max_size, enable_chain_boot, main_returning, is_chain_boot_enabled,
  hands_off,
}
use rapi_bootloader.HttpBoot.Boots.{staged}
use rapi_bootloader.HttpBoot.{
  Part, Pages, HttpWorld, is_kernel_part, submit_form, boot_form, take_parts, take_part,
  stage_kernel, get_content,
}
use rapi_bootloader.Memory.Laws.{read-write_self}
use rapi_bootloader.Memory.{read}
use rapi_bootloader.Circle.{MemorySystem, ChainLoader, mem_kernel_start}
use rapi_bootloader.ChainBoot.StageAlloc.{stage_alloc, MemoryMap, stage_alloc_clear}
use rapi_bootloader.BootImage.{boot_image_with_defaults, stamp_defaults}

module _ (ms : MemorySystem) (info : MachineInfo) (new_bytes : ms.Heap → ℕ → ms.Heap × ℕ)
    (stub_code : ℕ) where
  abbrev pub pi_5 : ChainLoader ms.Heap
  pi_5 = rapi_chain_loader ms info new_bytes stub_code

  get_content-alone :
      (pages : Pages) (w : HttpWorld ms pi_5) (k : Part) (max : ℕ)
      → is_kernel_part k ≡ true
      → (stage_alloc ms w.machine.heap (length k.data_bytes)).1 ≢ 0
      → (get_content ms pi_5 pages w (codes "/") (k ∷ []) max).0.machine
        ≡ enable_chain_boot ms info new_bytes stub_code
            (staged ms pi_5 w.machine k.data_bytes)
            (stage_alloc ms w.machine.heap (length k.data_bytes)).1
            (length k.data_bytes)
  unfolding get_content submit_form boot_form take_parts take_part stage_kernel equal
      boot_image_with_defaults stamp_defaults
  get_content-alone pages w k max image real =
      let real' : ((stage_alloc ms w.machine.heap (length k.data_bytes)).1 == 0) ≡ false =
        ground (arith, real) in
      rw (image, real', real') refl

  some_bytes : (k : Part) → is_kernel_part k ≡ true → 0 < length k.data_bytes
  unfolding is_kernel_part
  some_bytes k h = ground (arith, h)

  -- On a Pi 5 that keeps the memory map, whose heaps give out no block on top of the staged image: an
  -- image uploaded alone, which can be staged and is no larger than the kernel's region, is entered
  -- after main has returned, with exactly the uploaded bytes at the kernel's load address.
  pub get_content-enters :
      (pages : Pages) (w : HttpWorld ms pi_5) (k : Part) (max : ℕ)
      → is_kernel_part k ≡ true
      → (stage_alloc ms w.machine.heap (length k.data_bytes)).1 ≢ 0
      → length k.data_bytes ≤ ms.kernel_max_size
      → MemoryMap ms
      → ms.kernel_max_size % 4 ≡ 0
      → (keeps : KeepsImage ms info new_bytes stub_code
          (stage_alloc ms w.machine.heap (length k.data_bytes)).1
          (length k.data_bytes))
      → keeps.holds (stage_alloc ms w.machine.heap (length k.data_bytes)).0
      → InReach ms w.machine.boot
      → (w.machine.boot.stub ≡ 0)
        ⊎ Apart w.machine.boot.stub rapi_stub_max_size
            (stage_alloc ms w.machine.heap (length k.data_bytes)).1
            (length k.data_bytes)
      → w.machine.boot.loader_main_returned ≡ false
      → let m' = (get_content ms pi_5 pages w (codes "/") (k ∷ []) max).0.machine in
        let s = main_returning m'.boot in
        (is_chain_boot_enabled s ≡ hands_off)
        × (read (do_chain_boot s m'.memory) mem_kernel_start (length k.data_bytes) ≡ k.data_bytes)
  get_content-enters pages w k max image real fits map aligned keeps held reach old running =
      let n = length k.data_bytes in
      let at = (stage_alloc ms w.machine.heap n).1 in
      let m = staged ms pi_5 w.machine k.data_bytes in
      let above = stage_alloc_clear ms map w.machine.heap n (some_bytes k image) real in
      let enters =
        enable_chain_boot-enters ms info new_bytes stub_code at n keeps m map held aligned above
          fits reach old running in
      rw (get_content-alone pages w k max image real)
        (enters.1, enters.2 ∙ read-write_self w.machine.memory at k.data_bytes)
