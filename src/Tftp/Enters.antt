-- ===== src/Tftp/Enters.antt =====
-- From a pushed kernel to the entry of the payload on the Pi 5.
use rapi_bootloader.Base.{ℕ, ◌%◌, ◌≤◌, ◌≡◌, refl, ◌∙◌, ◌⊎◌, false, none, map, length, Bytes}
use rapi_bootloader.RapiChainboot.Refines.{rapi_chain_loader}
use rapi_bootloader.RapiChainboot.Boots.{Apart, KeepsImage, enable_chain_boot-enters}
use rapi_bootloader.RapiChainboot.DeviceTree.{InReach}
use rapi_bootloader.RapiChainboot.Handoff.{do_chain_boot}
use rapi_bootloader.RapiChainboot.{
  MachineInfo, rapi_stub_max_size, enable_chain_boot, main_returning, is_chain_boot_enabled,
  hands_off,
}
use rapi_bootloader.Tftp.Push.{Closed, pending_defaults, update_status-Closed}
use rapi_bootloader.Tftp.Finish.{update_status}
use rapi_bootloader.Tftp.{TftpWorld, status_write_completed, status_write_aborted}
use rapi_bootloader.Memory.{read}
use rapi_bootloader.FatFs.{FatFs}
use rapi_bootloader.Circle.{MemorySystem, ChainLoader, mem_kernel_start, mem_kernel_end}
use rapi_bootloader.ChainBoot.StageAlloc.{MemoryMap}
use rapi_bootloader.BootImage.{boot_image_with_defaults, stamp_defaults}

module _ (ms : MemorySystem) (info : MachineInfo) (new_bytes : ms.Heap → ℕ → ms.Heap × ℕ)
    (stub_code : ℕ) (fs : FatFs) where
  abbrev pub pi_5 : ChainLoader ms.Heap
  pi_5 = rapi_chain_loader ms info new_bytes stub_code

  boots_plain :
      (w : TftpWorld ms pi_5 fs) (n : ℕ)
      → pending_defaults ms pi_5 fs w ≡ none
      → (boot_image_with_defaults pi_5 w.machine w.server.kernel_buffer n
          (pending_defaults ms pi_5 fs w)).0
        ≡ enable_chain_boot ms info new_bytes stub_code w.machine w.server.kernel_buffer n
  unfolding boot_image_with_defaults stamp_defaults
  boots_plain w n none_pending = rw none_pending refl

  -- On a Pi 5 that keeps the memory map: let a pushed image wait for its verdict above the kernel's
  -- region, with no defaults pending, no larger than that region, and with heaps that give out no
  -- block on top of it. After the completed verdict and the return of main, the payload is entered
  -- with exactly the pushed image at the kernel's load address; after the aborted one the
  -- question whether to hand off is answered as without the push.
  pub update_status-enters :
      (w : TftpWorld ms pi_5 fs) (image : Bytes)
      → Closed ms pi_5 fs w image
      → pending_defaults ms pi_5 fs w ≡ none
      → length image ≤ ms.kernel_max_size
      → mem_kernel_end ms ≤ w.server.kernel_buffer
      → MemoryMap ms
      → ms.kernel_max_size % 4 ≡ 0
      → (keeps : KeepsImage ms info new_bytes stub_code w.server.kernel_buffer (length image))
      → keeps.holds w.machine.heap
      → InReach ms w.machine.boot
      → (w.machine.boot.stub ≡ 0)
        ⊎ Apart w.machine.boot.stub rapi_stub_max_size w.server.kernel_buffer (length image)
      → w.machine.boot.loader_main_returned ≡ false
      → let done = (update_status ms pi_5 fs w status_write_completed).machine in
        let aborted = (update_status ms pi_5 fs w status_write_aborted).machine in
        let s = main_returning done.boot in
        (is_chain_boot_enabled s ≡ hands_off)
        × (read (do_chain_boot s done.memory) mem_kernel_start (length image) ≡ image)
        × (is_chain_boot_enabled (main_returning aborted.boot)
            ≡ is_chain_boot_enabled (main_returning w.machine.boot))
  update_status-enters w image closed none_pending fits above map aligned keeps held reach old
        running =
      let n = length image in
      let (booted, _, _, left, _, _, _) = update_status-Closed ms pi_5 fs w image closed in
      let direct = booted ∙ boots_plain w n none_pending in
      let enters =
        enable_chain_boot-enters ms info new_bytes stub_code w.server.kernel_buffer n keeps
          w.machine map held aligned above fits reach old running in
      rw (direct, left) (enters.1, enters.2 ∙ closed.bytes, refl)
