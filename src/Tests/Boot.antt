-- ===== src/Tests/Boot.antt =====
-- The defaults block, the staging allocator and the shared boot at concrete inputs.
use rapi_bootloader.Base.{
  ℕ, zero, suc, ◌+◌, ◌≤◌, ◌≡◌, refl, ◌≢◌, ◌↔◌, Option, some, [], ◌∷◌, ◌++◌, arith, Bytes, codes,
  equal,
}
use rapi_bootloader.BootImage.{stamped, boot_image_with_defaults}
use rapi_bootloader.BootImage.Laws.{boot_image-Holds}
use rapi_bootloader.ChainBoot.StageAlloc.{stage_alloc, stage_alloc_clear}
use rapi_bootloader.Circle.{Machine, mem_kernel_end}
use rapi_bootloader.DefaultsBlock.{patch_defaults, patch_ok}
use rapi_bootloader.DefaultsBlock.Overrun.{patch_defaults_overrun}
use rapi_bootloader.DefaultsBlock.Patch.{
  Accepts, Holds, patch_defaults-Holds, patch_defaults-ok_iff,
}
use rapi_bootloader.Memory.{Memory, read, write, read_u16}
use rapi_bootloader.Tests.Board.{
  board, board-MemoryMap, chain, block_image, block_image-AllBytes, machine,
}

abbrev arguments : Bytes
arguments = codes "c64 -iec8"

patch_defaults-Holds_example :
    Holds block_image (patch_defaults block_image 0 0x1000 arguments).0 0 arguments
unfolding patch_defaults equal read write read_u16
patch_defaults-Holds_example =
    patch_defaults-Holds block_image 0 0x1000 arguments block_image-AllBytes refl

patch_defaults-ok_iff_example :
    (((patch_defaults block_image 0 0x800 arguments).1 ≡ patch_ok)
      ↔ Accepts block_image 0 0x800 arguments)
    × ((patch_defaults block_image 0 0x800 arguments).1 ≢ patch_ok
        → (patch_defaults block_image 0 0x800 arguments).0 ≡ block_image)
patch_defaults-ok_iff_example = patch_defaults-ok_iff block_image 0 0x800 arguments

-- A block that claims 1024 bytes in an image that holds 512 of them.
abbrev long_image : Memory
long_image = write (λ a. 1) 0x800 (codes "PM8D" ++ 0 ∷ 4 ∷ [])

repeat : ℕ → ℕ → Bytes
repeat zero b = []
repeat (suc n) b = b ∷ repeat n b

abbrev long_text : Bytes
long_text = repeat 600 b'x'

patch_defaults_overrun_example :
    ((patch_defaults long_image 0 0xa08 long_text).1 ≡ patch_ok)
    × ((a : ℕ) × (0 + 0xa08 ≤ a)
        × ((patch_defaults long_image 0 0xa08 long_text).0 a ≢ long_image a))
unfolding read write read_u16 repeat
patch_defaults_overrun_example =
    patch_defaults_overrun long_image 0 0xa08 long_text
      (record { room = omega arith; magic = refl; fits = omega arith }) (omega arith) (omega arith)

boot_image-Holds_example :
    let result = boot_image_with_defaults chain machine 0 0x1000 (some arguments) in
    (m' : Machine ℕ (Option (ℕ × ℕ))) × (result.0 ≡ chain.enable_chain_boot m' 0 0x1000)
    × ((result.1 ≡ stamped) ↔ Accepts block_image 0 0x1000 arguments)
    × (result.1 ≡ stamped → Holds block_image m'.memory 0 arguments)
    × (result.1 ≢ stamped → m'.memory ≡ block_image)
boot_image-Holds_example =
    boot_image-Holds chain machine 0 0x1000 arguments block_image-AllBytes (λ e. cc)

stage_alloc_clear_example : mem_kernel_end board ≤ (stage_alloc board 0 64).1
unfolding stage_alloc
stage_alloc_clear_example = stage_alloc_clear board board-MemoryMap 0 64 (omega arith) (omega arith)
