-- ===== src/RapiChainboot/Handoff.antt =====
-- `DoChainBoot` and the stub: what the payload finds in memory when it is entered. There are no caches
-- here; RapiChainboot.Caches puts them between. The change of exception level is no state of this memory.
use rapi_bootloader.Base.{ℕ, zero, suc, ◌+◌, ◌/◌, ◌%◌, [], ◌∷◌, ◌==◌, if◌then◌else◌, Bytes}
use rapi_bootloader.Circle.{mem_kernel_start}
use rapi_bootloader.Memory.{Memory, read, write}
use rapi_bootloader.RapiChainboot.{Statics}

-- Circle's slot for the address of the device tree.
abbrev pub arm_dtb_ptr32 : ℕ
arm_dtb_ptr32 = 0xf8

abbrev pub u32_bytes : ℕ → Bytes
u32_bytes v = v % 256 ∷ v / 256 % 256 ∷ v / 65536 % 256 ∷ v / 16777216 % 256 ∷ []

-- The words that the stub copies: the size rounded up.
abbrev pub stub_words : ℕ → ℕ
stub_words size = (size + 3) / 4

-- The stub's loop: each word is read from the memory as it is by then.
unfoldable pub copy_words : ℕ → ℕ → ℕ → Memory → Memory
copy_words zero source target m = m
copy_words (suc n) source target m =
    copy_words n (source + 4) (target + 4) (write m target (read m source 4))

-- The slot, where there is a copy of the device tree to point at.
unfoldable pub point_slot : Statics → Memory → Memory
point_slot s m = if s.dtb_copy == 0 then m else write m arm_dtb_ptr32 (u32_bytes s.dtb_copy)

-- `DoChainBoot`: the memory at the entry of the payload, which is at `mem_kernel_start`.
unfoldable pub do_chain_boot : Statics → Memory → Memory
unfolding copy_words point_slot
do_chain_boot s m =
    copy_words (stub_words s.kernel_size) s.kernel_image mem_kernel_start (point_slot s m)
