-- ===== src/RapiChainboot/Entry.antt =====
-- What the payload finds when it is entered.
use rapi_bootloader.Base.{
  ℕ, zero, suc, ◌+◌, ◌*◌, ◌%◌, ◌≤◌, ◌<◌, ◌≡◌, refl, ◌∙◌, ◌⊎◌, inl, inr, false, arith, ◌==◌,
  Bool-cases,
}
use rapi_bootloader.Circle.{MemorySystem, mem_kernel_start, mem_kernel_end}
use rapi_bootloader.Memory.{Memory, read, write}
use rapi_bootloader.Memory.Laws.{write_outside, read_same}
use rapi_bootloader.RapiChainboot.{Statics, le_number}
use rapi_bootloader.RapiChainboot.Copy.{copy_words_outside, read-copy_words}
use rapi_bootloader.RapiChainboot.DeviceTree.{InReach}
use rapi_bootloader.RapiChainboot.Handoff.{
  arm_dtb_ptr32, u32_bytes, stub_words, point_slot, do_chain_boot,
}

-- The payload's memory at its entry: its image where it is linked, and, where a device tree was
-- captured, its address in the slot and its bytes at that address.
pub record Entered (s : Statics) (m entry : Memory) : Type 0 where
  pub image : read entry mem_kernel_start s.kernel_size ≡ read m s.kernel_image s.kernel_size
  pub tree :
      (s.dtb_copy ≡ 0)
      ⊎ ((le_number entry arm_dtb_ptr32 4 ≡ s.dtb_copy)
          × (read entry s.dtb_copy s.dtb_size ≡ read m s.dtb_copy s.dtb_size))

pub Entered-slot :
    (s : Statics) (m entry : Memory)
    → Entered s m entry
    → (s.dtb_copy ≡ 0) ⊎ (le_number entry arm_dtb_ptr32 4 ≡ s.dtb_copy)
Entered-slot s m entry e = elim e.tree [ inl absent ↦ inl absent | inr (slot, same) ↦ inr slot ]

point_slot_outside :
    (s : Statics) (m : Memory) (a : ℕ) → arm_dtb_ptr32 + 4 ≤ a → point_slot s m a ≡ m a
unfolding point_slot
point_slot_outside s m a h = elim (Bool-cases (s.dtb_copy == 0)) [
  | inl none_staged ↦ rw none_staged
  | inr staged ↦
      rw staged (write_outside m arm_dtb_ptr32 (u32_bytes s.dtb_copy) a (inr (omega (arith, h))))
]

slot_number :
    (m : Memory) (v : ℕ)
    → v < 0x1_0000_0000
    → le_number (write m arm_dtb_ptr32 (u32_bytes v)) arm_dtb_ptr32 4 ≡ v
unfolding le_number write
slot_number m v small = ground arith

le_number_same :
    (m m' : Memory) (at n : ℕ)
    → ((a : ℕ) → at ≤ a → a < at + n → m a ≡ m' a)
    → le_number m at n ≡ le_number m' at n
unfolding le_number
le_number_same m m' at zero h = refl
le_number_same m m' at (suc n) h =
    let head = h at (omega arith) (omega arith) in
    let rest = le_number_same m m' (at + 1) n (λ a lo hi. h a (omega arith) (omega arith)) in
    omega (arith, head, rest)

module _ (ms : MemorySystem) (s : Statics) (m : Memory) (aligned : ms.kernel_max_size % 4 ≡ 0)
    (above : mem_kernel_end ms ≤ s.kernel_image) (fits : s.kernel_size ≤ ms.kernel_max_size) where
  words_fit : mem_kernel_start + 4 * stub_words s.kernel_size ≤ mem_kernel_end ms
  words_fit = omega arith

  outside_copy :
      (a : ℕ)
      → (a < mem_kernel_start) ⊎ (mem_kernel_end ms ≤ a)
      → do_chain_boot s m a ≡ point_slot s m a
  unfolding do_chain_boot
  outside_copy a out =
      copy_words_outside (stub_words s.kernel_size) s.kernel_image mem_kernel_start (point_slot s m)
        a (ground (arith, words_fit))

  slot_pointed :
      (s.dtb_copy == 0) ≡ false
      → s.dtb_copy < 0x1_0000_0000
      → le_number (point_slot s m) arm_dtb_ptr32 4 ≡ s.dtb_copy
  unfolding point_slot
  slot_pointed staged small = rw staged (slot_number m s.dtb_copy small)

  tree_entered :
      (mem_kernel_end ms ≤ s.dtb_copy)
        × (s.dtb_copy + s.dtb_size ≤ 0x1_0000_0000)
        × (0 < s.dtb_size)
      → (le_number (do_chain_boot s m) arm_dtb_ptr32 4 ≡ s.dtb_copy)
        × (read (do_chain_boot s m) s.dtb_copy s.dtb_size ≡ read m s.dtb_copy s.dtb_size)
  tree_entered (high, low, pos) = (
    le_number_same (do_chain_boot s m) (point_slot s m) arm_dtb_ptr32 4
          (λ a lo hi. outside_copy a (inl (omega (arith, hi))))
        ∙ slot_pointed (ground (arith, high)) (ground (arith, low, pos)),
    read_same (do_chain_boot s m) m s.dtb_copy s.dtb_size (λ a lo hi.
        outside_copy a (inr (omega (arith, high, lo)))
        ∙ point_slot_outside s m a (omega (arith, high, lo))),
  )

  -- With an image above the kernel's region and no larger than it, of a size limit that is a
  -- multiple of 4, and a captured device tree, if any, in reach: DoChainBoot enters the payload with
  -- exactly the image's bytes at its load address, and with the device tree's address in the slot and
  -- its bytes untouched.
  pub do_chain_boot-Entered : InReach ms s → Entered s m (do_chain_boot s m)
  unfolding do_chain_boot
  do_chain_boot-Entered reach = record {
    image =
        read-copy_words (stub_words s.kernel_size) s.kernel_image mem_kernel_start s.kernel_size
          (point_slot s m) (omega (arith, above)) (omega arith)
        ∙ read_same (point_slot s m) m s.kernel_image s.kernel_size
            (λ a lo hi. point_slot_outside s m a (omega (arith, above)));
    tree = elim reach [
      | inl none_staged ↦ inl none_staged
      | inr staged ↦ inr (tree_entered staged)
    ];
  }
