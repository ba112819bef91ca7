-- ===== src/RapiChainboot/DeviceTree.antt =====
-- What the capture of the device tree does, and what it leaves alone.
use rapi_bootloader.Base.{
  ℕ, ◌+◌, ◌≤◌, ◌<◌, ◌≡◌, refl, subst, ◌≢◌, ◌⊎◌, inl, inr, true, not, ◌||◌, map, arith, ltb, ◌==◌,
  Bool-cases,
}
use rapi_bootloader.ChainBoot.StageAlloc.{stage_alloc, MemoryMap, stage_alloc_clear}
use rapi_bootloader.Circle.{MemorySystem, Machine, mem_kernel_end}
use rapi_bootloader.Memory.{read, write}
use rapi_bootloader.Memory.Laws.{write_outside, read-write_self, length-read}
use rapi_bootloader.RapiChainboot.{
  MachineInfo, Statics, fdt_word_totalsize, be_word, le_number, is_device_tree, parser_agrees,
  stage_dtb, capture_dtb,
}

-- A copy of the device tree that a payload can be handed: above the region of the kernel, and within
-- the reach of the 32-bit slot.
abbrev pub InReach : MemorySystem → Statics → Type 0
InReach ms s =
    (s.dtb_copy ≡ 0)
    ⊎ ((mem_kernel_end ms ≤ s.dtb_copy)
        × (s.dtb_copy + s.dtb_size ≤ 0x1_0000_0000)
        × (0 < s.dtb_size))

module _ (ms : MemorySystem) (info : MachineInfo) (new_bytes : ms.Heap → ℕ → ms.Heap × ℕ)
    (stub_code : ℕ) where
  -- The new copy.
  pub record Copied (m m' : Machine ms.Heap Statics) : Type 0 where
    pub blob : ℕ
    pub size : ℕ
    pub some_bytes : 0 < size
    pub is_tree : is_device_tree m.memory blob ≡ true
    pub agreed : parser_agrees info m.memory blob size ≡ true
    pub boots_with : m'.boot ≡ record m.boot { dtb_copy = m'.boot.dtb_copy; dtb_size = size }
    pub from_heap : m'.boot.dtb_copy ≡ (stage_alloc ms m.heap size).1
    pub is_staged : m'.boot.dtb_copy ≢ 0
    pub above : mem_kernel_end ms ≤ m'.boot.dtb_copy
    pub addressable : m'.boot.dtb_copy + size ≤ 0x1_0000_0000
    pub same_bytes : read m'.memory m'.boot.dtb_copy size ≡ read m.memory blob size
    pub elsewhere :
        (a : ℕ) → (a < m'.boot.dtb_copy) ⊎ (m'.boot.dtb_copy + size ≤ a) → m'.memory a ≡ m.memory a

  abbrev pub Unchanged : Machine ms.Heap Statics → Machine ms.Heap Statics → Type 0
  Unchanged m m' = (m'.boot ≡ m.boot) × (m'.memory ≡ m.memory)

  stage_dtb-Copied :
      (m : Machine ms.Heap Statics) (blob size : ℕ)
      → MemoryMap ms
      → is_device_tree m.memory blob ≡ true
      → parser_agrees info m.memory blob size ≡ true
      → 0 < size
      → Unchanged m (stage_dtb ms info new_bytes stub_code m blob size)
        ⊎ Copied m (stage_dtb ms info new_bytes stub_code m blob size)
  unfolding stage_dtb
  stage_dtb-Copied m blob size map tree agrees pos =
      let copy = (stage_alloc ms m.heap size).1 in
      elim (Bool-cases (copy == 0 || ltb 0x1_0000_0000 (copy + size))) [
        | inl refused ↦ inl (rw refused, rw refused)
        | inr fits ↦ inr (
            rw fits (record {
              blob = blob;
              size = size;
              some_bytes = pos;
              is_tree = tree;
              agreed = agrees;
              boots_with = refl;
              from_heap = refl;
              is_staged = λ z. ground (arith, fits, z);
              above = stage_alloc_clear ms map m.heap size pos (λ z. ground (arith, fits, z));
              addressable = ground (arith, fits);
              same_bytes =
                  subst
                    (λ n.
                      read (write m.memory copy (read m.memory blob size)) copy n
                      ≡ read m.memory blob size)
                    (length-read m.memory blob size)
                    (read-write_self m.memory copy (read m.memory blob size));
              elsewhere = λ a out.
                  write_outside m.memory copy (read m.memory blob size) a
                    (ground (arith, out, length-read m.memory blob size));
            }))
      ]

  tree_size :
      (m : Machine ms.Heap Statics) (blob : ℕ)
      → is_device_tree m.memory blob ≡ true
      → 0 < be_word m.memory blob fdt_word_totalsize
  unfolding is_device_tree
  tree_size m blob h = ground (arith, h)

  -- On a board that keeps the memory map, CaptureDTB either changes neither memory nor the static
  -- variables, or copies a blob with the header of a device tree, in which the parser's MAC address
  -- lies, byte for byte to a place above the kernel's region and below 4 GB, and changes no other
  -- byte and no other variable.
  pub capture_dtb-Copied :
      (m : Machine ms.Heap Statics)
      → MemoryMap ms
      → Unchanged m (capture_dtb ms info new_bytes stub_code m)
        ⊎ Copied m (capture_dtb ms info new_bytes stub_code m)
  unfolding capture_dtb
  capture_dtb-Copied m map =
      let blob = le_number m.memory info.get_dtb 8 in
      let size = be_word m.memory blob fdt_word_totalsize in
      elim (Bool-cases (not (m.boot.dtb_copy == 0))) [
        | inl captured ↦ inl (rw captured (refl, refl))
        | inr fresh ↦ elim (Bool-cases (info.get_dtb == 0)) [
          | inl absent ↦ inl (rw (fresh, absent) (refl, refl))
          | inr given ↦ elim (Bool-cases (blob == 0 || not (is_device_tree m.memory blob))) [
            | inl strange ↦ inl (rw (fresh, given, strange) (refl, refl))
            | inr tree ↦ elim (Bool-cases (not (parser_agrees info m.memory blob size))) [
              | inl disagrees ↦ inl (rw (fresh, given, tree, disagrees) (refl, refl))
              | inr agrees ↦
                  let is_tree : is_device_tree m.memory blob ≡ true = ground (arith, tree) in
                  rw (fresh, given, tree, agrees)
                    (stage_dtb-Copied m blob size map is_tree (ground (arith, agrees))
                      (tree_size m blob is_tree))
            ]
          ]
        ]
      ]
