-- ===== src/RapiChainboot/Caches/Carries.antt =====
-- What the payload finds in DRAM is what the hand-off leaves in a memory without caches.
use rapi_bootloader.Base.{
  ℕ, ◌+◌, ◌-◌, ◌*◌, ◌%◌, ◌≤◌, ◌<◌, ◌≡◌, refl, sym, ◌∙◌, subst, ◌⊎◌, inl, inr, false, arith, ◌==◌,
  Bool-cases,
}
use rapi_bootloader.ChainBoot.StageAlloc.{MemoryMap}
use rapi_bootloader.Circle.{MemorySystem, mem_kernel_start, mem_kernel_end}
use rapi_bootloader.Memory.{read}
use rapi_bootloader.Memory.Laws.{read_same}
use rapi_bootloader.RapiChainboot.Caches.{
  Caches, CacheLaws, sweep, sweep_lines, copy_uncached, run_stub, store_slot, clean_tree, hand_off,
}
use rapi_bootloader.RapiChainboot.Caches.Sweep.{
  Same, Home, Same-refl, Same-trans, Home-Same, sweep-Same, sweep-Home, copy-Same, copy_value,
}
use rapi_bootloader.RapiChainboot.Copy.{copy_words_outside, copy_words_inside}
use rapi_bootloader.RapiChainboot.DeviceTree.{InReach}
use rapi_bootloader.RapiChainboot.Handoff.{
  arm_dtb_ptr32, u32_bytes, stub_words, point_slot, do_chain_boot,
}
use rapi_bootloader.RapiChainboot.{Statics, rapi_stub_max_size}

module _ (c : Caches) (laws : CacheLaws c) (s : Statics) (w : c.State) where
  open c use {
    State, coherent, dram, store, clean_data_cache, clean_data_cache_range,
    clean_and_invalidate_data_cache_range, caches_off,
  }
  open laws use {value, settled}

  store_slot_coherent : (a : ℕ) → coherent (store_slot c s w) a ≡ point_slot s (coherent w) a
  unfolding store_slot point_slot
  store_slot_coherent a = elim (Bool-cases (s.dtb_copy == 0)) [
    | inl absent ↦ rw absent refl
    | inr staged ↦ rw staged (laws.store_coherent w arm_dtb_ptr32 (u32_bytes s.dtb_copy) a)
  ]

  -- After the caches of the processor were cleaned, after the stub and the image were, and after the
  -- device tree was, when the caches are off.
  abbrev cleaned : State
  cleaned = clean_data_cache (store_slot c s w)

  abbrev with_image : State
  with_image =
      clean_data_cache_range (clean_data_cache_range cleaned s.stub rapi_stub_max_size)
        s.kernel_image s.kernel_size

  abbrev off : State
  off = caches_off (clean_tree c s with_image)

  cleaned_value : (a : ℕ) → value cleaned a ≡ point_slot s (coherent w) a
  cleaned_value a = laws.cleans (store_slot c s w) a ∙ store_slot_coherent a

  clean_tree-Same : (a : ℕ) → Same c laws with_image (clean_tree c s with_image) a
  unfolding clean_tree
  clean_tree-Same a = elim (Bool-cases (s.dtb_copy == 0)) [
    | inl absent ↦ rw absent (Same-refl c laws with_image a)
    | inr staged ↦
        let tree = clean_data_cache_range with_image s.dtb_copy s.dtb_size in
        rw staged (
          Same-trans c laws with_image tree _ a
            (laws.range_keeps with_image s.dtb_copy s.dtb_size a)
            (laws.invalidate_keeps tree (arm_dtb_ptr32 - arm_dtb_ptr32 % 64) 64 a))
  ]

  tree-off : (a : ℕ) → Same c laws (clean_tree c s with_image) off a
  tree-off a = laws.off_keeps (clean_tree c s with_image) a

  off_value : (a : ℕ) → value off a ≡ point_slot s (coherent w) a
  off_value a =
      let stub = clean_data_cache_range cleaned s.stub rapi_stub_max_size in
      let image =
        Same-trans c laws cleaned stub with_image a
          (laws.range_keeps cleaned s.stub rapi_stub_max_size a)
          (laws.range_keeps stub s.kernel_image s.kernel_size a) in
      let tree =
        Same-trans c laws with_image (clean_tree c s with_image) off a (clean_tree-Same a)
          (tree-off a) in
      tree.same_value ∙ (image.same_value ∙ cleaned_value a)

  image-Home : (a : ℕ) → s.kernel_image ≤ a → a < s.kernel_image + s.kernel_size → Home c laws off a
  image-Home a lo hi =
      let stub = clean_data_cache_range cleaned s.stub rapi_stub_max_size in
      Home-Same c laws with_image off a (laws.range_homes stub s.kernel_image s.kernel_size a lo hi)
        (Same-trans c laws with_image (clean_tree c s with_image) off a (clean_tree-Same a)
          (tree-off a))

  homes_tree :
      (a : ℕ)
      → (s.dtb_copy == 0) ≡ false
      → Home c laws
          (clean_and_invalidate_data_cache_range
            (clean_data_cache_range with_image s.dtb_copy s.dtb_size)
            (arm_dtb_ptr32 - arm_dtb_ptr32 % 64)
            64)
          a
      → Home c laws (clean_tree c s with_image) a
  unfolding clean_tree
  homes_tree a staged h = rw staged h

  -- The slot and the device tree, where there is one.
  carried-Home :
      (a : ℕ)
      → (s.dtb_copy == 0) ≡ false
      → ((arm_dtb_ptr32 ≤ a) × (a < arm_dtb_ptr32 + 4))
        ⊎ ((s.dtb_copy ≤ a) × (a < s.dtb_copy + s.dtb_size))
      → Home c laws off a
  carried-Home a staged h =
      let tree = clean_data_cache_range with_image s.dtb_copy s.dtb_size in
      let line = arm_dtb_ptr32 - arm_dtb_ptr32 % 64 in
      let both = clean_and_invalidate_data_cache_range tree line 64 in
      let there : Home c laws both a = elim h [
        | inl slot ↦
            laws.invalidate_homes tree line 64 a (omega (arith, slot.0)) (omega (arith, slot.1))
        | inr blob ↦
            Home-Same c laws tree both a
              (laws.range_homes with_image s.dtb_copy s.dtb_size a blob.0 blob.1)
              (laws.invalidate_keeps tree line 64 a)
      ] in
      Home-Same c laws (clean_tree c s with_image) off a (homes_tree a staged there) (tree-off a)

  module _ (ms : MemorySystem) (map : MemoryMap ms) (aligned : ms.kernel_max_size % 4 ≡ 0)
      (above : mem_kernel_end ms ≤ s.kernel_image) (fits : s.kernel_size ≤ ms.kernel_max_size) where
    abbrev words : ℕ
    words = stub_words s.kernel_size

    abbrev swept : State
    swept = sweep c sweep_lines mem_kernel_start off

    abbrev copied : State
    copied = copy_uncached c words s.kernel_image mem_kernel_start swept

    abbrev entry : State
    entry = sweep c sweep_lines mem_kernel_start copied

    words_end : mem_kernel_start + 4 * words ≤ mem_kernel_end ms
    words_end = omega (arith, fits, aligned)

    in_sweep : (i : ℕ) → i < 4 * words → mem_kernel_start + i < mem_kernel_start + 64 * sweep_lines
    in_sweep i h = omega (arith, h, words_end, map.kernel_below_high)

    image_arrives :
        (i : ℕ)
        → i < s.kernel_size
        → dram entry (mem_kernel_start + i) ≡ do_chain_boot s (coherent w) (mem_kernel_start + i)
    unfolding do_chain_boot
    image_arrives i h =
        let target = mem_kernel_start + i in
        let source = s.kernel_image + i in
        let word : i < 4 * words = omega (arith, h) in
        let home =
          sweep-Home c laws sweep_lines mem_kernel_start copied target (omega arith) (omega arith)
            (in_sweep i word) in
        let settled_target : (j : ℕ) → j < 4 * words → settled swept (mem_kernel_start + j) = λ j k.
          (sweep-Home c laws sweep_lines mem_kernel_start off (mem_kernel_start + j) (omega arith)
            (omega arith) (in_sweep j k)).is_settled in
        let swept_source = sweep-Same c laws sweep_lines mem_kernel_start off source in
        let source_home = image-Home source (omega arith) (omega (arith, h)) in
        home.in_dram
        ∙ ((sweep-Same c laws sweep_lines mem_kernel_start copied target).same_value
            ∙ (copy_value c laws words s.kernel_image mem_kernel_start swept i
                  (omega (arith, words_end, above)) settled_target word
                  (swept_source.still_settled source_home.is_settled)
                ∙ (swept_source.same_value
                    ∙ (off_value source
                        ∙ sym (
                            copy_words_inside words s.kernel_image mem_kernel_start
                              (point_slot s (coherent w)) i (omega (arith, above)) word)))))

    arrives_at :
        (a : ℕ)
        → mem_kernel_start ≤ a
        → a - mem_kernel_start < s.kernel_size
        → dram entry a ≡ do_chain_boot s (coherent w) a
    arrives_at a lo h =
        let at : mem_kernel_start + (a - mem_kernel_start) ≡ a = omega (arith, lo) in
        subst (λ x. dram entry x ≡ do_chain_boot s (coherent w) x) at
          (image_arrives (a - mem_kernel_start) h)

    rest_stays :
        (a : ℕ)
        → (a < mem_kernel_start) ⊎ (mem_kernel_end ms ≤ a)
        → Home c laws off a
        → dram entry a ≡ do_chain_boot s (coherent w) a
    unfolding do_chain_boot
    rest_stays a out home =
        let apart : (a < mem_kernel_start) ⊎ (mem_kernel_start + 4 * words ≤ a) =
          ground (arith, out, words_end) in
        let all =
          Same-trans c laws off swept entry a (sweep-Same c laws sweep_lines mem_kernel_start off a)
            (Same-trans c laws swept copied entry a
              (copy-Same c laws words s.kernel_image mem_kernel_start swept a apart)
              (sweep-Same c laws sweep_lines mem_kernel_start copied a)) in
        (Home-Same c laws off entry a home all).in_dram
        ∙ (all.same_value
            ∙ (off_value a
                ∙ sym (
                    copy_words_outside words s.kernel_image mem_kernel_start
                      (point_slot s (coherent w)) a apart)))

    -- On caches that behave as documented and a board that keeps the memory map, with a size limit
    -- that is a multiple of 4, for an image above the kernel's region and no larger than it, and for a
    -- device tree, if one was captured, that the 32-bit slot reaches: after the hand-off of
    -- DoChainBoot the payload finds in DRAM, where it runs, the bytes that the hand-off without caches
    -- gives, whatever the caches of processor and system held before; and so it does in the slot of
    -- the device tree and in the captured tree, if there is one.
    pub hand_off-do_chain_boot :
        InReach ms s
        → (read (dram (hand_off c s w)) mem_kernel_start s.kernel_size
            ≡ read (do_chain_boot s (coherent w)) mem_kernel_start s.kernel_size)
          × ((s.dtb_copy ≡ 0)
              ⊎ ((read (dram (hand_off c s w)) arm_dtb_ptr32 4
                    ≡ read (do_chain_boot s (coherent w)) arm_dtb_ptr32 4)
                  × (read (dram (hand_off c s w)) s.dtb_copy s.dtb_size
                      ≡ read (do_chain_boot s (coherent w)) s.dtb_copy s.dtb_size)))
    unfolding hand_off run_stub
    hand_off-do_chain_boot reach = (
      read_same (dram entry) (do_chain_boot s (coherent w)) mem_kernel_start s.kernel_size
          (λ a lo hi. arrives_at a lo (omega (arith, lo, hi))),
      elim reach [
        | inl absent ↦ inl absent
        | inr (high, low, pos) ↦
            let staged : (s.dtb_copy == 0) ≡ false = ground (arith, high) in
            inr (
              read_same (dram entry) (do_chain_boot s (coherent w)) arm_dtb_ptr32 4 (λ a lo hi.
                  rest_stays a (inl (omega (arith, hi))) (carried-Home a staged (inl (lo, hi)))),
              read_same (dram entry) (do_chain_boot s (coherent w)) s.dtb_copy s.dtb_size
                  (λ a lo hi.
                    rest_stays a (inr (omega (arith, high, lo)))
                      (carried-Home a staged (inr (lo, hi)))),
            )
      ],
    )
