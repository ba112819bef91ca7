-- ===== src/MenuLoader/Kernel/Payload.antt =====
-- From a selection in the boot picker to the entry of the payload on the Pi 5.
use rapi_bootloader.Base.{
  ℕ, ◌%◌, ◌≤◌, ◌<◌, ◌≡◌, refl, sym, ap, ◌∙◌, subst, ◌≢◌, ◌⊎◌, inl, inr, true, false, some, [], ◌∷◌,
  arith, ◌==◌, if◌then◌else◌, Bool-cases, length, Bytes,
}
use rapi_bootloader.BootImage.{BootMessage, stamp_defaults, boot_image_with_defaults}
use rapi_bootloader.BootMenu.{Menu, get_string}
use rapi_bootloader.ChainBoot.StageAlloc.{stage_alloc, stage_alloc_clear, MemoryMap}
use rapi_bootloader.Circle.{MemorySystem, Machine, mem_kernel_start, mem_kernel_end}
use rapi_bootloader.FatFs.{FatFs, is_ok, fa_read}
use rapi_bootloader.Memory.{read}
use rapi_bootloader.MenuLoader.Arming.{NeverFails, boot_selection-arms}
use rapi_bootloader.MenuLoader.Booting.{file_contents, BootsFile, boot_selection-BootsFile}
use rapi_bootloader.MenuLoader.Kernel.{pi_5}
use rapi_bootloader.MenuLoader.Selection.{armed, MenuWorld, with_image_buffer, boot_selection}
use rapi_bootloader.MenuLoader.Staging.{ReadsInOrder}
use rapi_bootloader.RapiChainboot.Boots.{Apart, KeepsImage, enable_chain_boot-enters}
use rapi_bootloader.RapiChainboot.DeviceTree.{InReach}
use rapi_bootloader.RapiChainboot.Handoff.{do_chain_boot}
use rapi_bootloader.RapiChainboot.{
  MachineInfo, Statics, rapi_stub_max_size, enable_chain_boot, main_returning,
  is_chain_boot_enabled, answers, hands_off,
}

module _ (ms : MemorySystem) (info : MachineInfo) (new_bytes : ms.Heap → ℕ → ms.Heap × ℕ)
    (stub_code : ℕ) (fs : FatFs) (law : ReadsInOrder fs) (path : Bytes) where
  -- The staging buffer that a selection uses, and the heaps with it.
  abbrev pub buffer_of : Machine ms.Heap Statics → ℕ → ℕ
  buffer_of m buffer = if buffer == 0 then (stage_alloc ms m.heap ms.kernel_max_size).1 else buffer

  abbrev pub heap_of : Machine ms.Heap Statics → ℕ → ms.Heap
  heap_of m buffer = if buffer == 0 then (stage_alloc ms m.heap ms.kernel_max_size).0 else m.heap

  -- The kernel file on the card.
  abbrev pub kernel_file : fs.Card → Bytes
  kernel_file card = file_contents ms (pi_5 ms info new_bytes stub_code fs) fs law card path

  -- A board and a card with which a selection can boot: the kernel file opens and fits, no read
  -- fails, a staging buffer above the kernel's region is there or can be allocated, and nothing else is
  -- allocated on top of the image.
  pub record IsReady (m : Machine ms.Heap Statics) (card : fs.Card) (buffer : ℕ) : Type 1 where
    pub never_fails : NeverFails fs law
    pub opens : is_ok (fs.f_open card path fa_read).1 ≡ true
    pub some_bytes : 0 < length (kernel_file card)
    pub fits : length (kernel_file card) ≤ ms.kernel_max_size
    pub map : MemoryMap ms
    pub aligned : ms.kernel_max_size % 4 ≡ 0
    pub real : buffer_of m buffer ≢ 0
    pub above : (buffer ≡ 0) ⊎ (mem_kernel_end ms ≤ buffer)
    pub keeps :
        KeepsImage ms info new_bytes stub_code (buffer_of m buffer) (length (kernel_file card))
    pub held : keeps.holds (heap_of m buffer)
    pub reach : InReach ms m.boot
    pub old_stub :
        (m.boot.stub ≡ 0)
        ⊎ Apart m.boot.stub rapi_stub_max_size (buffer_of m buffer) (length (kernel_file card))
    pub running : m.boot.loader_main_returned ≡ false

  -- The question of sysinit hands off, and the payload is entered with the bytes of the file, stamped
  -- with the string in the staging buffer, at its load address.
  pub record HandsOver (m : Machine ms.Heap Statics) (contents string : Bytes) : Type 0 where
    pub loaded : Machine ms.Heap Statics
    pub buffer : ℕ
    pub holds : read loaded.memory buffer (length contents) ≡ contents
    pub hands : is_chain_boot_enabled m.boot ≡ hands_off
    pub entered :
        read (do_chain_boot m.boot m.memory) mem_kernel_start (length contents)
        ≡ read
            (stamp_defaults
              (pi_5 ms info new_bytes stub_code fs)
              loaded
              buffer
              (length contents)
              (some string)).0.memory
            buffer
            (length contents)

  -- The note that `main` is returning.
  abbrev pub told : Machine ms.Heap Statics → Machine ms.Heap Statics
  told m = record m { boot = main_returning m.boot }

  -- The loop is told that a chain-boot is enabled, and hands over once `main` has returned.
  pub record Enters (m : Machine ms.Heap Statics) (contents string : Bytes) : Type 0 where
    pub enabled : is_chain_boot_enabled m.boot ≡ answers true
    pub hands_over : HandsOver (told m) contents string

  module _ (k : MenuWorld ms.Heap Statics fs.Card)
      (ready : IsReady k.machine k.card k.image_buffer) where
    abbrev with_buffer : MenuWorld ms.Heap Statics fs.Card
    with_buffer = with_image_buffer ms (pi_5 ms info new_bytes stub_code fs) fs k

    with_buffer-buffer : with_buffer.image_buffer ≡ buffer_of k.machine k.image_buffer
    unfolding with_image_buffer
    with_buffer-buffer = ground arith

    with_buffer-heap : with_buffer.machine.heap ≡ heap_of k.machine k.image_buffer
    unfolding with_image_buffer
    with_buffer-heap = ground arith

    with_buffer-boot : with_buffer.machine.boot ≡ k.machine.boot
    unfolding with_image_buffer
    with_buffer-boot = ground arith

    buffer_above : mem_kernel_end ms ≤ buffer_of k.machine k.image_buffer
    buffer_above = elim (Bool-cases (k.image_buffer == 0)) [
      | inl unstaged ↦
          let alloc = (stage_alloc ms k.machine.heap ms.kernel_max_size).1 in
          let new : buffer_of k.machine k.image_buffer ≡ alloc = rw unstaged refl in
          subst (λ n. mem_kernel_end ms ≤ n) (sym new)
            (stage_alloc_clear ms ready.map k.machine.heap ms.kernel_max_size
              (omega (arith, ready.some_bytes, ready.fits)) (λ z. ready.real (new ∙ z)))
      | inr staged ↦ ground (arith, ready.above, staged)
    ]

  stamped_same :
      (m : Machine ms.Heap Statics) (image n : ℕ) (string : Bytes)
      → let m' = (stamp_defaults (pi_5 ms info new_bytes stub_code fs) m image n (some string)).0 in
        (m'.heap ≡ m.heap) × (m'.boot ≡ m.boot)
  unfolding stamp_defaults
  stamped_same m image n [] = (refl, refl)
  stamped_same m image n (b ∷ bs) = (refl, refl)

  booted-Enters :
      (k w : MenuWorld ms.Heap Statics fs.Card) (string : Bytes) (message : BootMessage)
      → IsReady k.machine k.card k.image_buffer
      → BootsFile ms
          (pi_5 ms info new_bytes stub_code fs)
          fs
          (with_image_buffer ms (pi_5 ms info new_bytes stub_code fs) fs k)
          w
          (kernel_file k.card)
          string
          message
      → Enters w.machine (kernel_file k.card) string
  unfolding boot_image_with_defaults
  booted-Enters k w string message ready b =
      let cl = pi_5 ms info new_bytes stub_code fs in
      let n = length (kernel_file k.card) in
      let at = buffer_of k.machine k.image_buffer in
      let buffer : w.image_buffer ≡ at = b.same_buffer ∙ with_buffer-buffer k ready in
      let stamped = (stamp_defaults cl b.loaded at n (some string)).0 in
      let same = stamped_same b.loaded at n string in
      let boot : stamped.boot ≡ k.machine.boot =
        same.1 ∙ (b.same_boot ∙ with_buffer-boot k ready) in
      let heap : stamped.heap ≡ heap_of k.machine k.image_buffer =
        same.0 ∙ (b.same_heap ∙ with_buffer-heap k ready) in
      let held = subst ready.keeps.holds (sym heap) ready.held in
      let reach = subst (InReach ms) (sym boot) ready.reach in
      let old =
        subst (λ (s : Statics). (s.stub ≡ 0) ⊎ Apart s.stub rapi_stub_max_size at n) (sym boot)
          ready.old_stub in
      let running = ap (λ (s : Statics). s.loader_main_returned) boot ∙ ready.running in
      let enters =
        enable_chain_boot-enters ms info new_bytes stub_code at n ready.keeps stamped ready.map held
          ready.aligned (buffer_above k ready) ready.fits reach old running in
      let machine : enable_chain_boot ms info new_bytes stub_code stamped at n ≡ w.machine =
        subst (λ i. (boot_image_with_defaults cl b.loaded i n (some string)).0 ≡ w.machine) buffer
          (ap (λ r. r.0) b.boots) in
      subst (λ m. Enters m (kernel_file k.card) string) machine
        (record {
          enabled = enters.0;
          hands_over = record {
            loaded = b.loaded;
            buffer = at;
            holds = subst (λ i. read b.loaded.memory i n ≡ kernel_file k.card) buffer b.holds;
            hands = enters.1;
            entered = enters.2;
          };
        })

  -- What a selection of an entry comes to: it is armed, with the string of the entry.
  pub record Booted (k : MenuWorld ms.Heap Statics fs.Card) (menu : Menu) (i : ℕ) : Type 0 where
    pub message : BootMessage
    pub string : Bytes
    pub chosen : get_string menu i ≡ some string
    pub is_armed :
        (boot_selection ms (pi_5 ms info new_bytes stub_code fs) fs k menu path i).1 ≡ armed message
    pub payload :
        Enters
          (boot_selection ms (pi_5 ms info new_bytes stub_code fs) fs k menu path i).0.machine
          (kernel_file k.card)
          string

  pub boot_selection-Booted :
      (k : MenuWorld ms.Heap Statics fs.Card) (menu : Menu) (i : ℕ)
      → IsReady k.machine k.card k.image_buffer
      → i < length menu
      → Booted k menu i
  boot_selection-Booted k menu i ready inside =
      let cl = pi_5 ms info new_bytes stub_code fs in
      let real : (with_buffer k ready).image_buffer ≢ 0 =
        λ z. ready.real (sym (with_buffer-buffer k ready) ∙ z) in
      let (message, arms) =
        boot_selection-arms ms cl fs law k menu path i ready.never_fails inside ready.opens
          ready.some_bytes ready.fits real in
      let (string, chosen, b) = boot_selection-BootsFile ms cl fs law k menu path i message arms in
      record {
        message = message;
        string = string;
        chosen = chosen;
        is_armed = arms;
        payload = booted-Enters k _ string message ready b;
      }
