-- ===== src/MenuLoader/Kernel/Auto.antt =====
-- The automatic boot of a single entry, on a Pi 5.
use rapi_bootloader.Base.{
  ℕ, zero, suc, ◌<◌, ◌≡◌, refl, sym, ap, ◌∙◌, subst, Bool, true, some, arith, ◌==◌, length, Bytes,
}
use rapi_bootloader.BootMenu.{Menu, load}
use rapi_bootloader.Circle.{MemorySystem}
use rapi_bootloader.FatFs.{FatFs}
use rapi_bootloader.MenuLoader.{Picker}
use rapi_bootloader.MenuLoader.Turn.{picker-boot_selection}
use rapi_bootloader.MenuLoader.Kernel.{
  Console, reboots, pi_5, pump, settled, after_opening, run_opened, run_menu,
}
use rapi_bootloader.MenuLoader.Kernel.Loop.{loop_enabled}
use rapi_bootloader.MenuLoader.Kernel.Calm.{Calm-Reports, Calm-trans, Calm-refl}
use rapi_bootloader.MenuLoader.Kernel.Payload.{IsReady, Enters, kernel_file, boot_selection-Booted}
use rapi_bootloader.MenuLoader.Kernel.Reports.{ConsoleLaws}
use rapi_bootloader.MenuLoader.Kernel.Step.{Ready, Ready-Same}
use rapi_bootloader.MenuLoader.Running.{auto_boots}
use rapi_bootloader.MenuLoader.Selection.{armed, boot_selection, MenuWorld}
use rapi_bootloader.MenuLoader.Staging.{ReadsInOrder}
use rapi_bootloader.RapiChainboot.{MachineInfo, Statics}
use rapi_bootloader.Settling.{settle-some}
use rapi_bootloader.MenuLoader.Kernel.Ends.{KernelCalm, Boots, runs_out, begin_single}

module _ (ms : MemorySystem) (info : MachineInfo) (new_bytes : ms.Heap → ℕ → ms.Heap × ℕ)
    (stub_code : ℕ) (fs : FatFs) (law : ReadsInOrder fs) (path : Bytes) (c : Console ms fs)
    (format_u : ℕ → Bytes) (rows : ℕ) (laws : ConsoleLaws ms info new_bytes stub_code fs c)
    (menu : Menu) (contents : Bytes) where
  open c use {World, hz, kernel, with_kernel, get_ticks, update_plug_and_play, yield, sleep}

  -- A single entry is booted at once.
  auto-Boots :
      (w : World) (fuel : ℕ)
      → length menu ≡ 1
      → Ready ms info new_bytes stub_code fs law path (kernel w)
      → kernel_file ms info new_bytes stub_code fs law path (kernel w).card ≡ contents
      → (kernel w).picker.cursor < length menu
      → 0 < fuel
      → (w' : World) × (run_opened ms info new_bytes stub_code fs c format_u rows path fuel menu
            (some w)
          ≡ some (w', reboots))
        × Boots ms info new_bytes stub_code fs law path c format_u rows laws menu contents w'
  unfolding run_opened after_opening
  auto-Boots w zero single ready file on_entry less = absurd (omega (arith, less))
  auto-Boots w (suc fuel) single ready file on_entry less =
      let cl = pi_5 ms info new_bytes stub_code fs in
      let k = kernel w in
      let b =
        boot_selection-Booted ms info new_bytes stub_code fs law path k menu 0 ready
          (omega (arith, single)) in
      let booted = (boot_selection ms cl fs k menu path 0).0 in
      let at = with_kernel w booted in
      let set = laws.kernel_set w booted in
      let payload : Enters ms info new_bytes stub_code fs law path (kernel at).machine contents
          b.string =
        rw set (
          subst (λ f. Enters ms info new_bytes stub_code fs law path booted.machine f b.string) file
            b.payload) in
      let loops =
        loop_enabled ms info new_bytes stub_code fs law path c format_u rows laws menu contents fuel
          at payload.enabled in
      let begun =
        begin_single ms info new_bytes stub_code fs law path c format_u rows laws menu contents k
          (armed b.message) single b.is_armed in
      let done =
        runs_out ms info new_bytes stub_code fs law path c format_u rows laws menu contents at at
          (suc fuel) (auto_boots (armed b.message)) refl loops
          (record {
            entry = 0;
            under_cursor =
                ap (λ (k : MenuWorld ms.Heap Statics fs.Card). k.picker.cursor) set
                ∙ (ap (λ (p : Picker). p.cursor)
                      (picker-boot_selection ms cl fs format_u rows menu path k 0)
                    ∙ omega (arith, single, on_entry));
            inside = omega (arith, single);
            string = b.string;
            chosen = b.chosen;
            payload = payload;
          }) in
      rw begun done

  pump-Calm :
      (w : World)
      → KernelCalm ms info new_bytes stub_code fs law path c format_u rows laws menu contents w
          (pump ms info new_bytes stub_code fs c format_u rows path w)
  pump-Calm w =
      let pumped = (update_plug_and_play w).0 in
      Calm-trans ms info new_bytes stub_code fs law path c format_u rows laws w pumped
        (yield pumped)
        (Calm-Reports ms info new_bytes stub_code fs law path c format_u rows laws w pumped
          (laws.plug_and_play_keeps w))
        (Calm-Reports ms info new_bytes stub_code fs law path c format_u rows laws pumped
          (yield pumped) (laws.yield_keeps pumped))

  settled-some :
      (w : World)
      → length menu ≡ 1
      → (n : ℕ) × ((fuel : ℕ)
          → n < fuel
          → (v : World) × (settled ms info new_bytes stub_code fs c format_u rows path fuel menu w
              ≡ some v)
            × KernelCalm ms info new_bytes stub_code fs law path c format_u rows laws menu contents
                w v)
  unfolding settled
  settled-some w single =
      let one : (length menu == 1) ≡ true = ground (arith, single) in
      let (n, waits) =
        settle-some hz get_ticks (pump ms info new_bytes stub_code fs c format_u rows path)
          (KernelCalm ms info new_bytes stub_code fs law path c format_u rows laws menu contents w)
          (λ v h.
            Calm-trans ms info new_bytes stub_code fs law path c format_u rows laws w v _ h
              (pump-Calm v))
          laws.clock_runs w
          (Calm-refl ms info new_bytes stub_code fs law path c format_u rows laws w) in
      (n, λ fuel less. let (v, e, h) = waits fuel less in (v, rw (one, e) refl, h))

  abbrev with_card : World → fs.Card → World
  with_card w card = with_kernel w (record (kernel w) { card = card })

  -- On a Pi 5 whose console keeps its laws, where bootmenu.cfg has one entry, with a board and a card
  -- that are ready: with enough fuel Run returns ShutdownReboot without any key pressed, the question of sysinit hands off, and the
  -- payload is entered with the bytes of the kernel file, stamped with the string of that entry.
  pub run_menu-auto :
      (w : World) (config_path : Bytes) (allocated loaded : Bool) (card : fs.Card)
      → load fs (kernel w).card config_path allocated ≡ (card, menu, loaded)
      → length menu ≡ 1
      → IsReady ms info new_bytes stub_code fs law path
          (kernel w).machine
          card
          (kernel w).image_buffer
      → kernel_file ms info new_bytes stub_code fs law path card ≡ contents
      → (kernel w).picker.cursor < length menu
      → (n : ℕ) × ((fuel : ℕ)
          → n < fuel
          → (w' : World) × (run_menu ms info new_bytes stub_code fs c format_u rows path fuel
                config_path allocated w
              ≡ some (w', reboots))
            × Boots ms info new_bytes stub_code fs law path c format_u rows laws menu contents w')
  unfolding run_menu
  run_menu-auto w config_path allocated loaded card e single ready file on_entry =
      let start = with_card w card in
      let set = laws.kernel_set w (record (kernel w) { card = card }) in
      let (n, waits) = settled-some start single in
      (
        n,
        λ fuel less.
            let (v, waited, h) = waits fuel less in
            let at_start : Ready ms info new_bytes stub_code fs law path (kernel start) =
              rw set ready in
            let same_file : kernel_file ms info new_bytes stub_code fs law path (kernel start).card
                ≡ contents =
              rw set file in
            let first : (kernel start).picker.cursor < length menu = rw set on_entry in
            let inside = subst (λ n. n < length menu) (sym h.same_cursor) first in
            let ready_then =
              Ready-Same ms info new_bytes stub_code fs law path (kernel start) (kernel v) h.same
                at_start in
            let done =
              auto-Boots v fuel single ready_then (rw h.same.card same_file) inside
                (omega (arith, less)) in
            rw (e, waited) done,
      )
