-- ===== src/MenuLoader/Kernel/Ends.antt =====
-- How the boot picker's Run leaves its loop, and how it opens.
use rapi_bootloader.Base.{ℕ, ◌<◌, ◌≡◌, refl, ap, ◌∙◌, true, false, some, arith, ◌==◌, length, Bytes}
use rapi_bootloader.BootMenu.{Menu, get_string}
use rapi_bootloader.Circle.{MemorySystem}
use rapi_bootloader.FatFs.{FatFs}
use rapi_bootloader.MenuLoader.Kernel.{Console, reboots, pi_5, leave_menu, after_opening, menu_loop}
use rapi_bootloader.MenuLoader.Kernel.Loop.{Leaves}
use rapi_bootloader.MenuLoader.Kernel.Calm.{Calm, Calm-Reports}
use rapi_bootloader.MenuLoader.Kernel.Payload.{HandsOver}
use rapi_bootloader.MenuLoader.Kernel.Reports.{ConsoleLaws}
use rapi_bootloader.MenuLoader.Running.{Opening, auto_boots, shows_menu, begin}
use rapi_bootloader.MenuLoader.Screen.{draw_menu}
use rapi_bootloader.MenuLoader.Selection.{Outcome, MenuWorld, boot_selection}
use rapi_bootloader.MenuLoader.Staging.{ReadsInOrder}
use rapi_bootloader.RapiChainboot.{MachineInfo, Statics, main_returning}
use mathlib.Core.Option

module _ (ms : MemorySystem) (info : MachineInfo) (new_bytes : ms.Heap → ℕ → ms.Heap × ℕ)
    (stub_code : ℕ) (fs : FatFs) (law : ReadsInOrder fs) (path : Bytes) (c : Console ms fs)
    (format_u : ℕ → Bytes) (rows : ℕ) (laws : ConsoleLaws ms info new_bytes stub_code fs c)
    (menu : Menu) (contents : Bytes) where
  open c use {World, hz, kernel, with_kernel, get_ticks, update_plug_and_play, yield, sleep}

  abbrev pub KernelCalm : World → World → Type 0
  KernelCalm = Calm ms info new_bytes stub_code fs law path c format_u rows laws

  -- The payload of the entry under the cursor is handed over to.
  pub record Boots (w : World) : Type 0 where
    pub entry : ℕ
    pub under_cursor : (kernel w).picker.cursor ≡ entry
    pub inside : entry < length menu
    pub string : Bytes
    pub chosen : get_string menu entry ≡ some string
    pub payload :
        HandsOver ms info new_bytes stub_code fs law path (kernel w).machine contents string

  leave_menu-Boots :
      (w : World)
      → Leaves ms info new_bytes stub_code fs law path c format_u rows laws menu contents w
      → (w' : World) × (leave_menu ms info new_bytes stub_code fs c format_u rows path (w, reboots)
          ≡ (w', reboots))
        × Boots w'
  unfolding leave_menu
  leave_menu-Boots w h =
      let slept = sleep 1 w in
      let k = kernel slept in
      let slept_calm =
        Calm-Reports ms info new_bytes stub_code fs law path c format_u rows laws w slept
          (laws.sleep_keeps 1 w) in
      let at = record k { machine = record k.machine { boot = main_returning k.machine.boot } } in
      (
        with_kernel slept at,
        refl,
        record {
          entry = h.entry;
          under_cursor =
              ap (λ (k : MenuWorld ms.Heap Statics fs.Card). k.picker.cursor)
                (laws.kernel_set slept at)
              ∙ (slept_calm.same_cursor ∙ h.under_cursor);
          inside = h.inside;
          string = h.string;
          chosen = h.chosen;
          payload = rw (laws.kernel_set slept at) (rw slept_calm.same.machine h.payload.hands_over);
        },
      )

  -- What `Run` does from the loop on.
  pub runs_out :
      (w v : World) (fuel : ℕ) (opening : Opening)
      → after_opening ms info new_bytes stub_code fs c format_u rows path fuel menu w opening
        ≡ Option.map
            (leave_menu ms info new_bytes stub_code fs c format_u rows path)
            (menu_loop ms info new_bytes stub_code fs c format_u rows path fuel menu w)
      → menu_loop ms info new_bytes stub_code fs c format_u rows path fuel menu w
        ≡ some (v, reboots)
      → Leaves ms info new_bytes stub_code fs law path c format_u rows laws menu contents v
      → (w' : World) × (after_opening ms info new_bytes stub_code fs c format_u rows path fuel menu
            w opening
          ≡ some (w', reboots))
        × Boots w'
  runs_out w v fuel opening goes_on loops leaves =
      let (w', e, boots) = leave_menu-Boots v leaves in
      (w', goes_on ∙ (rw loops (ap some e)), boots)

  pub begin_single :
      (k : MenuWorld ms.Heap Statics fs.Card) (o : Outcome)
      → length menu ≡ 1
      → (boot_selection ms (pi_5 ms info new_bytes stub_code fs) fs k menu path 0).1 ≡ o
      → begin ms (pi_5 ms info new_bytes stub_code fs) fs format_u rows menu path k ≡ (
        (boot_selection ms (pi_5 ms info new_bytes stub_code fs) fs k menu path 0).0,
        auto_boots o,
      )
  unfolding begin
  begin_single k o single e =
      let not_empty : (length menu == 0) ≡ false = ground (arith, single) in
      let one : (length menu == 1) ≡ true = ground (arith, single) in rw (not_empty, one, e) refl

  pub begin_many :
      (k : MenuWorld ms.Heap Statics fs.Card)
      → 1 < length menu
      → begin ms (pi_5 ms info new_bytes stub_code fs) fs format_u rows menu path k
        ≡ (record k { picker = (draw_menu format_u rows menu k.picker).0 }, shows_menu)
  unfolding begin
  begin_many k many =
      let not_empty : (length menu == 0) ≡ false = ground (arith, many) in
      let more : (length menu == 1) ≡ false = ground (arith, many) in rw (not_empty, more) refl
