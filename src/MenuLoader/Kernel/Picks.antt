-- ===== src/MenuLoader/Kernel/Picks.antt =====
-- A menu of several entries: the entry that is selected is booted, on a Pi 5.
use rapi_bootloader.Base.{
  ℕ, ◌+◌, ◌<◌, ◌≡◌, refl, ◌≢◌, Bool, false, none, some, arith, ◌==◌, length, Bytes,
}
use rapi_bootloader.BootMenu.{Menu, load}
use rapi_bootloader.Circle.{MemorySystem}
use rapi_bootloader.FatFs.{FatFs}
use rapi_bootloader.MenuLoader.Kernel.{
  Console, reboots, settled, after_opening, run_opened, run_menu,
}
use rapi_bootloader.MenuLoader.Kernel.Loop.{AtRest, loop-Leaves, outcome, after_turns}
use rapi_bootloader.MenuLoader.Kernel.Payload.{IsReady, kernel_file}
use rapi_bootloader.MenuLoader.Kernel.Reports.{ConsoleLaws}
use rapi_bootloader.MenuLoader.Running.{shows_menu}
use rapi_bootloader.MenuLoader.Screen.{draw_menu}
use rapi_bootloader.MenuLoader.Staging.{ReadsInOrder}
use rapi_bootloader.RapiChainboot.{MachineInfo, answers, is_chain_boot_enabled}
use rapi_bootloader.MenuLoader.Kernel.Ends.{Boots, runs_out, begin_many}

module _ (ms : MemorySystem) (info : MachineInfo) (new_bytes : ms.Heap → ℕ → ms.Heap × ℕ)
    (stub_code : ℕ) (fs : FatFs) (law : ReadsInOrder fs) (path : Bytes) (c : Console ms fs)
    (format_u : ℕ → Bytes) (rows : ℕ) (laws : ConsoleLaws ms info new_bytes stub_code fs c)
    (menu : Menu) (contents : Bytes) where
  open c use {World, hz, kernel, with_kernel, get_ticks, update_plug_and_play, yield, sleep}

  -- The loop begins in the state in which the menu was drawn.
  abbrev pub opened : World → fs.Card → World
  opened w card =
      let read = with_kernel w (record (kernel w) { card = card }) in
      let k = kernel read in
      with_kernel read (record k { picker = (draw_menu format_u rows menu k.picker).0 })

  opened-AtRest :
      (w : World) (card : fs.Card)
      → IsReady ms info new_bytes stub_code fs law path
          (kernel w).machine
          card
          (kernel w).image_buffer
      → kernel_file ms info new_bytes stub_code fs law path card ≡ contents
      → (kernel w).picker.cursor < length menu
      → is_chain_boot_enabled (kernel w).machine.boot ≡ answers false
      → AtRest ms info new_bytes stub_code fs law path c format_u rows laws menu contents
          (opened w card)
  unfolding draw_menu
  opened-AtRest w card ready file on_entry unarmed =
      let k = record (kernel w) { card = card } in
      let read = with_kernel w k in
      let set = laws.kernel_set w k in
      let set2 =
        laws.kernel_set read (record (kernel read) {
          picker = (draw_menu format_u rows menu (kernel read).picker).0;
        }) in
      record {
        ready = rw (set2, set) ready;
        file = rw (set2, set) file;
        on_entry = rw (set2, set) on_entry;
        unarmed = rw (set2, set) unarmed;
      }

  -- On a Pi 5 whose console keeps its laws, where bootmenu.cfg has several entries, with a board and a
  -- card that are ready, with the cursor on an entry and nothing armed: if after some turns of the loop
  -- one selects an entry, by the keyboard or the serial line, then with enough fuel Run returns
  -- ShutdownReboot, the question of sysinit hands off, and the payload is entered with the bytes of the
  -- kernel file, stamped with the string of the entry under the cursor.
  pub run_menu-picks :
      (w : World) (config_path : Bytes) (allocated loaded : Bool) (card : fs.Card) (n : ℕ)
      → load fs (kernel w).card config_path allocated ≡ (card, menu, loaded)
      → 1 < length menu
      → IsReady ms info new_bytes stub_code fs law path
          (kernel w).machine
          card
          (kernel w).image_buffer
      → kernel_file ms info new_bytes stub_code fs law path card ≡ contents
      → (kernel w).picker.cursor < length menu
      → is_chain_boot_enabled (kernel w).machine.boot ≡ answers false
      → outcome ms info new_bytes stub_code fs law path c format_u rows laws menu contents (
          after_turns ms info new_bytes stub_code fs law path c format_u rows laws menu contents n
            (opened w card))
        ≢ none
      → (fuel : ℕ) → n + 1 < fuel
      → (w' : World) × (run_menu ms info new_bytes stub_code fs c format_u rows path fuel
            config_path allocated w
          ≡ some (w', reboots))
        × Boots ms info new_bytes stub_code fs law path c format_u rows laws menu contents w'
  unfolding run_menu settled run_opened after_opening
  run_menu-picks w config_path allocated loaded card n e many ready file on_entry unarmed selects
        fuel less =
      let start = opened w card in
      let rest = opened-AtRest w card ready file on_entry unarmed in
      let (v, loops, leaves) =
        loop-Leaves ms info new_bytes stub_code fs law path c format_u rows laws menu contents n
          fuel start rest selects less in
      let done =
        runs_out ms info new_bytes stub_code fs law path c format_u rows laws menu contents start v
          fuel shows_menu refl loops leaves in
      let read = with_kernel w (record (kernel w) { card = card }) in
      let more : (length menu == 1) ≡ false = ground (arith, many) in
      let begun =
        begin_many ms info new_bytes stub_code fs law path c format_u rows laws menu contents
          (kernel read) many in
      rw (e, more, begun) done
