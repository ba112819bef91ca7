-- ===== src/MenuLoader/Running.antt =====
-- menu-loader/kernel.cpp, `CKernel::Run`. The pumping of USB and the logging are not state of the picker.
use rapi_bootloader.Base.{ℕ, false, Option, none, some, ◌==◌, if◌then◌else◌, length, Bytes}
use rapi_bootloader.BootMenu.{Menu}
use rapi_bootloader.Circle.{MemorySystem, ChainLoader}
use rapi_bootloader.FatFs.{FatFs}
use rapi_bootloader.MenuLoader.Intents.{drain}
use rapi_bootloader.MenuLoader.Keys.{inject_chars}
use rapi_bootloader.MenuLoader.Screen.{draw_menu}
use rapi_bootloader.MenuLoader.Selection.{Outcome, MenuWorld, boot_selection}
use rapi_bootloader.MenuLoader.{Picker}

-- The turn of `Run` up to the redraw: the keys of the serial line, the draining, and `DrawMenu`.
unfoldable pub serve_keys : (format_u : ℕ → Bytes) (rows : ℕ) → Menu → Picker → Bytes → Picker
serve_keys format_u rows menu p injected =
    let drained = drain rows (length menu) (inject_chars p injected) in
    if drained.1 then (draw_menu format_u rows menu drained.0).0 else drained.0

-- How `Run` begins: with nothing to boot it idles for ever, a single entry is booted, and otherwise the
-- menu is shown.
pub data Opening : Type 0 where
  idles shows_menu : Opening
  auto_boots : Outcome → Opening

module _ (ms : MemorySystem) (cl : ChainLoader ms.Heap) (fs : FatFs) where
  unfoldable pub begin :
      (format_u : ℕ → Bytes) (rows : ℕ)
      → Menu
      → Bytes
      → MenuWorld ms.Heap cl.Boot fs.Card
      → MenuWorld ms.Heap cl.Boot fs.Card × Opening
  begin format_u rows menu path w =
      let (booted, outcome) = boot_selection ms cl fs w menu path 0 in
      if length menu == 0
      then (w, idles)
      else if length menu == 1
      then (booted, auto_boots outcome)
      else (record w { picker = (draw_menu format_u rows menu w.picker).0 }, shows_menu)

  -- One turn of the loop of `Run` with the bytes of the serial line, and what a selection came to.
  unfoldable pub run_step :
      (format_u : ℕ → Bytes) (rows : ℕ)
      → Menu
      → Bytes
      → MenuWorld ms.Heap cl.Boot fs.Card
      → Bytes
      → MenuWorld ms.Heap cl.Boot fs.Card × Option Outcome
  run_step format_u rows menu path w injected =
      let drawn = serve_keys format_u rows menu w.picker injected in
      let selected = record w { picker = record drawn { select_pending = false } } in
      let (booted, outcome) = boot_selection ms cl fs selected menu path drawn.cursor in
      if drawn.select_pending then (booted, some outcome) else (record w { picker = drawn }, none)
