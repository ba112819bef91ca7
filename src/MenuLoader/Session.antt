-- ===== src/MenuLoader/Session.antt =====
-- The picker as a step relation: reports of the keyboard come between the turns of the main loop.
use rapi_bootloader.Base.{ℕ, ◌<◌, sym, subst, ◌≢◌, some, length, Bytes}
use rapi_bootloader.BootMenu.{Menu}
use rapi_bootloader.Circle.{MemorySystem, ChainLoader}
use rapi_bootloader.FatFs.{FatFs}
use rapi_bootloader.MenuLoader.Keys.{key_status_handler_raw}
use rapi_bootloader.MenuLoader.Pressed.{cursor-press_new_keys}
use rapi_bootloader.MenuLoader.Running.{run_step}
use rapi_bootloader.MenuLoader.Selection.{halted, no_entry, MenuWorld}
use rapi_bootloader.MenuLoader.Turn.{RestsOnEntry, run_step-RestsOnEntry}

module _ (ms : MemorySystem) (cl : ChainLoader ms.Heap) (fs : FatFs) (format_u : ℕ → Bytes)
    (rows : ℕ) (menu : Menu) (path : Bytes) where
  pub data MenuStep (w : MenuWorld ms.Heap cl.Boot fs.Card)
      : MenuWorld ms.Heap cl.Boot fs.Card → Type 0 where
    reports :
        (raw_keys : Bytes)
        → MenuStep w (record w { picker = key_status_handler_raw w.picker raw_keys })
    turns : (injected : Bytes) → MenuStep w (run_step ms cl fs format_u rows menu path w injected).0

  pub data MenuReach (s : MenuWorld ms.Heap cl.Boot fs.Card)
      : MenuWorld ms.Heap cl.Boot fs.Card → Type 0 where
    here : MenuReach s s
    next : {t u : MenuWorld ms.Heap cl.Boot fs.Card} → MenuReach s t → MenuStep t u → MenuReach s u

  rests-MenuStep :
      {w w' : MenuWorld ms.Heap cl.Boot fs.Card}
      → RestsOnEntry ms cl fs format_u rows menu path w
      → MenuStep w w'
      → RestsOnEntry ms cl fs format_u rows menu path w'
  unfolding key_status_handler_raw
  rests-MenuStep {w} h (reports raw_keys) =
      subst (λ n. n < length menu) (sym (cursor-press_new_keys raw_keys w.picker)) h
  rests-MenuStep {w} h (turns injected) =
      (run_step-RestsOnEntry ms cl fs format_u rows menu path w injected h).0

  rests-MenuReach :
      {w w' : MenuWorld ms.Heap cl.Boot fs.Card}
      → RestsOnEntry ms cl fs format_u rows menu path w
      → MenuReach w w'
      → RestsOnEntry ms cl fs format_u rows menu path w'
  rests-MenuReach h here = h
  rests-MenuReach h (next r step) = rests-MenuStep (rests-MenuReach h r) step

  -- From a cursor on an entry, after any reports of the keyboard and any turns of the loop the cursor
  -- is on an entry, and the next turn never halts for a selected entry that is not there.
  pub MenuReach-RestsOnEntry :
      {w w' : MenuWorld ms.Heap cl.Boot fs.Card}
      → RestsOnEntry ms cl fs format_u rows menu path w
      → MenuReach w w'
      → (injected : Bytes)
      → RestsOnEntry ms cl fs format_u rows menu path w'
        × ((run_step ms cl fs format_u rows menu path w' injected).1 ≢ some (halted no_entry))
  MenuReach-RestsOnEntry {w' = w'} h r injected =
      let rests = rests-MenuReach h r in
      (rests, (run_step-RestsOnEntry ms cl fs format_u rows menu path w' injected rests).1)
