-- ===== src/MenuLoader/Points/Lost.antt =====
-- What becomes of a report of the keyboard that falls between the loop's read of `m_nMoveAccum` and its
-- reset.
use rapi_bootloader.Base.{ℕ, ◌≡◌, refl, false, length, Bytes}
use rapi_bootloader.BootMenu.{Menu}
use rapi_bootloader.Circle.{MemorySystem, ChainLoader}
use rapi_bootloader.FatFs.{FatFs}
use rapi_bootloader.Ints.{ℤ, pos, is_zero}
use rapi_bootloader.MenuLoader.Intents.{moved_cursor}
use rapi_bootloader.MenuLoader.Keys.{key_status_handler_raw}
use rapi_bootloader.MenuLoader.Points.{reads_move, At, take_move, advance}
use rapi_bootloader.MenuLoader.Pressed.{cursor-press_new_keys}
use rapi_bootloader.MenuLoader.Selection.{MenuWorld}
use rapi_bootloader.MenuLoader.{Picker}

taken :
    (count : ℕ) (p : Picker) (move : ℤ)
    → is_zero move ≡ false
    → (take_move count p move).0
      ≡ record p { move_accum = pos 0; cursor = moved_cursor count p.cursor move }
unfolding take_move
taken count p move pending = rw pending refl

module _ (ms : MemorySystem) (cl : ChainLoader ms.Heap) (fs : FatFs) (format_u : ℕ → Bytes)
    (rows : ℕ) (menu : Menu) (path : Bytes) where
  -- A report of the keyboard.
  abbrev pub reported :
      Bytes → At ms cl fs format_u rows menu path → At ms cl fs format_u rows menu path
  reported raw_keys s = (record s.0 { picker = key_status_handler_raw s.0.picker raw_keys }, s.1)

  abbrev pub advanced : At ms cl fs format_u rows menu path → At ms cl fs format_u rows menu path
  advanced s = advance ms cl fs format_u rows menu path s

  -- Let moves be pending, and a report come while the loop drains them. If it comes just before the
  -- loop reads the counter, the cursor moves by the counter with the presses of the report. If it comes
  -- just after, between the read and the reset, the cursor moves as without the report. The counter
  -- is reset either way, so that the moves of the late report are lost.
  pub reported-lost :
      (w : MenuWorld ms.Heap cl.Boot fs.Card) (raw_keys : Bytes)
      → is_zero w.picker.move_accum ≡ false
      → is_zero (key_status_handler_raw w.picker raw_keys).move_accum ≡ false
      → let early = (advanced (advanced (reported raw_keys (w, reads_move)))).0.picker in
        let late = (advanced (reported raw_keys (advanced (w, reads_move)))).0.picker in
        (early.cursor
          ≡ moved_cursor
              (length menu)
              w.picker.cursor
              (key_status_handler_raw w.picker raw_keys).move_accum)
        × (late.cursor ≡ moved_cursor (length menu) w.picker.cursor w.picker.move_accum)
        × (early.move_accum ≡ pos 0)
        × (late.move_accum ≡ pos 0)
  unfolding advance key_status_handler_raw
  reported-lost w raw_keys pending still =
      let pressed = key_status_handler_raw w.picker raw_keys in
      let same = cursor-press_new_keys raw_keys w.picker in
      (
        rw (taken (length menu) pressed pressed.move_accum still, same) refl,
        rw (taken (length menu) pressed w.picker.move_accum pending, same) refl,
        rw (taken (length menu) pressed pressed.move_accum still) refl,
        rw (taken (length menu) pressed w.picker.move_accum pending) refl,
      )
