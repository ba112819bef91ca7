-- ===== src/MenuLoader/Points/Safe.antt =====
-- The cursor stays on an entry wherever the reports of the keyboard fall.
use rapi_bootloader.Base.{ℕ, ◌<◌, sym, subst, ◌≢◌, true, false, some, [], ◌∷◌, arith, length, Bytes}
use rapi_bootloader.BootMenu.{Menu}
use rapi_bootloader.Circle.{MemorySystem, ChainLoader}
use rapi_bootloader.FatFs.{FatFs}
use rapi_bootloader.Ints.{ℤ, pos, negsuc}
use rapi_bootloader.MenuLoader.Cursor.{moved_cursor-lt, paged_top-lt}
use rapi_bootloader.MenuLoader.Keys.{key_status_handler_raw}
use rapi_bootloader.MenuLoader.Points.{
  Point, types, reads_move, moves, reads_page, pages, reads_jump, jumps, redraws, tests_select,
  selects, ended, At, take_move, take_page, take_jump, advance, PointStep, loops, reports,
  PointReach, here, next,
}
use rapi_bootloader.MenuLoader.Pressed.{cursor-press_new_keys}
use rapi_bootloader.MenuLoader.Screen.{draw_menu}
use rapi_bootloader.MenuLoader.Selection.{halted, no_entry, MenuWorld}
use rapi_bootloader.MenuLoader.Turn.{
  cursor-inject_char, picker-boot_selection, boot_selection-found,
}
use rapi_bootloader.MenuLoader.{Picker, visible_rows}

module _ (count : ℕ) where
  cursor-take_move :
      (p : Picker) (move : ℤ) → p.cursor < count → (take_move count p move).0.cursor < count
  unfolding take_move
  cursor-take_move p move inside =
      let bound = moved_cursor-lt count p.cursor move (ground arith) in ground arith

  cursor-take_page :
      (step : ℕ) (p : Picker) (page : ℤ)
      → 0 < step
      → p.cursor < count
      → (take_page count step p page).0.cursor < count
  unfolding take_page
  cursor-take_page step p page pos_step inside =
      let bound = paged_top-lt count step p.top_visible page pos_step (ground arith) in ground arith

  cursor-take_jump :
      (p : Picker) (jump : ℤ) → p.cursor < count → (take_jump count p jump).0.cursor < count
  unfolding take_jump
  cursor-take_jump p (pos jump) inside = ground arith
  cursor-take_jump p (negsuc n) inside = inside

module _ (ms : MemorySystem) (cl : ChainLoader ms.Heap) (fs : FatFs) (format_u : ℕ → Bytes)
    (rows : ℕ) (menu : Menu) (path : Bytes) where
  -- The cursor is on an entry, and no selection has halted for an entry that is not there.
  abbrev pub IsSafe : At ms cl fs format_u rows menu path → Type 0
  IsSafe s = (s.0.picker.cursor < length menu) × (s.1 ≢ ended (some (halted no_entry)))

  advance-IsSafe :
      (w : MenuWorld ms.Heap cl.Boot fs.Card) (point : Point)
      → IsSafe (w, point)
      → IsSafe (advance ms cl fs format_u rows menu path (w, point))
  unfolding advance draw_menu
  advance-IsSafe w (types []) h = (h.0, λ e. ground (arith, e))
  advance-IsSafe w (types (c ∷ cs)) h = (
    subst (λ n. n < length menu) (sym (cursor-inject_char w.picker c)) h.0,
    λ e. ground (arith, e),
  )
  advance-IsSafe w reads_move h = (h.0, λ e. ground (arith, e))
  advance-IsSafe w (moves move) h =
      (cursor-take_move (length menu) w.picker move h.0, λ e. ground (arith, e))
  advance-IsSafe w (reads_page redraw) h = (h.0, λ e. ground (arith, e))
  advance-IsSafe w (pages redraw page) h = (
    cursor-take_page (length menu) (visible_rows rows) w.picker page (ground arith) h.0,
    λ e. ground (arith, e),
  )
  advance-IsSafe w (reads_jump redraw) h = (h.0, λ e. ground (arith, e))
  advance-IsSafe w (jumps redraw jump) h =
      (cursor-take_jump (length menu) w.picker jump h.0, λ e. ground (arith, e))
  advance-IsSafe w (redraws true) h = (h.0, λ e. ground (arith, e))
  advance-IsSafe w (redraws false) h = (h.0, λ e. ground (arith, e))
  advance-IsSafe w tests_select h = (h.0, λ e. ground (arith, e))
  advance-IsSafe w selects h =
      let selected = record w { picker = record w.picker { select_pending = false } } in
      (
        subst (λ (p : Picker). p.cursor < length menu)
            (sym (picker-boot_selection ms cl fs format_u rows menu path selected w.picker.cursor))
            h.0,
        λ e.
            boot_selection-found ms cl fs format_u rows menu path selected w.picker.cursor h.0
              (ground (arith, e)),
      )
  advance-IsSafe w (ended outcome) h = h

  PointStep-IsSafe :
      {s t : At ms cl fs format_u rows menu path}
      → IsSafe s
      → PointStep ms cl fs format_u rows menu path s t
      → IsSafe t
  unfolding key_status_handler_raw
  PointStep-IsSafe {s} h loops = advance-IsSafe s.0 s.1 h
  PointStep-IsSafe {s} h (reports raw_keys) =
      (subst (λ n. n < length menu) (sym (cursor-press_new_keys raw_keys s.0.picker)) h.0, h.1)

  -- From a cursor on an entry and a turn that has not ended so, whatever the serial line and the
  -- reports of the keyboard bring, and between whichever steps of the turn the reports fall: the
  -- cursor is on an entry, and no selection halts for an entry that is not there.
  pub PointReach-IsSafe :
      {s t : At ms cl fs format_u rows menu path}
      → IsSafe s
      → PointReach ms cl fs format_u rows menu path s t
      → IsSafe t
  PointReach-IsSafe h here = h
  PointReach-IsSafe h (next r step) = PointStep-IsSafe (PointReach-IsSafe h r) step
