-- ===== src/MenuLoader/Points.antt =====
-- menu-loader/kernel.cpp, a turn of `CKernel::Run` in small steps, with the reports of the keyboard
-- between any two of them: KeyStatusHandlerRaw runs in interrupt context. Each of the loop's reads of a
-- volatile counter is a step, and so is its reset with what follows; `++` and `--` are taken as one.
pub mod Plain
pub mod Safe
pub mod Lost
use rapi_bootloader.Base.{
  ℕ, zero, suc, Bool, true, false, not, ◌&&◌, ◌||◌, Option, none, some, [], ◌∷◌, ltb, ◌==◌,
  if◌then◌else◌, length, Bytes,
}
use rapi_bootloader.BootMenu.{Menu}
use rapi_bootloader.Circle.{MemorySystem, ChainLoader}
use rapi_bootloader.FatFs.{FatFs}
use rapi_bootloader.Ints.{ℤ, pos, negsuc, is_zero}
use rapi_bootloader.MenuLoader.Intents.{moved_cursor, paged_top}
use rapi_bootloader.MenuLoader.Keys.{inject_char, key_status_handler_raw}
use rapi_bootloader.MenuLoader.Screen.{draw_menu}
use rapi_bootloader.MenuLoader.Selection.{Outcome, MenuWorld, boot_selection}
use rapi_bootloader.MenuLoader.{Picker, no_jump, visible_rows}

-- Where the loop is: before a read, or with what it has read (`nMove`, `nPage`, `nJump`) and `bRedraw`.
pub data Point : Type 0 where
  types : Bytes → Point
  reads_move tests_select selects : Point
  moves : ℤ → Point
  reads_page reads_jump redraws : Bool → Point
  pages jumps : Bool → ℤ → Point
  ended : Option Outcome → Point

-- `if (nMove != 0)`, with what it has read.
unfoldable pub take_move : ℕ → Picker → ℤ → Picker × Bool
take_move count p move =
    let cursor = moved_cursor count p.cursor move in
    if is_zero move
    then (p, false)
    else (record p { move_accum = pos 0; cursor = cursor }, not (cursor == p.cursor))

-- `if (nPage != 0)`
unfoldable pub take_page : ℕ → ℕ → Picker → ℤ → Picker × Bool
take_page count step p page =
    let top = paged_top count step p.top_visible page in
    if is_zero page then (p, false) else (
      record p { page_accum = pos 0; top_visible = top; cursor = top },
      not (top == p.top_visible) || not (p.cursor == top),
    )

-- `if (nJump >= 0)`
unfoldable pub take_jump : ℕ → Picker → ℤ → Picker × Bool
take_jump count p (negsuc n) = (p, false)
take_jump count p (pos jump) =
    if ltb jump count && not (jump == p.cursor)
    then (record p { jump_to = no_jump; cursor = jump }, true)
    else (record p { jump_to = no_jump }, false)

module _ (ms : MemorySystem) (cl : ChainLoader ms.Heap) (fs : FatFs) (format_u : ℕ → Bytes)
    (rows : ℕ) (menu : Menu) (path : Bytes) where
  abbrev pub At : Type 0
  At = MenuWorld ms.Heap cl.Boot fs.Card × Point

  -- The next step of the loop.
  unfoldable pub advance : At → At
  unfolding take_move take_page take_jump
  advance (w, types []) = (w, reads_move)
  advance (w, types (c ∷ cs)) = (record w { picker = inject_char w.picker c }, types cs)
  advance (w, reads_move) = (w, moves w.picker.move_accum)
  advance (w, moves move) =
      let r = take_move (length menu) w.picker move in (record w { picker = r.0 }, reads_page r.1)
  advance (w, reads_page redraw) = (w, pages redraw w.picker.page_accum)
  advance (w, pages redraw page) =
      let r = take_page (length menu) (visible_rows rows) w.picker page in
      (record w { picker = r.0 }, reads_jump (redraw || r.1))
  advance (w, reads_jump redraw) = (w, jumps redraw w.picker.jump_to)
  advance (w, jumps redraw jump) =
      let r = take_jump (length menu) w.picker jump in
      (record w { picker = r.0 }, redraws (redraw || r.1))
  advance (w, redraws redraw) =
      let drawn = record w { picker = (draw_menu format_u rows menu w.picker).0 } in
      (if redraw then drawn else w, tests_select)
  advance (w, tests_select) = (w, if w.picker.select_pending then selects else ended none)
  advance (w, selects) =
      let selected = record w { picker = record w.picker { select_pending = false } } in
      let booted = boot_selection ms cl fs selected menu path w.picker.cursor in
      (booted.0, ended (some booted.1))
  advance (w, ended outcome) = (w, ended outcome)

  -- A step of the loop, or a report of the keyboard.
  pub data PointStep (s : At) : At → Type 0 where
    loops : PointStep s (advance s)
    reports :
        (raw_keys : Bytes)
        → PointStep s (record s.0 { picker = key_status_handler_raw s.0.picker raw_keys }, s.1)

  pub data PointReach (s : At) : At → Type 0 where
    here : PointReach s s
    next : {t u : At} → PointReach s t → PointStep t u → PointReach s u

  -- Steps of the loop with no report between them.
  unfoldable pub advance_n : ℕ → At → At
  advance_n zero s = s
  advance_n (suc n) s = advance_n n (advance s)
