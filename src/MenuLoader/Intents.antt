-- ===== src/MenuLoader/Intents.antt =====
-- menu-loader/kernel.cpp, `CKernel::Run`: how the main loop drains what the keys recorded.
use rapi_bootloader.Base.{ℕ, ◌-◌, Bool, true, false, not, ◌&&◌, ◌||◌, ltb, leb, ◌==◌, if◌then◌else◌}
use rapi_bootloader.Ints.{ℤ, pos, negsuc, ◌+ℤ◌, scale, is_zero, at_least_zero}
use rapi_bootloader.MenuLoader.{Picker, no_jump, visible_rows}

-- The cursor after `nMove` steps in a menu of `count` entries.
unfoldable pub moved_cursor : ℕ → ℕ → ℤ → ℕ
moved_cursor count cursor move =
    let at = at_least_zero (pos cursor +ℤ move) in if leb count at then count - 1 else at

-- Each part of the draining returns the picker and `bRedraw`.
unfoldable pub drain_move : ℕ → Picker → Picker × Bool
unfolding moved_cursor
drain_move count p =
    let cursor = moved_cursor count p.cursor p.move_accum in
    if is_zero p.move_accum
    then (p, false)
    else (record p { move_accum = pos 0; cursor = cursor }, not (cursor == p.cursor))

-- The first entry drawn after `nPage` whole pages of `step` rows.
unfoldable pub paged_top : ℕ → ℕ → ℕ → ℤ → ℕ
paged_top count step top page =
    let max_top = if ltb step count then count - step else 0 in
    let at = at_least_zero (pos top +ℤ scale page step) in if ltb max_top at then max_top else at

unfoldable pub drain_page : ℕ → ℕ → Picker → Picker × Bool
unfolding paged_top
drain_page count step p =
    let top = paged_top count step p.top_visible p.page_accum in
    if is_zero p.page_accum then (p, false) else (
      record p { page_accum = pos 0; top_visible = top; cursor = top },
      not (top == p.top_visible) || not (p.cursor == top),
    )

unfoldable pub drain_jump : ℕ → Picker → Picker × Bool
drain_jump count p = elim p.jump_to [
  | negsuc n ↦ (p, false)
  | pos jump ↦
      if ltb jump count && not (jump == p.cursor)
      then (record p { jump_to = no_jump; cursor = jump }, true)
      else (record p { jump_to = no_jump }, false)
]

-- The three in the order of the loop.
unfoldable pub drain : ℕ → ℕ → Picker → Picker × Bool
unfolding drain_move drain_page drain_jump
drain rows count p =
    let move = drain_move count p in
    let page = drain_page count (visible_rows rows) move.0 in
    let jump = drain_jump count page.0 in (jump.0, move.1 || page.1 || jump.1)
