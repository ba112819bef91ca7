-- ===== src/MenuLoader/Cursor.antt =====
-- What the main loop leaves when it drains the recorded keys.
use rapi_bootloader.Base.{ℕ, ◌<◌, ◌≡◌, ◌∙◌, ◌⊎◌, inl, inr, Bool, true, false, arith, Bool-cases}
use rapi_bootloader.Ints.{is_negative, ℤ, pos, zero_cases}
use rapi_bootloader.MenuLoader.{Picker, visible_rows}
use rapi_bootloader.MenuLoader.Intents.{
  moved_cursor, drain_move, paged_top, drain_page, drain_jump, drain,
}

module _ (count : ℕ) where
  pub moved_cursor-lt : (cursor : ℕ) (move : ℤ) → 0 < count → moved_cursor count cursor move < count
  unfolding moved_cursor
  moved_cursor-lt cursor move some_entry = ground arith

  pub paged_top-lt :
      (step top : ℕ) (page : ℤ) → 0 < step → 0 < count → paged_top count step top page < count
  unfolding paged_top
  paged_top-lt step top page pos_step some_entry = ground arith

  cursor-drain_move : (p : Picker) → p.cursor < count → (drain_move count p).0.cursor < count
  unfolding drain_move
  cursor-drain_move p inside =
      let bound = moved_cursor-lt p.cursor p.move_accum (ground arith) in ground arith

  cursor-drain_page :
      (step : ℕ) (p : Picker)
      → 0 < step
      → p.cursor < count
      → (drain_page count step p).0.cursor < count
  unfolding drain_page
  cursor-drain_page step p pos_step inside =
      let bound = paged_top-lt step p.top_visible p.page_accum pos_step (ground arith) in
      ground arith

  cursor-drain_jump : (p : Picker) → p.cursor < count → (drain_jump count p).0.cursor < count
  unfolding drain_jump
  cursor-drain_jump p inside = ground arith

  cursor-drain : (rows : ℕ) (p : Picker) → p.cursor < count → (drain rows count p).0.cursor < count
  unfolding drain
  cursor-drain rows p inside =
      let moved = cursor-drain_move p inside in
      let paged =
        cursor-drain_page (visible_rows rows) (drain_move count p).0 (ground arith) moved in
      cursor-drain_jump (drain_page count (visible_rows rows) (drain_move count p).0).0 paged

  -- No intent is left, and the picture on the screen is stale only if a redraw is asked for.
  pub record IsDrained (p : Picker) (drained : Picker × Bool) : Type 0 where
    pub on_entry : drained.0.cursor < count
    pub no_move : drained.0.move_accum ≡ pos 0
    pub no_page : drained.0.page_accum ≡ pos 0
    pub no_jump_left : is_negative drained.0.jump_to ≡ true
    pub redrawn_or_same :
        (drained.1 ≡ true)
        ⊎ ((drained.0.cursor ≡ p.cursor) × (drained.0.top_visible ≡ p.top_visible))
    pub same_select : drained.0.select_pending ≡ p.select_pending

  move-drain_move : (p : Picker) → (drain_move count p).0.move_accum ≡ pos 0
  unfolding drain_move
  move-drain_move p = elim (zero_cases p.move_accum) [
    | inl e ↦ ground (arith, e)
    | inr e ↦ ground (arith, e)
  ]

  page-drain_page : (step : ℕ) (p : Picker) → (drain_page count step p).0.page_accum ≡ pos 0
  unfolding drain_page
  page-drain_page step p = elim (zero_cases p.page_accum) [
    | inl e ↦ ground (arith, e)
    | inr e ↦ ground (arith, e)
  ]

  jump-drain_jump : (p : Picker) → is_negative (drain_jump count p).0.jump_to ≡ true
  unfolding drain_jump
  jump-drain_jump p = ground arith

  quiet_move :
      (p : Picker)
      → (drain_move count p).1 ≡ false
      → ((drain_move count p).0.cursor ≡ p.cursor)
        × ((drain_move count p).0.top_visible ≡ p.top_visible)
  unfolding drain_move
  quiet_move p quiet = (ground arith, ground arith)

  quiet_page :
      (step : ℕ) (p : Picker)
      → (drain_page count step p).1 ≡ false
      → ((drain_page count step p).0.cursor ≡ p.cursor)
        × ((drain_page count step p).0.top_visible ≡ p.top_visible)
  unfolding drain_page
  quiet_page step p quiet = (ground arith, ground arith)

  quiet_jump :
      (p : Picker)
      → (drain_jump count p).1 ≡ false
      → ((drain_jump count p).0.cursor ≡ p.cursor)
        × ((drain_jump count p).0.top_visible ≡ p.top_visible)
  unfolding drain_jump
  quiet_jump p quiet = (ground arith, ground arith)

  quiet_drain :
      (rows : ℕ) (p : Picker)
      → (drain rows count p).1 ≡ false
      → ((drain rows count p).0.cursor ≡ p.cursor)
        × ((drain rows count p).0.top_visible ≡ p.top_visible)
  unfolding drain
  quiet_drain rows p quiet =
      let step = visible_rows rows in
      let moved = (drain_move count p).0 in
      let paged = (drain_page count step moved).0 in
      let m = quiet_move p (ground arith) in
      let g = quiet_page step moved (ground arith) in
      let j = quiet_jump paged (ground arith) in (j.0 ∙ g.0 ∙ m.0, j.1 ∙ g.1 ∙ m.1)

  -- From a cursor on an entry, draining leaves the cursor on an entry and no intent behind, whatever
  -- the intents add up to; it asks for a redraw unless cursor and window are as they were.
  pub drain-IsDrained :
      (rows : ℕ) (p : Picker) → p.cursor < count → IsDrained p (drain rows count p)
  unfolding drain drain_move drain_page drain_jump
  drain-IsDrained rows p inside = record {
    on_entry = cursor-drain rows p inside;
    no_move = ground (arith, move-drain_move p);
    no_page = ground (arith, page-drain_page (visible_rows rows) (drain_move count p).0);
    no_jump_left = jump-drain_jump _;
    redrawn_or_same = elim (Bool-cases (drain rows count p).1) [
      | inl redraw ↦ inl redraw
      | inr quiet ↦ inr (quiet_drain rows p quiet)
    ];
    same_select = ground arith;
  }
