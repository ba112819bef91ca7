-- ===== src/MenuLoader/Screen.antt =====
-- menu-loader/kernel.cpp: what `DrawMenu` writes. `%u` of `CString::Format` is a parameter.
use rapi_bootloader.Base.{
  ℕ, zero, suc, ◌+◌, ◌-◌, ◌&&◌, none, some, [], ◌∷◌, ◌++◌, ltb, leb, ◌==◌, if◌then◌else◌, length,
  Bytes, codes,
}
use rapi_bootloader.BootMenu.{Menu, get_label}
use rapi_bootloader.MenuLoader.{Picker, visible_rows}

-- Where the window starts: the first half of `DrawMenu`.
unfoldable pub scroll_window : ℕ → ℕ → ℕ → ℕ → ℕ
scroll_window count page cursor top =
    let near =
      if ltb cursor top
      then cursor
      else if leb (top + page) cursor
      then cursor - page + 1
      else top in
    let full = if ltb page count && ltb (count - page) near then count - page else near in
    if leb count page then 0 else full

unfoldable pub window_end : ℕ → ℕ → ℕ → ℕ
window_end count page top = if ltb count (top + page) then count else top + page

abbrev pub home_and_clear : Bytes
home_and_clear = 0x1b ∷ codes "[H" ++ 0x1b ∷ codes "[J"

abbrev pub heading : Bytes
heading =
    home_and_clear
    ++ (codes "rapi-bootloader boot picker\n"
        ++ (codes "select an entry, then press Enter\n"
            ++ codes "(up/down move, PgUp/PgDn page, 1-9 jump)\n\n"))

-- `Format` prints nothing for the null label of an index out of range.
unfoldable pub label_at : Menu → ℕ → Bytes
unfolding get_label
label_at menu i = elim (get_label menu i) [ none ↦ [] | some label ↦ label ]

module _ (format_u : ℕ → Bytes) where
  -- The line of entry `i`.
  unfoldable pub entry_line : ℕ → ℕ → Bytes → Bytes
  entry_line cursor i label =
      if i == cursor
      then 0x1b ∷ codes "[7m> "
        ++ (format_u (i + 1) ++ (codes ". " ++ (label ++ (0x1b ∷ codes "[0m\n"))))
      else codes "  " ++ (format_u (i + 1) ++ (codes ". " ++ (label ++ codes "\n")))

  -- The lines of `n` entries from entry `i` on.
  unfoldable pub entry_lines : Menu → ℕ → ℕ → ℕ → Bytes
  unfolding entry_line label_at
  entry_lines menu cursor i zero = []
  entry_lines menu cursor i (suc n) =
      entry_line cursor i (label_at menu i) ++ entry_lines menu cursor (i + 1) n

  unfoldable pub footer : ℕ → ℕ → ℕ → Bytes
  footer top end count =
      codes "\n  [ "
      ++ (format_u (top + 1)
          ++ (codes "-"
              ++ (format_u end
                  ++ (codes " of "
                      ++ (format_u count
                          ++ (codes " ]   "
                              ++ ((if ltb 0 top then codes "^PgUp " else [])
                                  ++ (if ltb end count then codes "vPgDn" else []))))))))

  -- `DrawMenu` on a screen of so many rows: the picker afterwards, and the text it writes.
  unfoldable pub draw_menu : ℕ → Menu → Picker → Picker × Bytes
  unfolding scroll_window window_end entry_lines footer
  draw_menu rows menu p =
      let count = length menu in
      let page = visible_rows rows in
      let top = scroll_window count page p.cursor p.top_visible in
      let end = window_end count page top in
      (
        record p { top_visible = top },
        heading
            ++ (entry_lines menu p.cursor top (end - top)
                ++ (if ltb page count then footer top end count else [])),
      )
