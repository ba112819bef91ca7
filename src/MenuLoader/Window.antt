-- ===== src/MenuLoader/Window.antt =====
-- What `DrawMenu` shows: the window of the menu and its rows.
use rapi_bootloader.Base.{
  ℕ, zero, suc, ◌+◌, ◌-◌, ◌≤◌, ◌<◌, ◌≡◌, refl, sym, ap, ◌∙◌, ◌⊎◌, inl, inr, Bool, true, [], ◌∷◌,
  ◌++◌, arith, ltb, ◌==◌, if◌then◌else◌, Bool-cases, length, take, drop, length-drop, take_all,
  Bytes, codes,
}
use mathlib.Core.List.{append_assoc}
use rapi_bootloader.BootMenu.{Menu, Entry, c_str, get_label}
use rapi_bootloader.MenuLoader.{Picker, visible_rows}
use rapi_bootloader.MenuLoader.Screen.{
  scroll_window, window_end, heading, label_at, entry_line, entry_lines, footer, draw_menu,
}

-- What a window of a page from `top` on is: it holds the cursor, and is a whole page of the list, or the
-- whole list.
pub record IsWindow (count page cursor top : ℕ) : Type 0 where
  pub from_top : top ≤ cursor
  pub before_end : cursor < top + page
  pub fills_page : (top + page ≤ count) ⊎ ((top ≡ 0) × (count ≤ page))

scroll_window-IsWindow :
    (count page cursor top : ℕ)
    → 0 < page
    → cursor < count
    → IsWindow count page cursor (scroll_window count page cursor top)
unfolding scroll_window
scroll_window-IsWindow count page cursor top pos inside = record {
  from_top = ground arith;
  before_end = ground arith;
  fills_page = ground arith;
}

module _ (count page top : ℕ) (window : (top + page ≤ count) ⊎ ((top ≡ 0) × (count ≤ page))) where
  window_in_list : top + (window_end count page top - top) ≤ count
  unfolding window_end
  window_in_list = ground (arith, window)

  window_page : ltb page count ≡ true → window_end count page top ≡ top + page
  unfolding window_end
  window_page longer = ground (arith, window, longer)

  window_entries :
      (xs : Menu)
      → length xs ≡ count - top
      → take (window_end count page top - top) xs ≡ take page xs
  unfolding window_end
  window_entries xs h = elim window [
    | inl page_fits ↦
        let n : (if ltb count (top + page) then count else top + page) - top ≡ page =
          ground (arith, page_fits) in
        ap (λ k. take k xs) n
    | inr (at_start, short) ↦
        take_all _ xs (ground (arith, h, at_start, short))
        ∙ sym (take_all page xs (omega (arith, h, at_start, short)))
  ]

label_at-drop :
    (menu : Menu) (i : ℕ)
    → i < length menu
    → (e : Entry) × (drop i menu ≡ e ∷ drop (suc i) menu) × (label_at menu i ≡ c_str e.label)
unfolding label_at get_label
label_at-drop [] i h = absurd (omega (arith, h))
label_at-drop (e ∷ es) zero h = (e, refl, refl)
label_at-drop (e ∷ es) (suc i) h = label_at-drop es i (omega (arith, h))

module _ (format_u : ℕ → Bytes) where
  abbrev reverse_video : Bytes → Bytes
  reverse_video s = (0x1b ∷ codes "[7m") ++ (s ++ (0x1b ∷ codes "[0m"))

  -- The row of an entry: its number and label, marked and in reverse video where the cursor rests.
  abbrev row : Bool → ℕ → Bytes → Bytes
  row resting number label =
      let item = format_u number ++ (codes ". " ++ label) in
      (if resting then reverse_video (codes "> " ++ item) else codes "  " ++ item) ++ codes "\n"

  -- The rows of entries that are numbered from `i + 1` on.
  unfoldable pub rows_of : ℕ → ℕ → Menu → Bytes
  rows_of cursor i [] = []
  rows_of cursor i (e ∷ es) = row (i == cursor) (i + 1) (c_str e.label) ++ rows_of cursor (suc i) es

  entry_line-row :
      (cursor i : ℕ) (label : Bytes)
      → entry_line format_u cursor i label ≡ row (i == cursor) (i + 1) label
  unfolding entry_line
  entry_line-row cursor i label =
      let number = format_u (i + 1) in
      let item = codes ". " ++ label in
      elim (Bool-cases (i == cursor)) [
        | inl resting ↦
            let normal = 0x1b ∷ codes "[0m" in
            rw resting (
              sym (
                ap (λ s. (0x1b ∷ codes "[7m> ") ++ s)
                  (ap (λ s. s ++ codes "\n") (append_assoc number item normal)
                    ∙ append_assoc number (item ++ normal) (codes "\n")
                    ∙ ap (λ s. number ++ (codes ". " ++ s))
                        (append_assoc label normal (codes "\n")))))
        | inr plain ↦
            rw plain (sym (ap (λ s. codes "  " ++ s) (append_assoc number item (codes "\n"))))
      ]

  entry_lines-rows_of :
      (menu : Menu) (cursor i n : ℕ)
      → i + n ≤ length menu
      → entry_lines format_u menu cursor i n ≡ rows_of cursor i (take n (drop i menu))
  unfolding entry_lines rows_of
  entry_lines-rows_of menu cursor i zero h = refl
  entry_lines-rows_of menu cursor i (suc n) h =
      let (e, split, label) = label_at-drop menu i (omega (arith, h)) in
      let next : i + 1 ≡ suc i = omega arith in
      let rest = entry_lines-rows_of menu cursor (suc i) n (omega (arith, h)) in
      rw split (
        ap (λ l. entry_line format_u cursor i l ++ entry_lines format_u menu cursor (i + 1) n) label
        ∙ ap (λ l. l ++ entry_lines format_u menu cursor (i + 1) n)
            (entry_line-row cursor i (c_str e.label))
        ∙ ap (λ s. row (i == cursor) (i + 1) (c_str e.label) ++ s)
            (ap (λ k. entry_lines format_u menu cursor k n) next ∙ rest))

  -- The numbers of the first and the last entry shown, the length of the list, and hints of more
  -- pages above and below.
  abbrev place_of : ℕ → ℕ → ℕ → Bytes
  place_of first last count =
      let above = if ltb 1 first then codes "^PgUp " else [] in
      let below = if ltb last count then codes "vPgDn" else [] in
      let of_all =
        format_u last
        ++ (codes " of " ++ (format_u count ++ (codes " ]   " ++ (above ++ below)))) in
      codes "\n  [ " ++ (format_u first ++ (codes "-" ++ of_all))

  footer-place_of :
      (top end count : ℕ) → footer format_u top end count ≡ place_of (top + 1) end count
  unfolding footer
  footer-place_of top end count =
      let paged : ltb 0 top ≡ ltb 1 (top + 1) = ground arith in rw paged refl

  foot_shown :
      (count page top : ℕ)
      → (top + page ≤ count) ⊎ ((top ≡ 0) × (count ≤ page))
      → (if ltb page count then footer format_u top (window_end count page top) count else [])
        ≡ (if ltb page count then place_of (top + 1) (top + page) count else [])
  foot_shown count page top window = elim (Bool-cases (ltb page count)) [
    | inl longer ↦ rw longer (
        ap (λ end. footer format_u top end count) (window_page count page top window longer)
        ∙ footer-place_of top (top + page) count)
    | inr all ↦ rw all refl
  ]

  -- What is shown: the heading, the rows of the entries of a window that holds the cursor, and below
  -- them the place of the window in a list that is longer than a page.
  pub record Shows (page : ℕ) (menu : Menu) (cursor top : ℕ) (text : Bytes) : Type 0 where
    pub window : IsWindow (length menu) page cursor top
    pub shown :
        text
        ≡ heading
          ++ (rows_of cursor top (take page (drop top menu))
              ++ (if ltb page (length menu)
                  then place_of (top + 1) (top + page) (length menu)
                  else []))

  -- From a cursor on an entry, `DrawMenu` writes the heading and the rows of exactly the entries, in
  -- order, that a window holds: each with its number in the list and its label, and the one under the
  -- cursor alone marked and in reverse video. The window, which is kept for the next drawing, holds
  -- the cursor and is a whole page, or the whole list when that is no longer than a page; below a
  -- longer list stand the numbers of the first and the last entry shown, the length of the list, and
  -- hints of more pages above and below.
  pub draw_menu-Shows :
      (rows : ℕ) (menu : Menu) (p : Picker)
      → p.cursor < length menu
      → let drawn = draw_menu format_u rows menu p in
        Shows (visible_rows rows) menu p.cursor drawn.0.top_visible drawn.1
  unfolding draw_menu
  draw_menu-Shows rows menu p inside =
      let count = length menu in
      let page = visible_rows rows in
      let top = scroll_window count page p.cursor p.top_visible in
      let window = scroll_window-IsWindow count page p.cursor p.top_visible (ground arith) inside in
      let n = window_end count page top - top in
      let lines =
        entry_lines-rows_of menu p.cursor top n (window_in_list count page top window.fills_page)
        ∙ ap (rows_of p.cursor top) (
            window_entries count page top window.fills_page (drop top menu)
              (length-drop top menu)) in
      let foot = foot_shown count page top window.fills_page in
      record { window = window; shown = λ i. heading ++ (lines i ++ foot i) }
