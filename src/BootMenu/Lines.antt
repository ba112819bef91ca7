-- ===== src/BootMenu/Lines.antt =====
-- The walk over the buffer against a description by lines.
use mathlib.Core.List.{append-nil, append_assoc}
use rapi_bootloader.Base.{
  ℕ, ◌≤◌, ◌≡◌, refl, sym, ap, ◌∙◌, inl, inr, ◌||◌, Option, none, some, List, [], ◌∷◌, ◌++◌, arith,
  leb, ◌==◌, if◌then◌else◌, Bool-cases, Option-cases, length, take, length-append, take_all, Bytes,
}
use rapi_bootloader.TextScan.{trim_start, trim_end, index_of}
use rapi_bootloader.TextScan.Lines.{split_lines, fold_lines, eq-walk, walk-split_lines}
use rapi_bootloader.TextScan.Laws.{take_append}
use rapi_bootloader.BootMenu.{
  Entry, Menu, max_entries, split_entry, parse_trimmed, parse_line, parse_lines,
}

-- The entry that a trimmed line stands for, if any.
abbrev pub entry_of_trimmed : Bytes → Option Entry
entry_of_trimmed [] = none
entry_of_trimmed (c ∷ cs) =
    if c == b'#' || index_of b'|' (c ∷ cs) == length (c ∷ cs)
    then none
    else some (split_entry (c ∷ cs) (index_of b'|' (c ∷ cs)))

unfoldable pub entry_of : Bytes → Option Entry
entry_of line = entry_of_trimmed (trim_end (trim_start line))

abbrev pub cons_option {ℓ} : {A : Type ℓ} → Option A → List A → List A
cons_option none xs = xs
cons_option (some x) xs = x ∷ xs

-- The entries of some lines, in their order.
unfoldable pub entries_of : List Bytes → List Entry
entries_of [] = []
entries_of (l ∷ ls) = cons_option (entry_of l) (entries_of ls)

abbrev add_entry : Menu → Option Entry → Menu
add_entry menu none = menu
add_entry menu (some e) = if leb max_entries (length menu) then menu else menu ++ e ∷ []

parse_trimmed-add_entry :
    (menu : Menu) (line : Bytes) → parse_trimmed menu line ≡ add_entry menu (entry_of_trimmed line)
unfolding parse_trimmed
parse_trimmed-add_entry menu [] = refl
parse_trimmed-add_entry menu (c ∷ cs) = ground arith

parse_line-add_entry :
    (menu : Menu) (line : Bytes) → parse_line menu line ≡ add_entry menu (entry_of line)
unfolding parse_line entry_of
parse_line-add_entry menu line = parse_trimmed-add_entry menu (trim_end (trim_start line))

parse_lines-fold_lines :
    (text : Bytes) → parse_lines [] [] text ≡ fold_lines parse_line [] (split_lines text)
unfolding parse_lines
parse_lines-fold_lines text =
    eq-walk parse_line parse_lines (λ s line. refl) (λ s line rest c. refl) [] [] text
    ∙ walk-split_lines parse_line [] text

take_exact {ℓ} : {A : Type ℓ} (s t : List A) (n : ℕ) → length s ≡ n → take n (s ++ t) ≡ s
take_exact s t n e = rw (← e) (take_append s t)

fold_lines-take :
    (ls : List Bytes) (menu : Menu)
    → length menu ≤ max_entries
    → fold_lines parse_line menu ls ≡ take max_entries (menu ++ entries_of ls)
unfolding entries_of
fold_lines-take [] menu h = rw (append-nil menu) (sym (take_all max_entries menu h))
fold_lines-take (l ∷ ls) menu h = elim (Option-cases (entry_of l)) [
  | inl skip ↦ rw (parse_line-add_entry menu l, skip) (fold_lines-take ls menu h)
  | inr (e, found) ↦ elim (Bool-cases (leb max_entries (length menu))) [
    | inl full ↦
        let exact : length menu ≡ max_entries = ground arith in
        rw (parse_line-add_entry menu l, found)
          (rw (full, add_entry)
            (fold_lines-take ls menu h
              ∙ take_exact menu (entries_of ls) max_entries exact
              ∙ sym (take_exact menu (e ∷ entries_of ls) max_entries exact)))
    | inr room ↦
        rw (parse_line-add_entry menu l, found)
          (rw (room, add_entry)
            (fold_lines-take ls (menu ++ e ∷ []) (ground (arith, length-append menu (e ∷ [])))
              ∙ ap (take max_entries) (append_assoc menu (e ∷ []) (entries_of ls))))
  ]
]

-- The menu that Load builds from a buffer is the first 64 entries of its lines, in file order: blank
-- lines, comments and lines with no '|' stand for none, and the loop over the buffer cuts the text
-- exactly at its newlines.
pub parse_lines-entries_of :
    (text : Bytes) → parse_lines [] [] text ≡ take max_entries (entries_of (split_lines text))
parse_lines-entries_of text =
    parse_lines-fold_lines text ∙ fold_lines-take (split_lines text) [] (omega arith)
