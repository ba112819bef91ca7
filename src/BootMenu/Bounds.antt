-- ===== src/BootMenu/Bounds.antt =====
-- What every menu that is read from a file satisfies.
use rapi_bootloader.Base.{
  ℕ, zero, suc, ◌+◌, ◌-◌, ◌≤◌, ◌<◌, inl, inr, ◌||◌, Option, none, some, List, [], ◌∷◌, arith, ◌==◌,
  Bool-cases, length, take, drop, length-take, All, Bytes,
}
use rapi_bootloader.TextScan.{trim_start, trim_end, index_of}
use rapi_bootloader.TextScan.Lines.{split_lines}
use rapi_bootloader.TextScan.Laws.{Lacks}
use rapi_bootloader.BootMenu.{Entry, max_entries, max_label, max_string, split_entry, parse_lines}
use rapi_bootloader.BootMenu.Lines.{
  entry_of_trimmed, entry_of, entries_of, cons_option, parse_lines-entries_of,
}

-- The label fits its array with its NUL and holds no separator; the string fits its array.
pub record IsEntry (e : Entry) : Type 0 where
  pub label_room : length e.label < max_label
  pub string_room : length e.string < max_string
  pub no_pipe : Lacks b'|' e.label

Lacks-take : (c n : ℕ) (s : Bytes) → Lacks c s → Lacks c (take n s)
Lacks-take c zero s h = tt
Lacks-take c (suc n) [] h = tt
Lacks-take c (suc n) (x ∷ s) h = (h.0, Lacks-take c n s h.1)

Lacks-trim_end : (c : ℕ) (s : Bytes) → Lacks c s → Lacks c (trim_end s)
unfolding trim_end
Lacks-trim_end c s h = Lacks-take c _ s h

-- Before the first separator there is none.
Lacks-take-index_of : (c : ℕ) (s : Bytes) → Lacks c (take (index_of c s) s)
unfolding index_of
Lacks-take-index_of c [] = tt
Lacks-take-index_of c (x ∷ s) = elim (Bool-cases (x == c)) [
  | inl hit ↦ rw hit tt
  | inr miss ↦ rw miss (ground arith, Lacks-take-index_of c s)
]

IsEntry-split_entry : (s : Bytes) → IsEntry (split_entry s (index_of b'|' s))
unfolding split_entry
IsEntry-split_entry s = record {
  label_room = omega (arith, length-take (max_label - 1) (trim_end (take (index_of b'|' s) s)));
  string_room =
      omega (arith, length-take (max_string - 1) (trim_start (drop (index_of b'|' s + 1) s)));
  no_pipe = Lacks-take b'|' (max_label - 1) _ (Lacks-trim_end b'|' _ (Lacks-take-index_of b'|' s));
}

abbrev AllOption : Option Entry → Type 0
AllOption none = Unit
AllOption (some e) = IsEntry e

IsEntry-entry_of_trimmed : (s : Bytes) → AllOption (entry_of_trimmed s)
IsEntry-entry_of_trimmed [] = tt
IsEntry-entry_of_trimmed (c ∷ cs) =
    elim (Bool-cases (c == b'#' || index_of b'|' (c ∷ cs) == length (c ∷ cs))) [
      | inl skip ↦ rw skip tt
      | inr found ↦ rw found (IsEntry-split_entry (c ∷ cs))
    ]

All-cons_option :
    (o : Option Entry) (es : List Entry)
    → AllOption o
    → All IsEntry es
    → All IsEntry (cons_option o es)
All-cons_option none es h k = k
All-cons_option (some e) es h k = (h, k)

All-entries_of : (ls : List Bytes) → All IsEntry (entries_of ls)
unfolding entries_of entry_of
All-entries_of [] = tt
All-entries_of (l ∷ ls) =
    All-cons_option (entry_of l) (entries_of ls)
      (IsEntry-entry_of_trimmed (trim_end (trim_start l))) (All-entries_of ls)

All-take : (n : ℕ) (es : List Entry) → All IsEntry es → All IsEntry (take n es)
All-take zero es h = tt
All-take (suc n) [] h = tt
All-take (suc n) (e ∷ es) h = (h.0, All-take n es h.1)

-- Whatever the file holds, the menu has at most 64 entries, each label is shorter than 96 bytes and
-- holds no '|', and each string is shorter than 1024 bytes: the fixed arrays are never overrun.
pub parse_lines-IsEntry :
    (text : Bytes)
    → (length (parse_lines [] [] text) ≤ max_entries) × All IsEntry (parse_lines [] [] text)
parse_lines-IsEntry text = rw (parse_lines-entries_of text) (
  omega (arith, length-take max_entries (entries_of (split_lines text))),
  All-take max_entries _ (All-entries_of (split_lines text)),
)
