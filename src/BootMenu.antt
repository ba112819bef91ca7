-- ===== src/BootMenu.antt =====
-- menu-loader/bootmenu.cpp and bootmenu.h: the entries of bootmenu.cfg. `m_nCount` entries of two
-- arrays are a list.
pub mod Lines
pub mod Bounds
pub mod RoundTrip
use rapi_bootloader.Base.{
  ℕ, zero, suc, ◌+◌, ◌-◌, ◌*◌, Bool, true, false, not, Option, none, some, List, [], ◌∷◌, ◌++◌, ltb,
  leb, ◌==◌, if◌then◌else◌, length, take, drop, Bytes, nul,
}
use rapi_bootloader.FatFs.{FatFs, FResult, is_ok, fa_read}
use rapi_bootloader.TextScan.{is_space, trim_start, trim_end, index_of}

abbrev pub max_entries : ℕ
max_entries = 64

abbrev pub max_label : ℕ
max_label = 96

abbrev pub max_string : ℕ
max_string = 1024

abbrev pub max_config_bytes : ℕ
max_config_bytes = 64 * 1024

pub record Entry : Type 0 where
  pub label : Bytes
  pub string : Bytes

abbrev pub Menu : Type 0
Menu = List Entry

-- The entry that a trimmed line with a '|' at `pipe` gives; both parts are cut to their arrays.
unfoldable pub split_entry : Bytes → ℕ → Entry
split_entry line pipe = record {
  label = take (max_label - 1) (trim_end (take pipe line));
  string = take (max_string - 1) (trim_start (drop (pipe + 1) line));
}

-- A line after trimming: blank lines, comments, lines with no '|', and lines past the limit are
-- skipped.
unfoldable pub parse_trimmed : Menu → Bytes → Menu
unfolding split_entry
parse_trimmed menu [] = menu
parse_trimmed menu (c ∷ cs) =
    if c == b'#'
    then menu
    else if index_of b'|' (c ∷ cs) == length (c ∷ cs)
    then menu
    else if leb max_entries (length menu)
    then menu
    else menu ++ split_entry (c ∷ cs) (index_of b'|' (c ∷ cs)) ∷ []

unfoldable pub parse_line : Menu → Bytes → Menu
unfolding parse_trimmed
parse_line menu line = parse_trimmed menu (trim_end (trim_start line))

-- The walk over the buffer; `line` is what stands since the last newline.
unfoldable pub parse_lines : Menu → Bytes → Bytes → Menu
parse_lines menu line [] = parse_line menu line
parse_lines menu line (c ∷ rest) =
    parse_lines (if c == b'\n' then parse_line menu line else menu)
      (if c == b'\n' then [] else line ++ c ∷ []) rest

-- `Load`: the card afterwards, the menu, and the result. `allocated` says whether `new char[]` gave
-- a buffer.
unfoldable pub load : (fs : FatFs) → fs.Card → Bytes → Bool → fs.Card × Menu × Bool
load fs card path allocated =
    let (card1, opened, file) = fs.f_open card path fa_read in
    let size = if ltb max_config_bytes (fs.f_size file) then max_config_bytes else fs.f_size file in
    let (card2, file2, result, buffer) = fs.f_read card1 file size in
    if not (is_ok opened)
    then (card1, [], false)
    else if not allocated
    then (fs.f_close card1 file, [], false)
    else if not (is_ok result)
    then (fs.f_close card2 file2, [], false)
    else (fs.f_close card2 file2, parse_lines [] [] buffer, true)

-- The bytes of a C string in an array.
unfoldable pub c_str : Bytes → Bytes
c_str [] = []
c_str (c ∷ cs) = let rest = c_str cs in if c == nul then [] else c ∷ rest

-- `GetLabel` and `GetString`: null out of range.
unfoldable pub get_label : Menu → ℕ → Option Bytes
unfolding c_str
get_label [] i = none
get_label (e ∷ es) zero = some (c_str e.label)
get_label (e ∷ es) (suc i) = get_label es i

unfoldable pub get_string : Menu → ℕ → Option Bytes
unfolding c_str
get_string [] i = none
get_string (e ∷ es) zero = some (c_str e.string)
get_string (e ∷ es) (suc i) = get_string es i
