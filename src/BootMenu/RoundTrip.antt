-- ===== src/BootMenu/RoundTrip.antt =====
-- A bootmenu.cfg written from entries, and what is read back from it.
use rapi_bootloader.Base.{◌<◌, ◌≢◌, List, [], ◌∷◌, ◌++◌, length, get_or, Bytes, nul}
use rapi_bootloader.TextScan.Laws.{IsTrimmed, Lacks}
use rapi_bootloader.BootMenu.{Entry, max_label, max_string}

-- An entry as a line of the file, and the whole file.
abbrev pub render_entry : Entry → Bytes
render_entry e = e.label ++ b'|' ∷ e.string

abbrev pub render : List Entry → Bytes
render [] = []
render (e ∷ es) = render_entry e ++ b'\n' ∷ render es

-- Entries that the file format can express.
pub record IsClean (e : Entry) : Type 0 where
  pub label_trimmed : IsTrimmed e.label
  pub string_trimmed : IsTrimmed e.string
  pub no_pipe : Lacks b'|' e.label
  pub no_newline : Lacks b'\n' (render_entry e)
  pub no_comment : get_or e.label 0 nul ≢ b'#'
  pub label_room : length e.label < max_label
  pub string_room : length e.string < max_string
