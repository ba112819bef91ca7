-- ===== src/MenuLoader/Turn.antt =====
-- The cursor of the picker over a turn of the main loop.
use rapi_bootloader.Base.{
  ℕ, zero, suc, ◌<◌, ◌≡◌, refl, sym, ◌∙◌, subst, ◌≢◌, inl, inr, false, Option, none, some, [], ◌∷◌,
  arith, Bool-cases, length, Bytes,
}
use rapi_bootloader.BootMenu.{Menu, get_label, get_string}
use rapi_bootloader.Circle.{MemorySystem, ChainLoader}
use rapi_bootloader.FatFs.{FatFs}
use rapi_bootloader.MenuLoader.{Picker}
use rapi_bootloader.MenuLoader.Intents.{drain}
use rapi_bootloader.MenuLoader.Cursor.{drain-IsDrained}
use rapi_bootloader.MenuLoader.Screen.{draw_menu}
use rapi_bootloader.MenuLoader.Keys.{inject_char, inject_chars}
use rapi_bootloader.MenuLoader.Selection.{
  halted, no_entry, MenuWorld, with_image_buffer, boot_file, boot_entry, boot_chosen,
  boot_selection,
}
use rapi_bootloader.MenuLoader.Running.{serve_keys, run_step}

pub get_label_in :
    (menu : Menu) (i : ℕ) → i < length menu → (label : Bytes) × (get_label menu i ≡ some label)
unfolding get_label
get_label_in [] i h = absurd (ground (arith, h))
get_label_in (e ∷ es) zero h = (_, refl)
get_label_in (e ∷ es) (suc i) h = get_label_in es i (ground (arith, h))

pub get_string_in :
    (menu : Menu) (i : ℕ) → i < length menu → (string : Bytes) × (get_string menu i ≡ some string)
unfolding get_string
get_string_in [] i h = absurd (ground (arith, h))
get_string_in (e ∷ es) zero h = (_, refl)
get_string_in (e ∷ es) (suc i) h = get_string_in es i (ground (arith, h))

pub cursor-inject_char : (p : Picker) (c : ℕ) → (inject_char p c).cursor ≡ p.cursor
unfolding inject_char
cursor-inject_char p c = ground arith

cursor-inject_chars : (p : Picker) (cs : Bytes) → (inject_chars p cs).cursor ≡ p.cursor
unfolding inject_chars
cursor-inject_chars p [] = refl
cursor-inject_chars p (c ∷ cs) = cursor-inject_chars (inject_char p c) cs ∙ cursor-inject_char p c

module _ (ms : MemorySystem) (cl : ChainLoader ms.Heap) (fs : FatFs) (format_u : ℕ → Bytes)
    (rows : ℕ) (menu : Menu) (path : Bytes) where
  -- What holds between two turns.
  abbrev pub RestsOnEntry : MenuWorld ms.Heap cl.Boot fs.Card → Type 0
  RestsOnEntry w = w.picker.cursor < length menu

  picker-boot_chosen :
      (w : MenuWorld ms.Heap cl.Boot fs.Card) (label string : Option Bytes)
      → (boot_chosen ms cl fs w path label string).0.picker ≡ w.picker
  unfolding boot_chosen boot_entry boot_file with_image_buffer
  picker-boot_chosen w (some label) (some string) = ground arith
  picker-boot_chosen w (some label) none = refl
  picker-boot_chosen w none string = refl

  pub picker-boot_selection :
      (w : MenuWorld ms.Heap cl.Boot fs.Card) (i : ℕ)
      → (boot_selection ms cl fs w menu path i).0.picker ≡ w.picker
  unfolding boot_selection
  picker-boot_selection w i = picker-boot_chosen w (get_label menu i) (get_string menu i)

  boot_entry-found :
      (w : MenuWorld ms.Heap cl.Boot fs.Card) (string : Bytes)
      → (boot_entry ms cl fs w path string).1 ≢ halted no_entry
  unfolding boot_entry boot_file
  boot_entry-found w string e = ground (arith, e)

  pub boot_selection-found :
      (w : MenuWorld ms.Heap cl.Boot fs.Card) (i : ℕ)
      → i < length menu
      → (boot_selection ms cl fs w menu path i).1 ≢ halted no_entry
  unfolding boot_selection
  boot_selection-found w i h =
      let l = get_label_in menu i h in
      let s = get_string_in menu i h in rw (l.1, s.1) (boot_entry-found w s.0)

  pub cursor-serve_keys :
      (p : Picker) (injected : Bytes)
      → p.cursor < length menu
      → (serve_keys format_u rows menu p injected).cursor < length menu
  unfolding serve_keys draw_menu
  cursor-serve_keys p injected h =
      let typed = inject_chars p injected in
      let start = subst (λ n. n < length menu) (sym (cursor-inject_chars p injected)) h in
      let drained = (drain-IsDrained (length menu) rows typed start).on_entry in
      elim (Bool-cases (drain rows (length menu) typed).1) [
        | inl redraw ↦ rw redraw drained
        | inr quiet ↦ rw quiet drained
      ]

  -- A turn of the loop leaves the cursor on an entry, whatever the serial line brings, and so a
  -- selection never halts for an entry that is not there.
  pub run_step-RestsOnEntry :
      (w : MenuWorld ms.Heap cl.Boot fs.Card) (injected : Bytes)
      → RestsOnEntry w
      → RestsOnEntry (run_step ms cl fs format_u rows menu path w injected).0
        × ((run_step ms cl fs format_u rows menu path w injected).1 ≢ some (halted no_entry))
  unfolding run_step
  run_step-RestsOnEntry w injected h =
      let drawn = serve_keys format_u rows menu w.picker injected in
      let inside = cursor-serve_keys w.picker injected h in
      let selected = record w { picker = record drawn { select_pending = false } } in
      elim (Bool-cases drawn.select_pending) [
        | inl select ↦ rw select (
          subst (λ (p : Picker). p.cursor < length menu)
              (sym (picker-boot_selection selected drawn.cursor)) inside,
          λ e. boot_selection-found selected drawn.cursor inside (ground (arith, e)),
        )
        | inr none_selected ↦ rw none_selected (inside, λ e. ground (arith, e))
      ]
