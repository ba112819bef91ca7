-- ===== src/MenuLoader/Points/Plain.antt =====
-- A turn that no report interrupts is the turn of `Run` taken at once.
use rapi_bootloader.Base.{
  ℕ, zero, suc, ◌+◌, ◌≡◌, refl, ap, ◌∙◌, inl, inr, Bool, true, false, ◌||◌, Option, none, some, [],
  ◌∷◌, arith, if◌then◌else◌, Bool-cases, length, Bytes,
}
use rapi_bootloader.BootMenu.{Menu}
use rapi_bootloader.Circle.{MemorySystem, ChainLoader}
use rapi_bootloader.FatFs.{FatFs}
use rapi_bootloader.Ints.{ℤ, pos, negsuc}
use rapi_bootloader.MenuLoader.Intents.{drain, drain_move, drain_page, drain_jump}
use rapi_bootloader.MenuLoader.Keys.{inject_char, inject_chars}
use rapi_bootloader.MenuLoader.Points.{
  Point, types, redraws, ended, At, take_move, take_page, take_jump, advance, advance_n,
}
use rapi_bootloader.MenuLoader.Running.{run_step, serve_keys}
use rapi_bootloader.MenuLoader.Screen.{draw_menu}
use rapi_bootloader.MenuLoader.Selection.{Outcome, MenuWorld, boot_selection}
use rapi_bootloader.MenuLoader.{Picker, visible_rows}

or_assoc : (a b c : Bool) → ((a || b) || c) ≡ (a || (b || c))
or_assoc true b c = refl
or_assoc false b c = refl

take_move-drain_move :
    (count : ℕ) (p : Picker) → take_move count p p.move_accum ≡ drain_move count p
unfolding take_move drain_move
take_move-drain_move count p = refl

take_page-drain_page :
    (count step : ℕ) (p : Picker) → take_page count step p p.page_accum ≡ drain_page count step p
unfolding take_page drain_page
take_page-drain_page count step p = refl

take_jump-drain_jump :
    (count : ℕ) (p : Picker) (jump : ℤ)
    → p.jump_to ≡ jump
    → take_jump count p jump ≡ drain_jump count p
unfolding take_jump drain_jump
take_jump-drain_jump count p (pos jump) e = rw e refl
take_jump-drain_jump count p (negsuc n) e = rw e refl

if_outcome :
    {W : Type 0} (b : Bool) (booted rested : W) (o p : Option Outcome)
    → let small : W × Point = if b then (booted, ended o) else (rested, ended p) in
      let whole : W × Option Outcome = if b then (booted, o) else (rested, p) in
      small ≡ (whole.0, ended whole.1)
if_outcome true booted rested o p = refl
if_outcome false booted rested o p = refl

module _ (ms : MemorySystem) (cl : ChainLoader ms.Heap) (fs : FatFs) (format_u : ℕ → Bytes)
    (rows : ℕ) (menu : Menu) (path : Bytes) where
  abbrev run : ℕ → At ms cl fs format_u rows menu path → At ms cl fs format_u rows menu path
  run n s = advance_n ms cl fs format_u rows menu path n s

  advance_n-add :
      (a b : ℕ) (s : At ms cl fs format_u rows menu path) → run (a + b) s ≡ run b (run a s)
  unfolding advance_n
  advance_n-add zero b s = let e : 0 + b ≡ b = omega arith in ap (λ n. run n s) e
  advance_n-add (suc a) b s =
      let e : suc a + b ≡ suc (a + b) = omega arith in
      ap (λ n. run n s) e ∙ advance_n-add a b (advance ms cl fs format_u rows menu path s)

  types_all :
      (cs : Bytes) (w : MenuWorld ms.Heap cl.Boot fs.Card)
      → run (length cs) (w, types cs) ≡ (record w { picker = inject_chars w.picker cs }, types [])
  unfolding advance_n advance inject_chars
  types_all [] w = refl
  types_all (c ∷ cs) w = types_all cs (record w { picker = inject_char w.picker c })

  drains :
      (w : MenuWorld ms.Heap cl.Boot fs.Card)
      → let d = drain rows (length menu) w.picker in
        run 7 (w, types []) ≡ (record w { picker = d.0 }, redraws d.1)
  unfolding advance_n advance drain
  drains w =
      let move = drain_move (length menu) w.picker in
      let page = drain_page (length menu) (visible_rows rows) move.0 in
      let jump = drain_jump (length menu) page.0 in
      rw
        (
          take_move-drain_move (length menu) w.picker,
          take_page-drain_page (length menu) (visible_rows rows) move.0,
          take_jump-drain_jump (length menu) page.0 page.0.jump_to refl,
          or_assoc move.1 page.1 jump.1,
        )
        refl

  ends :
      (w : MenuWorld ms.Heap cl.Boot fs.Card) (redraw : Bool)
      → let p = if redraw then (draw_menu format_u rows menu w.picker).0 else w.picker in
        let selected = record w { picker = record p { select_pending = false } } in
        let booted = boot_selection ms cl fs selected menu path p.cursor in
        run 3 (w, redraws redraw) ≡ (
          if p.select_pending
          then (booted.0, ended (some booted.1))
          else (record w { picker = p }, ended none))
  unfolding advance_n advance
  ends w true = elim (Bool-cases (draw_menu format_u rows menu w.picker).0.select_pending) [
    | inl select ↦ rw select refl
    | inr unselected ↦ rw unselected refl
  ]
  ends w false = elim (Bool-cases w.picker.select_pending) [
    | inl select ↦ rw select refl
    | inr unselected ↦ rw unselected refl
  ]

  -- A turn of the loop in small steps, with no report of the keyboard between them, takes ten steps
  -- and one for each byte of the serial line, and ends in the state and with the outcome of the turn
  -- taken at once.
  pub advance_n-run_step :
      (w : MenuWorld ms.Heap cl.Boot fs.Card) (injected : Bytes)
      → advance_n ms cl fs format_u rows menu path (length injected + 10) (w, types injected) ≡ (
        (run_step ms cl fs format_u rows menu path w injected).0,
        ended (run_step ms cl fs format_u rows menu path w injected).1,
      )
  unfolding run_step serve_keys advance_n
  advance_n-run_step w injected =
      let typed = record w { picker = inject_chars w.picker injected } in
      let d = drain rows (length menu) typed.picker in
      advance_n-add (length injected) 10 (w, types injected)
      ∙ (ap (λ s. run 10 s) (types_all injected w)
          ∙ (ap (λ s. run 3 s) (drains typed)
              ∙ (ends (record typed { picker = d.0 }) d.1
                  ∙ if_outcome
                      (if d.1 then (draw_menu format_u rows menu d.0).0 else d.0).select_pending _ _
                      _ _)))
