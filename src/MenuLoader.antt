-- ===== src/MenuLoader.antt =====
-- menu-loader/kernel.h and kernel.cpp: the state of the boot picker that a key press or the main loop
-- changes, and the size of its page.
pub mod Keys
pub mod Screen
pub mod Intents
pub mod Selection
pub mod Running
pub mod Startup
pub mod Messages
pub mod Keyboard
pub mod Window
pub mod Cursor
pub mod Staging
pub mod Booting
pub mod Turn
pub mod Pressed
pub mod Session
pub mod Arming
pub mod Kernel
pub mod Points
use rapi_bootloader.Base.{ℕ, ◌-◌, Bool, false, [], ◌∷◌, ltb, if◌then◌else◌, Bytes}
use rapi_bootloader.Ints.{ℤ, pos, negsuc}

-- The members of `CKernel`: the highlighted entry, the first entry drawn, the intents that key
-- presses record (`jump_to` is -1 for none), and the previous raw report.
pub record Picker : Type 0 where
  pub cursor : ℕ
  pub top_visible : ℕ
  pub move_accum : ℤ
  pub jump_to : ℤ
  pub page_accum : ℤ
  pub select_pending : Bool
  pub prev_raw_keys : Bytes

abbrev pub no_jump : ℤ
no_jump = negsuc 0

abbrev pub start : Picker
start = record {
  cursor = 0;
  top_visible = 0;
  move_accum = pos 0;
  jump_to = no_jump;
  page_accum = pos 0;
  select_pending = false;
  prev_raw_keys = 0 ∷ 0 ∷ 0 ∷ 0 ∷ 0 ∷ 0 ∷ [];
}

-- `VisibleRows`, for a screen of so many text rows.
abbrev pub visible_rows : ℕ → ℕ
visible_rows rows = if ltb 6 rows then rows - 6 else 1
