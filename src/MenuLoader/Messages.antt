-- ===== src/MenuLoader/Messages.antt =====
-- menu-loader/kernel.cpp: what BootSelection, Fatal and an empty menu put on the screen. The path of the
-- kernel is the build's, and so are the codes of FatFs's results.
use rapi_bootloader.Base.{ℕ, Option, none, some, ◌++◌, Bytes, codes}
use rapi_bootloader.MenuLoader.Selection.{
  Reason, no_entry, out_of_memory, size_out_of_range, read_error, cannot_open, Outcome, halted,
  armed,
}
use rapi_bootloader.MenuLoader.Screen.{home_and_clear}
use rapi_bootloader.FatFs.{FResult}
use rapi_bootloader.BootImage.{boot_message_text}

module _ (format_u : ℕ → Bytes) (fr_code : FResult → ℕ) (platform_kernel_path : Bytes) where
  -- The argument of `Fatal`.
  unfoldable pub reason_message : Reason → Bytes
  reason_message no_entry = codes "selected menu entry has no label or defaults string"
  reason_message out_of_memory = codes "out of memory staging the kernel image"
  reason_message size_out_of_range = codes "kernel image size out of range"
  reason_message read_error = codes "read error on the kernel image"
  reason_message (cannot_open result) =
      codes "cannot open "
      ++ platform_kernel_path
      ++ codes " (FR="
      ++ format_u (fr_code result)
      ++ codes ")"

  -- `Fatal`, before it halts.
  unfoldable pub fatal_screen : Bytes → Bytes
  fatal_screen message =
      home_and_clear
      ++ codes "*** BOOT FAILED ***\n\n  "
      ++ message
      ++ codes "\n\n  Cannot boot "
      ++ platform_kernel_path
      ++ codes ".\n  Fix the card and power-cycle. Halted.\n"

  abbrev pub loading_line : Bytes → Bytes
  loading_line label =
      codes "\nLoading " ++ platform_kernel_path ++ codes " (" ++ label ++ codes ") ...\n"

  -- What a selection writes: the line about the entry, if there is one, and then its outcome.
  unfoldable pub outcome_text : Outcome → Bytes
  unfolding reason_message fatal_screen
  outcome_text (halted reason) = fatal_screen (reason_message reason)
  outcome_text (armed message) = codes "  " ++ boot_message_text message ++ codes " ...\n"

  unfoldable pub selection_text : Option Bytes → Outcome → Bytes
  unfolding outcome_text
  selection_text none outcome = outcome_text outcome
  selection_text (some label) (halted no_entry) = outcome_text (halted no_entry)
  selection_text (some label) outcome = loading_line label ++ outcome_text outcome

-- The screen of `Run` with no entry to boot.
abbrev pub empty_menu_screen : Bytes → Bytes
empty_menu_screen config_path =
    home_and_clear
    ++ codes "rapi-bootloader boot picker\n\nno usable entries in "
    ++ config_path
    ++ codes "\n(one 'label|defaults-string' per line)\n"
