-- ===== src/Tests/Picker.antt =====
-- The boot picker at concrete inputs.
use rapi_bootloader.Base.{
  ℕ, ◌<◌, ◌≡◌, refl, Option, some, [], ◌∷◌, ◌++◌, arith, length, take, drop, Bytes, codes,
}
use rapi_bootloader.BootImage.{no_defaults, boot_image_with_defaults, stamp_defaults}
use rapi_bootloader.BootMenu.{Menu, get_label, get_string}
use rapi_bootloader.ChainBoot.StageAlloc.{stage_alloc}
use rapi_bootloader.DefaultsBlock.{patch_defaults}
use rapi_bootloader.FatFs.{FatFs, fr_ok}
use rapi_bootloader.Ints.{pos, negsuc}
use rapi_bootloader.MenuLoader.{Picker, start}
use rapi_bootloader.MenuLoader.Booting.{BootsFile, boot_selection-BootsFile}
use rapi_bootloader.MenuLoader.Cursor.{IsDrained, drain-IsDrained}
use rapi_bootloader.MenuLoader.Intents.{drain}
use rapi_bootloader.MenuLoader.Keys.{inject_char, press_key, key_status_handler_raw, hid_key_down}
use rapi_bootloader.MenuLoader.Points.{At, reads_move, loops, reports, here, next}
use rapi_bootloader.MenuLoader.Points.Lost.{reported, advanced, reported-lost}
use rapi_bootloader.MenuLoader.Points.Safe.{IsSafe, PointReach-IsSafe}
use rapi_bootloader.MenuLoader.Intents.{moved_cursor}
use rapi_bootloader.MenuLoader.Keys.{press_new_keys, was_down}
use rapi_bootloader.MenuLoader.Screen.{draw_menu}
use rapi_bootloader.MenuLoader.Selection.{
  MenuWorld, read_chunk, read_image, boot_selection, with_image_buffer,
}
use rapi_bootloader.MenuLoader.Staging.{ReadsInOrder}
use rapi_bootloader.MenuLoader.Window.{Shows, draw_menu-Shows}
use rapi_bootloader.Tests.Board.{board, chain, machine}

abbrev two_entries : Menu
two_entries =
    record { label = codes "C64"; string = codes "c64" }
    ∷ record { label = codes "VIC"; string = codes "vic" }
    ∷ []

abbrev one_digit : ℕ → Bytes
one_digit n = b'1' ∷ []

abbrev image_card : FatFs
image_card = record {
  Card = ℕ;
  File = Bytes;
  ff_max_lfn = 255;
  f_open = λ c path mode. (c, fr_ok, 1 ∷ 2 ∷ 3 ∷ []);
  f_close = λ c f. c;
  f_size = λ f. length f;
  f_read = λ c f n. (c, drop n f, fr_ok, take n f);
  f_write = λ c f bs. (c, f ++ bs, fr_ok, length bs);
  f_mkdir = λ c path. (c, fr_ok);
}

abbrev image_card-ReadsInOrder : ReadsInOrder image_card
image_card-ReadsInOrder = record {
  rest = λ c f. f;
  reads = λ c f n ok. (refl, refl);
  sizes = λ c path ok. refl;
}

abbrev world : MenuWorld ℕ (Option (ℕ × ℕ)) ℕ
world = record { picker = start; machine = machine; card = 0; image_buffer = 0 }

abbrev kernel_path : Bytes
kernel_path = codes "SD:/kernel-rpi4.img"

draw_menu-Shows_example :
    let drawn = draw_menu one_digit 7 two_entries start in
    Shows one_digit 1 two_entries 0 drawn.0.top_visible drawn.1
draw_menu-Shows_example = draw_menu-Shows one_digit 7 two_entries start (omega arith)

abbrev eager : Picker
eager = record start { move_accum = pos 5; page_accum = negsuc 0; jump_to = pos 8 }

drain-IsDrained_example : IsDrained 2 eager (drain 24 2 eager)
drain-IsDrained_example = drain-IsDrained 2 24 eager (omega arith)

abbrev down_report : Bytes
down_report = hid_key_down ∷ 0 ∷ 0 ∷ 0 ∷ 0 ∷ 0 ∷ []

-- A report that falls between the read of the counter and its reset, in a turn with an Enter typed.
abbrev interrupted : At board chain image_card one_digit 24 two_entries kernel_path
interrupted =
    let typed = record world { picker = inject_char start b'j' } in
    reported board chain image_card one_digit 24 two_entries kernel_path down_report
      (advanced board chain image_card one_digit 24 two_entries kernel_path (typed, reads_move))

starts_on_entry : (inject_char start b'j').cursor < 2
unfolding inject_char
starts_on_entry = omega arith

PointReach-IsSafe_example :
    IsSafe board chain image_card one_digit 24 two_entries kernel_path
      (advanced board chain image_card one_digit 24 two_entries kernel_path interrupted)
PointReach-IsSafe_example =
    PointReach-IsSafe board chain image_card one_digit 24 two_entries kernel_path
      {s = (record world { picker = inject_char start b'j' }, reads_move)}
      (starts_on_entry, λ e. ground (arith, e))
      (next (next (next here loops) (reports down_report)) loops)

reported-lost_example :
    let w = record world { picker = record start { move_accum = pos 1 } } in
    let early =
      (advanced board chain image_card one_digit 24 two_entries kernel_path (
        advanced board chain image_card one_digit 24 two_entries kernel_path (
          reported board chain image_card one_digit 24 two_entries kernel_path down_report
            (w, reads_move)))).0.picker in
    let late =
      (advanced board chain image_card one_digit 24 two_entries kernel_path (
        reported board chain image_card one_digit 24 two_entries kernel_path down_report (
          advanced board chain image_card one_digit 24 two_entries kernel_path
            (w, reads_move)))).0.picker in
    (early.cursor ≡ moved_cursor 2 0 (pos 2))
    × (late.cursor ≡ moved_cursor 2 0 (pos 1))
    × (early.move_accum ≡ pos 0)
    × (late.move_accum ≡ pos 0)
unfolding key_status_handler_raw press_new_keys press_key was_down
reported-lost_example =
    reported-lost board chain image_card one_digit 24 two_entries kernel_path
      (record world { picker = record start { move_accum = pos 1 } }) down_report refl refl

boot_selection-BootsFile_example :
    (string : Bytes) × (get_string two_entries 1 ≡ some string)
    × BootsFile board chain image_card
        (with_image_buffer board chain image_card world)
        (boot_selection board chain image_card world two_entries kernel_path 1).0
        (1 ∷ 2 ∷ 3 ∷ [])
        string
        no_defaults
unfolding boot_selection get_label get_string stage_alloc read_image read_chunk
    boot_image_with_defaults stamp_defaults patch_defaults
boot_selection-BootsFile_example =
    boot_selection-BootsFile board chain image_card image_card-ReadsInOrder world two_entries
      kernel_path 1 no_defaults refl
