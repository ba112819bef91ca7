-- ===== src/Tests/Kernel.antt =====
-- The boot picker on a Pi 5 with a card that holds a menu and a kernel of three bytes.
use rapi_bootloader.Base.{
  ℕ, ◌+◌, ◌≤◌, ◌<◌, ◌≡◌, refl, inl, inr, true, false, none, some, List, [], ◌∷◌, ◌++◌, arith, ◌==◌,
  if◌then◌else◌, length, take, drop, Bytes, codes,
}
use rapi_bootloader.BootMenu.{
  Menu, load, parse_lines, parse_line, parse_trimmed, split_entry, get_label, get_string,
}
use rapi_bootloader.BootImage.{no_defaults, boot_image_with_defaults, stamp_defaults}
use rapi_bootloader.DefaultsBlock.{patch_defaults}
use rapi_bootloader.ChainBoot.StageAlloc.{MemoryMap, stage_alloc}
use rapi_bootloader.Circle.{MemorySystem, Machine}
use rapi_bootloader.FatFs.{FatFs, fr_ok}
use rapi_bootloader.MenuLoader.{start}
use rapi_bootloader.MenuLoader.Kernel.{
  system_bit, bootmenu_cfg_path, platform_kernel_path, Console, reboots, run_menu, menu_turn,
  poll_keyboard, leds_of, with_handlers,
}
use rapi_bootloader.MenuLoader.Kernel.Auto.{run_menu-auto}
use rapi_bootloader.MenuLoader.Kernel.Ends.{Boots}
use rapi_bootloader.MenuLoader.Kernel.Payload.{IsReady}
use rapi_bootloader.MenuLoader.Kernel.Picks.{run_menu-picks, opened}
use rapi_bootloader.MenuLoader.Kernel.Loop.{outcome}
use rapi_bootloader.MenuLoader.Kernel.Reports.{ConsoleLaws, reported}
use rapi_bootloader.MenuLoader.Keyboard.{attach_keyboard}
use rapi_bootloader.MenuLoader.Selection.{armed, MenuWorld, boot_selection, read_image, read_chunk}
use rapi_bootloader.MenuLoader.Running.{run_step, serve_keys}
use rapi_bootloader.MenuLoader.Intents.{drain}
use rapi_bootloader.MenuLoader.Keys.{inject_chars}
use rapi_bootloader.MenuLoader.Screen.{draw_menu}
use rapi_bootloader.MenuLoader.Staging.{ReadsInOrder}
use rapi_bootloader.RapiChainboot.{Statics, initial, is_chain_boot_enabled}
use rapi_bootloader.RapiChainboot.Boots.{KeepsImage}
use rapi_bootloader.Settling.{ClockRuns, elapsed}
use rapi_bootloader.TextScan.{index_of, trim_start, trim_end, is_space}
use rapi_bootloader.Tests.Board.{blank}
use rapi_bootloader.Tests.Chainboot.{info}

-- Both heaps give out one region, from 1 GB on.
abbrev tall_board : MemorySystem
tall_board = record {
  Heap = ℕ;
  kernel_max_size = 0x1000;
  get_high_mem_size = 0x1000_0000;
  get_heap_free_space = λ h t. 0x1000_0000;
  allocate = λ h t n. (h + n, 0x4000_0000 + h);
}

abbrev tall_bytes : ℕ → ℕ → ℕ × ℕ
tall_bytes h n = (h + n, 0x4000_0000 + h)

tall_board-MemoryMap : MemoryMap tall_board
tall_board-MemoryMap = record {
  kernel_below_high = omega arith;
  low_heap = λ h n k. omega arith;
  high_heap = λ h n p k. omega arith;
}

-- The card holds the text of the menu, and the kernel under every other path.
abbrev menu_path : Bytes
menu_path = bootmenu_cfg_path

abbrev kernel_path : Bytes
kernel_path = platform_kernel_path (codes "rpi5")

the_path_of_a_pi_5 : system_bit 5 ≡ some (codes "rpi5")
unfolding system_bit
the_path_of_a_pi_5 = refl

abbrev menu_card : Bytes → FatFs
menu_card text = record {
  Card = ℕ;
  File = Bytes;
  ff_max_lfn = 255;
  f_open = λ c path mode. (c, fr_ok, if length path == 16 then text else 1 ∷ 2 ∷ 3 ∷ []);
  f_close = λ c f. c;
  f_size = λ f. length f;
  f_read = λ c f n. (c, drop n f, fr_ok, take n f);
  f_write = λ c f bs. (c, f ++ bs, fr_ok, length bs);
  f_mkdir = λ c path. (c, fr_ok);
}

abbrev menu_card-ReadsInOrder : (text : Bytes) → ReadsInOrder (menu_card text)
menu_card-ReadsInOrder text = record {
  rest = λ c f. f;
  reads = λ c f n ok. (refl, refl);
  sizes = λ c path ok. refl;
}

abbrev board_machine : Machine ℕ Statics
board_machine = record { memory = blank; heap = 0; boot = initial }

record Desk : Type 0 where
  pub kernel : MenuWorld ℕ Statics ℕ
  pub ticks : ℕ
  pub typed : Bytes

-- No keyboard is attached, and the serial line has what was typed.
abbrev desk : (text : Bytes) → Console tall_board (menu_card text)
desk text = record {
  World = Desk;
  Keyboard = Unit;
  hz = 1;
  kernel = λ w. w.kernel;
  with_kernel = λ w k. record w { kernel = k };
  keyboard = λ w. none;
  with_keyboard = λ w k. w;
  get_ticks = λ w. w.ticks;
  update_plug_and_play = λ w. (w, false);
  get_device = λ w. none;
  register_handlers = λ k w. w;
  update_leds = λ k w. w;
  read_serial = λ w. (record w { typed = [] }, w.typed);
  yield = λ w. record w { ticks = w.ticks + 1 };
  sleep = λ n w. w;
}

desk_clock :
    (text : Bytes) → ClockRuns 1 (desk text).get_ticks (λ w. record w { ticks = w.ticks + 1 })
unfolding elapsed
desk_clock text w = (2, omega arith)

none_reported :
    (k : MenuWorld ℕ Statics ℕ)
    → (reports : List Bytes) × (k ≡ record k { picker = reported k.picker reports })
unfolding reported
none_reported k = ([], refl)

abbrev desk-ConsoleLaws :
    (text : Bytes) → ConsoleLaws tall_board info tall_bytes 0x1_0000 (menu_card text) (desk text)
desk-ConsoleLaws text = record {
  kernel_set = λ w k. refl;
  keyboard_keeps = λ w k. none_reported w.kernel;
  plug_and_play_keeps = λ w. none_reported w.kernel;
  handlers_keep = λ k w. none_reported w.kernel;
  leds_keep = λ k w. none_reported w.kernel;
  serial_keeps = λ w. none_reported w.kernel;
  yield_keeps = λ w. none_reported w.kernel;
  sleep_keeps = λ n w. none_reported w.kernel;
  clock_runs = desk_clock text;
}

abbrev typing : Bytes → Desk
typing typed = record {
  kernel = record { picker = start; machine = board_machine; card = 0; image_buffer = 0 };
  ticks = 0xffff_ffff;
  typed = typed;
}

tall_board-KeepsImage : KeepsImage tall_board info tall_bytes 0x1_0000 0x4000_0000 3
tall_board-KeepsImage = record {
  holds = λ h. 0x1000 ≤ h;
  after_staging = λ h t n held. omega (arith, held);
  staged = λ h t n held real. inr (omega (arith, held));
  stubs = λ h n held. inr (omega (arith, held));
}

desk-IsReady :
    (text : Bytes)
    → IsReady tall_board info tall_bytes 0x1_0000
        (menu_card text)
        (menu_card-ReadsInOrder text)
        kernel_path
        board_machine
        0
        0
unfolding stage_alloc tall_board-KeepsImage
desk-IsReady text = record {
  never_fails = λ c f n. refl;
  opens = refl;
  some_bytes = omega arith;
  fits = omega arith;
  map = tall_board-MemoryMap;
  aligned = refl;
  real = omega arith;
  above = inl refl;
  keeps = tall_board-KeepsImage;
  held = omega arith;
  reach = inl refl;
  old_stub = inl refl;
  running = refl;
}

abbrev one_entry_text : Bytes
one_entry_text = codes "C64|c64"

abbrev two_entries_text : Bytes
two_entries_text = codes "A|a\nB|b"

abbrev menu_of : Bytes → Menu
menu_of text = (load (menu_card text) 0 menu_path true).1

run_menu-auto_example :
    let text = one_entry_text in
    (n : ℕ) × ((fuel : ℕ)
      → n < fuel
      → (w' : Desk) × (run_menu tall_board info tall_bytes 0x1_0000
            (menu_card text)
            (desk text)
            (λ n. [])
            24
            kernel_path
            fuel
            menu_path
            true
            (typing [])
          ≡ some (w', reboots))
        × Boots tall_board info tall_bytes 0x1_0000
            (menu_card text)
            (menu_card-ReadsInOrder text)
            kernel_path
            (desk text)
            (λ n. [])
            24
            (desk-ConsoleLaws text)
            (menu_of text)
            (1 ∷ 2 ∷ 3 ∷ [])
            w')
unfolding load parse_lines parse_line parse_trimmed split_entry index_of trim_start trim_end
    is_space
run_menu-auto_example =
    let text = one_entry_text in
    run_menu-auto tall_board info tall_bytes 0x1_0000 (menu_card text) (menu_card-ReadsInOrder text)
      kernel_path (desk text) (λ n. []) 24 (desk-ConsoleLaws text) (menu_of text) (1 ∷ 2 ∷ 3 ∷ [])
      (typing []) menu_path true true 0 refl refl (desk-IsReady text) refl (omega arith)

selects_second :
    let text = two_entries_text in
    outcome tall_board info tall_bytes 0x1_0000
      (menu_card text)
      (menu_card-ReadsInOrder text)
      kernel_path
      (desk text)
      (λ n. [])
      24
      (desk-ConsoleLaws text)
      (menu_of text)
      (1 ∷ 2 ∷ 3 ∷ [])
      (opened tall_board info tall_bytes 0x1_0000
        (menu_card text)
        (menu_card-ReadsInOrder text)
        kernel_path
        (desk text)
        (λ n. [])
        24
        (desk-ConsoleLaws text)
        (menu_of text)
        (1 ∷ 2 ∷ 3 ∷ [])
        (typing (codes "j\r"))
        0)
    ≡ some (armed no_defaults)
unfolding menu_turn run_step poll_keyboard with_handlers leds_of attach_keyboard boot_selection
    read_image read_chunk get_label get_string stage_alloc load parse_lines parse_line parse_trimmed
    split_entry index_of trim_start trim_end is_space boot_image_with_defaults stamp_defaults
    patch_defaults serve_keys drain inject_chars draw_menu
selects_second = refl

run_menu-picks_example :
    let text = two_entries_text in
    (w' : Desk) × (run_menu tall_board info tall_bytes 0x1_0000
        (menu_card text)
        (desk text)
        (λ n. [])
        24
        kernel_path
        2
        menu_path
        true
        (typing (codes "j\r"))
      ≡ some (w', reboots))
    × Boots tall_board info tall_bytes 0x1_0000
        (menu_card text)
        (menu_card-ReadsInOrder text)
        kernel_path
        (desk text)
        (λ n. [])
        24
        (desk-ConsoleLaws text)
        (menu_of text)
        (1 ∷ 2 ∷ 3 ∷ [])
        w'
unfolding load parse_lines parse_line parse_trimmed split_entry index_of trim_start trim_end
    is_space is_chain_boot_enabled
run_menu-picks_example =
    let text = two_entries_text in
    run_menu-picks tall_board info tall_bytes 0x1_0000 (menu_card text)
      (menu_card-ReadsInOrder text) kernel_path (desk text) (λ n. []) 24 (desk-ConsoleLaws text)
      (menu_of text) (1 ∷ 2 ∷ 3 ∷ []) (typing (codes "j\r")) menu_path true true 0 0 refl
      (omega arith) (desk-IsReady text) refl (omega arith) refl
      (λ e. ground (arith, selects_second, e)) 2 (omega arith)
