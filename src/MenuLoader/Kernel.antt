-- ===== src/MenuLoader/Kernel.antt =====
-- menu-loader/kernel.cpp, `CKernel::Run` as a whole on a Pi 5, from the reading of bootmenu.cfg to the
-- return of `main`, and menu-loader/main.cpp. The log lines are not state.
pub mod Payload
pub mod Step
pub mod Reports
pub mod Calm
pub mod Loop
pub mod Ends
pub mod Auto
pub mod Picks
use rapi_bootloader.Base.{
  ℕ, zero, suc, Bool, true, false, Option, none, some, ◌++◌, map, ◌==◌, if◌then◌else◌, length,
  Bytes, codes,
}
use rapi_bootloader.BootMenu.{Menu, load}
use rapi_bootloader.Circle.{MemorySystem, ChainLoader}
use rapi_bootloader.FatFs.{FatFs}
use rapi_bootloader.MenuLoader.Keyboard.{attach_keyboard}
use rapi_bootloader.MenuLoader.Running.{Opening, idles, auto_boots, begin, run_step}
use rapi_bootloader.MenuLoader.Selection.{Reason, Outcome, halted, MenuWorld}
use rapi_bootloader.NetworkLoader.Startup.{Exit, exit_halt, exit_reboot}
use rapi_bootloader.RapiChainboot.Refines.{rapi_chain_loader}
use rapi_bootloader.RapiChainboot.{
  MachineInfo, Statics, Enabled, answers, hands_off, is_chain_boot_enabled, main_returning,
}
use rapi_bootloader.Settling.{settle}
use mathlib.Core.Option

-- `SYSTEMBIT` and `PLATFORM_KERNEL_PATH` for the board; the build refuses any other.
unfoldable pub system_bit : ℕ → Option Bytes
system_bit raspi =
    if raspi == 3
    then some (codes "rpi3")
    else if raspi == 4
    then some (codes "rpi4")
    else if raspi == 5
    then some (codes "rpi5")
    else none

abbrev pub bootmenu_cfg_path : Bytes
bootmenu_cfg_path = codes "SD:/bootmenu.cfg"

abbrev pub platform_kernel_path : Bytes → Bytes
platform_kernel_path bit = codes "SD:/kernel-" ++ bit ++ codes ".img"

-- What the kernel drives. `World` is all the state, and holds the members of the kernel with the
-- board's memory, heaps and static variables. Interrupts, such as the reports of the keyboard, come
-- during these calls.
pub record Console (ms : MemorySystem) (fs : FatFs) : Type 1 where
  pub World : Type 0
  pub Keyboard : Type 0
  pub hz : ℕ
  pub kernel : World → MenuWorld ms.Heap Statics fs.Card
  pub with_kernel : World → MenuWorld ms.Heap Statics fs.Card → World
  pub keyboard : World → Option Keyboard
  pub with_keyboard : World → Option Keyboard → World
  pub get_ticks : World → ℕ
  pub update_plug_and_play : World → World × Bool
  pub get_device : World → Option Keyboard
  pub register_handlers : Keyboard → World → World
  pub update_leds : Keyboard → World → World
  pub read_serial : World → World × Bytes
  pub yield : World → World
  pub sleep : ℕ → World → World

-- How `Run` ends: with nothing to boot it idles for ever, `Fatal` halts, and otherwise it returns
-- ShutdownReboot.
pub data MenuEnd : Type 0 where
  idles_for_ever reboots : MenuEnd
  halts : Reason → MenuEnd

-- The answer of `IsChainBootEnabled`.
abbrev pub yes : Enabled → Bool
yes (answers b) = b
yes hands_off = true

-- The exit of `main`, where `Run` returns.
abbrev exit_of : MenuEnd → Option Exit
exit_of reboots = some exit_reboot
exit_of _ = none

module _ (ms : MemorySystem) (info : MachineInfo) (new_bytes : ms.Heap → ℕ → ms.Heap × ℕ)
    (stub_code : ℕ) (fs : FatFs) where
  abbrev pub pi_5 : ChainLoader ms.Heap
  pi_5 = rapi_chain_loader ms info new_bytes stub_code

  module _ (c : Console ms fs) (format_u : ℕ → Bytes) (rows : ℕ) (path : Bytes) where
    open c use {
      World, Keyboard, hz, kernel, with_kernel, keyboard, with_keyboard, get_ticks,
      update_plug_and_play, get_device, register_handlers, update_leds, read_serial, yield, sleep,
    }

    -- The turn of the waiting loop before an automatic boot.
    abbrev pub pump : World → World
    pump w = yield (update_plug_and_play w).0

    -- A keyboard that has just appeared gets the handlers.
    unfoldable pub with_handlers : Option Keyboard → World → World
    with_handlers none w = w
    with_handlers (some fresh) w = register_handlers fresh w

    unfoldable pub leds_of : Option Keyboard → World → World
    leds_of none w = w
    leds_of (some attached) w = update_leds attached w

    -- The beginning of a turn: the keyboard is attached, and its LEDs are updated.
    unfoldable pub poll_keyboard : World → World
    unfolding with_handlers leds_of
    poll_keyboard w =
        let (pumped, updated) = update_plug_and_play w in
        let (attached, fresh) = attach_keyboard updated (keyboard pumped) (get_device pumped) in
        let registered = with_handlers fresh (with_keyboard pumped attached) in
        leds_of (keyboard registered) registered

    -- One turn of the loop up to its `Yield`, and what a selection came to.
    unfoldable pub menu_turn : Menu → World → World × Option Outcome
    unfolding poll_keyboard
    menu_turn menu w =
        let (fed, injected) = read_serial (poll_keyboard w) in
        let (k, outcome) = run_step ms pi_5 fs format_u rows menu path (kernel fed) injected in
        (with_kernel fed k, outcome)

    -- `IsChainBootEnabled` as the loop asks it.
    unfoldable pub menu_enabled : World → Bool
    menu_enabled w = yes (is_chain_boot_enabled (kernel w).machine.boot)

    -- After a turn: `Fatal` has halted, or the loop goes on with `rest`.
    unfoldable pub after_turn :
        Option Outcome → World → Option (World × MenuEnd) → Option (World × MenuEnd)
    after_turn (some (halted reason)) turned rest = some (turned, halts reason)
    after_turn _ turned rest = rest

    -- `while (!IsChainBootEnabled ())` on fuel.
    unfoldable pub menu_loop : ℕ → Menu → World → Option (World × MenuEnd)
    unfolding menu_turn menu_enabled after_turn
    menu_loop zero menu w = none
    menu_loop (suc fuel) menu w =
        let (turned, outcome) = menu_turn menu w in
        let rest = menu_loop fuel menu (yield turned) in
        if menu_enabled w then some (w, reboots) else after_turn outcome turned rest

    -- After the loop: the sleep, and the note that `main` is returning.
    unfoldable pub leave_menu : World × MenuEnd → World × MenuEnd
    leave_menu (w, reboots) =
        let slept = sleep 1 w in
        let k = kernel slept in
        let told = record k {
          machine = record k.machine { boot = main_returning k.machine.boot };
        } in
        (with_kernel slept told, reboots)
    leave_menu (w, end) = (w, end)

    -- The wait before a single entry is booted.
    unfoldable pub settled : ℕ → Menu → World → Option World
    settled fuel menu w =
        let waited = settle hz get_ticks pump fuel (get_ticks w) w in
        if length menu == 1 then waited else some w

    unfoldable pub after_opening : ℕ → Menu → World → Opening → Option (World × MenuEnd)
    unfolding menu_loop leave_menu
    after_opening fuel menu w idles = some (w, idles_for_ever)
    after_opening fuel menu w (auto_boots (halted reason)) = some (w, halts reason)
    after_opening fuel menu w _ = Option.map leave_menu (menu_loop fuel menu w)

    -- `Run` after the menu was read.
    unfoldable pub run_opened : ℕ → Menu → Option World → Option (World × MenuEnd)
    unfolding after_opening
    run_opened fuel menu none = none
    run_opened fuel menu (some w) =
        let (k, opening) = begin ms pi_5 fs format_u rows menu path (kernel w) in
        after_opening fuel menu (with_kernel w k) opening

    -- `Run`, with whether the buffer for the menu's file could be allocated.
    unfoldable pub run_menu : ℕ → Bytes → Bool → World → Option (World × MenuEnd)
    unfolding settled run_opened
    run_menu fuel config_path allocated w =
        let k = kernel w in
        let (card, menu, loaded) = load fs k.card config_path allocated in
        run_opened fuel menu (settled fuel menu (with_kernel w (record k { card = card })))

    -- `main`, with what Initialize gave. Where `Run` never returns there is no exit.
    unfoldable pub menu_main : ℕ → Bytes → Bool → World × Bool → Option (World × Option Exit)
    unfolding run_menu
    menu_main fuel config_path allocated (w, false) = some (w, some exit_halt)
    menu_main fuel config_path allocated (w, true) =
        Option.map (λ end. (end.0, exit_of end.1)) (run_menu fuel config_path allocated w)
