-- ===== src/MenuLoader/Kernel/Reports.antt =====
-- What the boot picker relies on in Circle: interrupts bring reports of the keyboard, and no more, and
-- the clock is not stuck.
use rapi_bootloader.Base.{ℕ, ◌≡◌, refl, ◌∙◌, Option, List, [], ◌∷◌, Bytes}
use rapi_bootloader.Circle.{MemorySystem}
use rapi_bootloader.FatFs.{FatFs}
use rapi_bootloader.MenuLoader.{Picker}
use rapi_bootloader.MenuLoader.Kernel.{Console}
use rapi_bootloader.MenuLoader.Keys.{key_status_handler_raw}
use rapi_bootloader.MenuLoader.Pressed.{cursor-press_new_keys}
use rapi_bootloader.MenuLoader.Selection.{MenuWorld}
use rapi_bootloader.RapiChainboot.{MachineInfo, Statics}
use rapi_bootloader.Settling.{ClockRuns}

-- The picker after some reports.
unfoldable pub reported : Picker → List Bytes → Picker
reported p [] = p
reported p (raw_keys ∷ reports) = reported (key_status_handler_raw p raw_keys) reports

pub cursor-reported : (p : Picker) (reports : List Bytes) → (reported p reports).cursor ≡ p.cursor
unfolding reported key_status_handler_raw
cursor-reported p [] = refl
cursor-reported p (raw_keys ∷ reports) =
    cursor-reported (key_status_handler_raw p raw_keys) reports ∙ cursor-press_new_keys raw_keys p

module _ (ms : MemorySystem) (info : MachineInfo) (new_bytes : ms.Heap → ℕ → ms.Heap × ℕ)
    (stub_code : ℕ) (fs : FatFs) (c : Console ms fs) where
  open c use {
    World, Keyboard, hz, kernel, with_kernel, keyboard, with_keyboard, get_ticks,
    update_plug_and_play, get_device, register_handlers, update_leds, read_serial, yield, sleep,
  }

  -- From one state to a later one, the kernel has taken some reports.
  abbrev pub Reports : World → World → Type 0
  Reports w w' =
      (reports : List Bytes) × (kernel w'
        ≡ record (kernel w) { picker = reported (kernel w).picker reports })

  pub record ConsoleLaws : Type 0 where
    pub kernel_set :
        (w : World) (k : MenuWorld ms.Heap Statics fs.Card) → kernel (with_kernel w k) ≡ k
    pub keyboard_keeps : (w : World) (k : Option Keyboard) → Reports w (with_keyboard w k)
    pub plug_and_play_keeps : (w : World) → Reports w (update_plug_and_play w).0
    pub handlers_keep : (k : Keyboard) (w : World) → Reports w (register_handlers k w)
    pub leds_keep : (k : Keyboard) (w : World) → Reports w (update_leds k w)
    pub serial_keeps : (w : World) → Reports w (read_serial w).0
    pub yield_keeps : (w : World) → Reports w (yield w)
    pub sleep_keeps : (n : ℕ) (w : World) → Reports w (sleep n w)
    pub clock_runs : ClockRuns hz get_ticks (λ w. yield (update_plug_and_play w).0)
