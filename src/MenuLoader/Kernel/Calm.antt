-- ===== src/MenuLoader/Kernel/Calm.antt =====
-- What the calls of a turn of the boot picker keep, whatever the keyboard reports meanwhile.
use rapi_bootloader.Base.{ℕ, ◌≡◌, refl, ap, ◌∙◌, Option, none, some, Bytes}
use rapi_bootloader.Circle.{MemorySystem}
use rapi_bootloader.FatFs.{FatFs}
use rapi_bootloader.MenuLoader.Kernel.{Console, poll_keyboard, with_handlers, leds_of}
use rapi_bootloader.MenuLoader.Kernel.Reports.{Reports, cursor-reported, ConsoleLaws}
use rapi_bootloader.MenuLoader.Kernel.Step.{Same, Same-trans}
use rapi_bootloader.MenuLoader.Keyboard.{attach_keyboard}
use rapi_bootloader.MenuLoader.Selection.{MenuWorld}
use rapi_bootloader.MenuLoader.Staging.{ReadsInOrder}
use rapi_bootloader.RapiChainboot.{MachineInfo, Statics}

module _ (ms : MemorySystem) (info : MachineInfo) (new_bytes : ms.Heap → ℕ → ms.Heap × ℕ)
    (stub_code : ℕ) (fs : FatFs) (law : ReadsInOrder fs) (path : Bytes) (c : Console ms fs)
    (format_u : ℕ → Bytes) (rows : ℕ) (laws : ConsoleLaws ms info new_bytes stub_code fs c) where
  open c use {
    World, Keyboard, kernel, with_kernel, keyboard, with_keyboard, update_plug_and_play, get_device,
    read_serial, yield,
  }

  -- The kernel's board is the same in both states, and its cursor.
  pub record Calm (w w' : World) : Type 0 where
    pub same : Same ms info new_bytes stub_code fs law path (kernel w) (kernel w')
    pub same_cursor : (kernel w').picker.cursor ≡ (kernel w).picker.cursor

  pub Calm-Reports : (w w' : World) → Reports ms info new_bytes stub_code fs c w w' → Calm w w'
  Calm-Reports w w' (reports, e) = record {
    same = record {
      machine = ap (λ (k : MenuWorld ms.Heap Statics fs.Card). k.machine) e;
      card = ap (λ (k : MenuWorld ms.Heap Statics fs.Card). k.card) e;
      buffer = ap (λ (k : MenuWorld ms.Heap Statics fs.Card). k.image_buffer) e;
    };
    same_cursor =
        ap (λ (k : MenuWorld ms.Heap Statics fs.Card). k.picker.cursor) e
        ∙ cursor-reported (kernel w).picker reports;
  }

  pub Calm-trans : (u v w : World) → Calm u v → Calm v w → Calm u w
  Calm-trans u v w h k = record {
    same = Same-trans ms info new_bytes stub_code fs law path _ _ _ h.same k.same;
    same_cursor = k.same_cursor ∙ h.same_cursor;
  }

  pub Calm-refl : (w : World) → Calm w w
  Calm-refl w = record {
    same = record { machine = refl; card = refl; buffer = refl };
    same_cursor = refl;
  }

  Calm-handlers :
      (fresh : Option Keyboard) (w : World)
      → Calm w (with_handlers ms info new_bytes stub_code fs c format_u rows path fresh w)
  unfolding with_handlers
  Calm-handlers none w = Calm-refl w
  Calm-handlers (some k) w = Calm-Reports w _ (laws.handlers_keep k w)

  Calm-leds :
      (attached : Option Keyboard) (w : World)
      → Calm w (leds_of ms info new_bytes stub_code fs c format_u rows path attached w)
  unfolding leds_of
  Calm-leds none w = Calm-refl w
  Calm-leds (some k) w = Calm-Reports w _ (laws.leds_keep k w)

  abbrev pub polled : World → World
  polled w = poll_keyboard ms info new_bytes stub_code fs c format_u rows path w

  Calm-poll : (w : World) → Calm w (polled w)
  unfolding poll_keyboard
  Calm-poll w =
      let pumped = (update_plug_and_play w).0 in
      let attached =
        attach_keyboard (update_plug_and_play w).1 (keyboard pumped) (get_device pumped) in
      let kept = with_keyboard pumped attached.0 in
      let registered =
        with_handlers ms info new_bytes stub_code fs c format_u rows path attached.1 kept in
      Calm-trans w pumped _ (Calm-Reports w pumped (laws.plug_and_play_keeps w)) (
        Calm-trans pumped kept _ (Calm-Reports pumped kept (laws.keyboard_keeps pumped attached.0))
          (Calm-trans kept registered _ (Calm-handlers attached.1 kept)
            (Calm-leds (keyboard registered) registered)))

  abbrev pub fed : World → World
  fed w = (read_serial (polled w)).0

  pub Calm-fed : (w : World) → Calm w (fed w)
  Calm-fed w =
      Calm-trans w (polled w) _ (Calm-poll w)
        (Calm-Reports (polled w) (fed w) (laws.serial_keeps (polled w)))
