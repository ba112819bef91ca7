-- ===== src/MenuLoader/Kernel/Loop.antt =====
-- The loop of the boot picker: it leaves with the payload of the entry that was selected.
use rapi_bootloader.Base.{
  ℕ, zero, suc, ◌+◌, ◌<◌, ◌≡◌, refl, sym, ap, ◌∙◌, subst, ◌≢◌, ◌⊎◌, inl, inr, Bool, true, false,
  Option, none, some, arith, length, Bytes,
}
use rapi_bootloader.BootMenu.{Menu, get_string}
use rapi_bootloader.Circle.{MemorySystem}
use rapi_bootloader.FatFs.{FatFs}
use rapi_bootloader.MenuLoader.Kernel.{
  Console, MenuEnd, reboots, menu_turn, menu_enabled, menu_loop, after_turn, pi_5, yes,
}
use rapi_bootloader.MenuLoader.Kernel.Payload.{Enters, kernel_file}
use rapi_bootloader.MenuLoader.Kernel.Reports.{ConsoleLaws}
use rapi_bootloader.MenuLoader.Kernel.Step.{Same, Ready, Ready-Same, Arms, run_step-cases}
use rapi_bootloader.MenuLoader.Running.{run_step}
use rapi_bootloader.MenuLoader.Selection.{Outcome}
use rapi_bootloader.MenuLoader.Staging.{ReadsInOrder}
use rapi_bootloader.RapiChainboot.{MachineInfo, answers, is_chain_boot_enabled}
use rapi_bootloader.MenuLoader.Kernel.Calm.{Calm, Calm-Reports, Calm-fed, polled, fed}

module _ (ms : MemorySystem) (info : MachineInfo) (new_bytes : ms.Heap → ℕ → ms.Heap × ℕ)
    (stub_code : ℕ) (fs : FatFs) (law : ReadsInOrder fs) (path : Bytes) (c : Console ms fs)
    (format_u : ℕ → Bytes) (rows : ℕ) (laws : ConsoleLaws ms info new_bytes stub_code fs c) where
  open c use {
    World, Keyboard, kernel, with_kernel, keyboard, with_keyboard, update_plug_and_play, get_device,
    read_serial, yield,
  }

  module _ (menu : Menu) (contents : Bytes) where
    -- Between two turns: the board can boot the file, the cursor is on an entry, and nothing is armed.
    pub record AtRest (w : World) : Type 1 where
      pub ready : Ready ms info new_bytes stub_code fs law path (kernel w)
      pub file : kernel_file ms info new_bytes stub_code fs law path (kernel w).card ≡ contents
      pub on_entry : (kernel w).picker.cursor < length menu
      pub unarmed : is_chain_boot_enabled (kernel w).machine.boot ≡ answers false

    rests_on :
        (w w' : World)
        → AtRest w
        → Same ms info new_bytes stub_code fs law path (kernel w) (kernel w')
        → (kernel w').picker.cursor < length menu
        → AtRest w'
    rests_on w w' rest same on_entry = record {
      ready =
          Ready-Same ms info new_bytes stub_code fs law path (kernel w) (kernel w') same rest.ready;
      file = rw same.card rest.file;
      on_entry = on_entry;
      unarmed = rw same.machine rest.unarmed;
    }

    pub AtRest-Calm :
        (w w' : World)
        → AtRest w
        → Calm ms info new_bytes stub_code fs law path c format_u rows laws w w'
        → AtRest w'
    AtRest-Calm w w' rest calm =
        rests_on w w' rest calm.same
          (subst (λ n. n < length menu) (sym calm.same_cursor) rest.on_entry)

    abbrev pub turned : World → World
    turned w = (menu_turn ms info new_bytes stub_code fs c format_u rows path menu w).0

    abbrev pub outcome : World → Option Outcome
    outcome w = (menu_turn ms info new_bytes stub_code fs c format_u rows path menu w).1

    -- A turn selects nothing, and all is at rest after it, or it arms the entry that was selected.
    turn_cases :
        (w : World)
        → AtRest w
        → ((outcome w ≡ none) × AtRest (yield (turned w)))
          ⊎ Arms ms info new_bytes stub_code fs law path contents menu
              (kernel (turned w))
              (outcome w)
    unfolding menu_turn
    turn_cases w rest =
        let now =
          AtRest-Calm w (fed ms info new_bytes stub_code fs law path c format_u rows laws w) rest
            (Calm-fed ms info new_bytes stub_code fs law path c format_u rows laws w) in
        let injected =
          (read_serial (polled ms info new_bytes stub_code fs law path c format_u rows laws w)).1 in
        let stepped =
          run_step ms (pi_5 ms info new_bytes stub_code fs) fs format_u rows menu path
            (kernel (fed ms info new_bytes stub_code fs law path c format_u rows laws w))
            injected in
        let e =
          laws.kernel_set (fed ms info new_bytes stub_code fs law path c format_u rows laws w)
            stepped.0 in
        elim (run_step-cases ms info new_bytes stub_code fs law path format_u rows menu
          (kernel (fed ms info new_bytes stub_code fs law path c format_u rows laws w)) injected
          now.ready now.on_entry) [
            | inl still ↦
                let after =
                  rests_on (fed ms info new_bytes stub_code fs law path c format_u rows laws w)
                    (turned w) now (rw e still.same) (rw e still.on_entry) in
                let calm =
                  Calm-Reports ms info new_bytes stub_code fs law path c format_u rows laws
                    (turned w) _ (laws.yield_keeps (turned w)) in
                inl (still.unselected, AtRest-Calm (turned w) _ after calm)
            | inr arms ↦ inr (
                rw e (
                  subst
                    (λ f. Arms ms info new_bytes stub_code fs law path f menu stepped.0 stepped.1)
                    now.file arms))
          ]

    -- The state after some turns that each go on.
    abbrev pub after_turns : ℕ → World → World
    after_turns zero w = w
    after_turns (suc n) w = after_turns n (yield (turned w))

    -- The entry that was selected, and the payload that is entered with it.
    pub record Leaves (w : World) : Type 0 where
      pub entry : ℕ
      pub under_cursor : (kernel w).picker.cursor ≡ entry
      pub inside : entry < length menu
      pub string : Bytes
      pub chosen : get_string menu entry ≡ some string
      pub payload :
          Enters ms info new_bytes stub_code fs law path (kernel w).machine contents string

    abbrev pub loop : ℕ → World → Option (World × MenuEnd)
    loop fuel w = menu_loop ms info new_bytes stub_code fs c format_u rows path fuel menu w

    enabled_as :
        (w : World) (b : Bool)
        → is_chain_boot_enabled (kernel w).machine.boot ≡ answers b
        → menu_enabled ms info new_bytes stub_code fs c format_u rows path w ≡ b
    unfolding menu_enabled
    enabled_as w b e = ap yes e

    pub loop_enabled :
        (fuel : ℕ) (w : World)
        → is_chain_boot_enabled (kernel w).machine.boot ≡ answers true
        → loop (suc fuel) w ≡ some (w, reboots)
    unfolding menu_loop
    loop_enabled fuel w e = rw (enabled_as w true e) refl

    loop_turn :
        (fuel : ℕ) (w : World) (o : Option Outcome)
        → is_chain_boot_enabled (kernel w).machine.boot ≡ answers false
        → outcome w ≡ o
        → loop (suc fuel) w
          ≡ after_turn ms info new_bytes stub_code fs c format_u rows path o
              (turned w)
              (loop fuel (yield (turned w)))
    unfolding menu_loop
    loop_turn fuel w o unarmed e = rw (enabled_as w false unarmed, e) refl

    -- An armed turn is the last one.
    Leaves-now :
        (fuel : ℕ) (w : World)
        → AtRest w
        → Arms ms info new_bytes stub_code fs law path contents menu (kernel (turned w)) (outcome w)
        → 1 < fuel
        → (w' : World) × (loop fuel w ≡ some (w', reboots)) × Leaves w'
    unfolding after_turn
    Leaves-now zero w rest arms less = absurd (omega (arith, less))
    Leaves-now (suc zero) w rest arms less = absurd (omega (arith, less))
    Leaves-now (suc (suc fuel)) w rest arms less =
        let next = yield (turned w) in
        let after =
          Calm-Reports ms info new_bytes stub_code fs law path c format_u rows laws (turned w) next
            (laws.yield_keeps (turned w)) in
        let payload : Enters ms info new_bytes stub_code fs law path (kernel next).machine contents
            arms.string =
          rw after.same.machine arms.payload in
        (
          next,
          loop_turn (suc fuel) w _ rest.unarmed arms.is_armed
              ∙ loop_enabled fuel next payload.enabled,
          record {
            entry = arms.entry;
            under_cursor = after.same_cursor ∙ arms.under_cursor;
            inside = arms.inside;
            string = arms.string;
            chosen = arms.chosen;
            payload = payload;
          },
        )

    -- If a turn selects an entry, then with enough fuel the loop leaves.
    pub loop-Leaves :
        (n fuel : ℕ) (w : World)
        → AtRest w
        → outcome (after_turns n w) ≢ none
        → n + 1 < fuel
        → (w' : World) × (loop fuel w ≡ some (w', reboots)) × Leaves w'
    unfolding after_turn
    loop-Leaves n zero w rest selects less = absurd (omega (arith, less))
    loop-Leaves zero (suc fuel) w rest selects less = elim (turn_cases w rest) [
      | inl still ↦ absurd (selects still.0)
      | inr arms ↦ Leaves-now (suc fuel) w rest arms less
    ]
    loop-Leaves (suc n) (suc fuel) w rest selects less = elim (turn_cases w rest) [
      | inl still ↦
          let (w', e, leaves) =
            loop-Leaves n fuel (yield (turned w)) still.1 selects (omega (arith, less)) in
          (w', loop_turn fuel w none rest.unarmed still.0 ∙ e, leaves)
      | inr arms ↦ Leaves-now (suc fuel) w rest arms (omega (arith, less))
    ]
