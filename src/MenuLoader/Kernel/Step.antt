-- ===== src/MenuLoader/Kernel/Step.antt =====
-- What a turn of the boot picker's loop comes to on a board that can boot: nothing was selected, and the
-- board is as it was, or the entry under the cursor was armed.
use rapi_bootloader.Base.{
  ℕ, ◌<◌, ◌≡◌, refl, sym, ap, ◌∙◌, subst, ◌⊎◌, inl, inr, false, Option, none, some, Bool-cases,
  length, Bytes,
}
use rapi_bootloader.BootImage.{BootMessage}
use rapi_bootloader.BootMenu.{Menu, get_string}
use rapi_bootloader.Circle.{MemorySystem}
use rapi_bootloader.FatFs.{FatFs}
use rapi_bootloader.MenuLoader.{Picker}
use rapi_bootloader.MenuLoader.Kernel.{pi_5}
use rapi_bootloader.MenuLoader.Kernel.Payload.{IsReady, Enters, kernel_file, boot_selection-Booted}
use rapi_bootloader.MenuLoader.Running.{run_step, serve_keys}
use rapi_bootloader.MenuLoader.Selection.{Outcome, armed, MenuWorld}
use rapi_bootloader.MenuLoader.Staging.{ReadsInOrder}
use rapi_bootloader.MenuLoader.Turn.{cursor-serve_keys, picker-boot_selection}
use rapi_bootloader.RapiChainboot.{MachineInfo, Statics}

module _ (ms : MemorySystem) (info : MachineInfo) (new_bytes : ms.Heap → ℕ → ms.Heap × ℕ)
    (stub_code : ℕ) (fs : FatFs) (law : ReadsInOrder fs) (path : Bytes) where
  -- Two states of the kernel that differ in the picker alone.
  pub record Same (k k' : MenuWorld ms.Heap Statics fs.Card) : Type 0 where
    pub machine : k'.machine ≡ k.machine
    pub card : k'.card ≡ k.card
    pub buffer : k'.image_buffer ≡ k.image_buffer

  pub Same-trans : (k l m : MenuWorld ms.Heap Statics fs.Card) → Same k l → Same l m → Same k m
  Same-trans k l m h i = record {
    machine = i.machine ∙ h.machine;
    card = i.card ∙ h.card;
    buffer = i.buffer ∙ h.buffer;
  }

  abbrev pub Ready : MenuWorld ms.Heap Statics fs.Card → Type 1
  Ready k = IsReady ms info new_bytes stub_code fs law path k.machine k.card k.image_buffer

  pub Ready-Same : (k k' : MenuWorld ms.Heap Statics fs.Card) → Same k k' → Ready k → Ready k'
  Ready-Same k k' same ready =
      let At = IsReady ms info new_bytes stub_code fs law path in
      subst (λ m. At m k'.card k'.image_buffer) (sym same.machine)
        (subst (λ c. At k.machine c k'.image_buffer) (sym same.card)
          (subst (λ b. At k.machine k.card b) (sym same.buffer) ready))

  -- A selection was armed, with the string of the entry under the cursor, for the payload of a kernel file.
  pub record Arms (contents : Bytes) (menu : Menu) (k : MenuWorld ms.Heap Statics fs.Card)
      (outcome : Option Outcome) : Type 0 where
    pub entry : ℕ
    pub under_cursor : k.picker.cursor ≡ entry
    pub inside : entry < length menu
    pub string : Bytes
    pub chosen : get_string menu entry ≡ some string
    pub message : BootMessage
    pub is_armed : outcome ≡ some (armed message)
    pub payload : Enters ms info new_bytes stub_code fs law path k.machine contents string

  module _ (format_u : ℕ → Bytes) (rows : ℕ) (menu : Menu) where
    pub record Rests (k k' : MenuWorld ms.Heap Statics fs.Card) (outcome : Option Outcome)
        : Type 0 where
      pub unselected : outcome ≡ none
      pub same : Same k k'
      pub on_entry : k'.picker.cursor < length menu

    abbrev pub step :
        MenuWorld ms.Heap Statics fs.Card
        → Bytes
        → MenuWorld ms.Heap Statics fs.Card × Option Outcome
    step k injected =
        run_step ms (pi_5 ms info new_bytes stub_code fs) fs format_u rows menu path k injected

    pub run_step-cases :
        (k : MenuWorld ms.Heap Statics fs.Card) (injected : Bytes)
        → Ready k
        → k.picker.cursor < length menu
        → Rests k (step k injected).0 (step k injected).1
          ⊎ Arms
              (kernel_file ms info new_bytes stub_code fs law path k.card)
              menu
              (step k injected).0
              (step k injected).1
    unfolding run_step
    run_step-cases k injected ready inside =
        let cl = pi_5 ms info new_bytes stub_code fs in
        let drawn = serve_keys format_u rows menu k.picker injected in
        let still = cursor-serve_keys ms cl fs format_u rows menu path k.picker injected inside in
        elim (Bool-cases drawn.select_pending) [
          | inl select ↦
              let selected = record k { picker = record drawn { select_pending = false } } in
              let b =
                boot_selection-Booted ms info new_bytes stub_code fs law path selected menu
                  drawn.cursor ready still in
              inr (
                rw select (record {
                  entry = drawn.cursor;
                  under_cursor =
                      ap (λ (p : Picker). p.cursor)
                        (picker-boot_selection ms cl fs format_u rows menu path selected
                          drawn.cursor);
                  inside = still;
                  string = b.string;
                  chosen = b.chosen;
                  message = b.message;
                  is_armed = ap some b.is_armed;
                  payload = b.payload;
                }))
          | inr none_selected ↦ inl (
              rw none_selected (record {
                unselected = refl;
                same = record { machine = refl; card = refl; buffer = refl };
                on_entry = still;
              }))
        ]
