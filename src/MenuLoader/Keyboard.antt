-- ===== src/MenuLoader/Keyboard.antt =====
-- menu-loader/kernel.cpp: the pointer to the keyboard, which `Run` sets once one appears and
-- `KeyboardRemovedHandler` clears. `found` is what the device name service gives.
use rapi_bootloader.Base.{◌≡◌, refl, Bool, true, false, Option, none, some, if◌then◌else◌}

module _ {Keyboard : Type 0} where
  -- The turn of `Run` after UpdatePlugAndPlay: the pointer, and the keyboard whose handlers are
  -- registered now.
  unfoldable pub attach_keyboard :
      Bool → Option Keyboard → Option Keyboard → Option Keyboard × Option Keyboard
  attach_keyboard updated (some keyboard) found = (some keyboard, none)
  attach_keyboard updated none found = if updated then (found, found) else (none, none)

  -- `KeyboardRemovedHandler`, with whether there is a kernel.
  unfoldable pub keyboard_removed : Bool → Option Keyboard → Option Keyboard
  keyboard_removed has_kernel keyboard = if has_kernel then none else keyboard

  -- A turn that registers no handlers leaves the pointer, and the turn after a removal registers those
  -- of the keyboard that is found.
  pub attach_keyboard-registers :
      (updated : Bool) (keyboard found : Option Keyboard)
      → ((attach_keyboard updated keyboard found).1 ≡ none
          → (attach_keyboard updated keyboard found).0 ≡ keyboard)
        × ((attach_keyboard true (keyboard_removed true keyboard) found).1 ≡ found)
  unfolding attach_keyboard keyboard_removed
  attach_keyboard-registers updated (some keyboard) found = ((λ h. refl), refl)
  attach_keyboard-registers true none found = ((λ h. h), refl)
  attach_keyboard-registers false none found = ((λ h. refl), refl)
