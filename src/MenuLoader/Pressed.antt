-- ===== src/MenuLoader/Pressed.antt =====
-- The two sources of keys: the USB keyboard's raw reports, and the serial line.
use rapi_bootloader.Base.{
  ℕ, ◌+◌, ◌-◌, ◌≡◌, refl, ap, ◌∙◌, ◌⊎◌, inl, inr, true, ◌&&◌, ◌||◌, Option, none, some, [], ◌∷◌,
  arith, leb, ◌==◌, if◌then◌else◌, All, Bytes,
}
use rapi_bootloader.MenuLoader.{Picker}
use rapi_bootloader.MenuLoader.Keys.{
  hid_key_up, hid_key_down, hid_key_enter, hid_key_digit1, hid_key_page_up, hid_key_page_down,
  inject_char, press_key, was_down, press_new_keys, key_status_handler_raw,
}

-- A key that is up, or was down already in the previous report.
abbrev pub IsOld : Picker → ℕ → Type 0
IsOld p key = (key ≡ 0) ⊎ (was_down p.prev_raw_keys key ≡ true)

press_new_keys_old : (keys : Bytes) (p : Picker) → All (IsOld p) keys → press_new_keys p keys ≡ p
unfolding press_new_keys
press_new_keys_old [] p h = refl
press_new_keys_old (key ∷ keys) p h = elim h.0 [
  | inl up ↦ rw up (press_new_keys_old keys p h.1)
  | inr held ↦
      let skipped : (if key == 0 || was_down p.prev_raw_keys key then p else press_key p key) ≡ p =
        ground (arith, held) in
      ap (λ (q : Picker). press_new_keys q keys) skipped ∙ press_new_keys_old keys p h.1
]

-- A held key does not repeat: a report that brings no new key records no intent.
pub key_status_handler_raw_held :
    (p : Picker) (raw_keys : Bytes)
    → All (IsOld p) raw_keys
    → key_status_handler_raw p raw_keys ≡ record p { prev_raw_keys = raw_keys }
unfolding key_status_handler_raw
key_status_handler_raw_held p raw_keys h =
    ap (λ (q : Picker). record q { prev_raw_keys = raw_keys }) (press_new_keys_old raw_keys p h)

cursor-press_key : (p : Picker) (key : ℕ) → (press_key p key).cursor ≡ p.cursor
unfolding press_key
cursor-press_key p key = ground arith

pub cursor-press_new_keys : (keys : Bytes) (p : Picker) → (press_new_keys p keys).cursor ≡ p.cursor
unfolding press_new_keys
cursor-press_new_keys [] p = refl
cursor-press_new_keys (key ∷ keys) p =
    cursor-press_new_keys keys
      (if key == 0 || was_down p.prev_raw_keys key then p else press_key p key)
    ∙ ground (arith, cursor-press_key p key)

-- The key that a byte of the serial line stands for.
abbrev pub key_of_char : ℕ → Option ℕ
key_of_char c =
    if c == b'j'
    then some hid_key_down
    else if c == b'k'
    then some hid_key_up
    else if c == b'f'
    then some hid_key_page_down
    else if c == b'b'
    then some hid_key_page_up
    else if c == b'\r' || c == b'\n'
    then some hid_key_enter
    else if leb b'1' c && leb c b'9'
    then some (hid_key_digit1 + (c - b'1'))
    else none

abbrev pub press_optional : Picker → Option ℕ → Picker
press_optional p none = p
press_optional p (some key) = press_key p key

-- The serial line scripts the menu with the intents of the keyboard: a byte does what a new press of
-- the key that it stands for does, j and k for down and up, f and b for the pages, Enter, and the
-- digits 1 to 9; any other byte does nothing.
pub inject_char-press_key :
    (p : Picker) (c : ℕ) → inject_char p c ≡ press_optional p (key_of_char c)
unfolding inject_char press_key
inject_char-press_key p c = ground arith
