-- ===== src/MenuLoader/Keys.antt =====
-- menu-loader/kernel.cpp: the raw keyboard handler, and the keys that arrive on the serial line.
use rapi_bootloader.Base.{
  ℕ, ◌-◌, Bool, true, false, ◌&&◌, ◌||◌, [], ◌∷◌, leb, ◌==◌, if◌then◌else◌, Bytes,
}
use rapi_bootloader.Ints.{pos, negsuc, ◌+ℤ◌}
use rapi_bootloader.MenuLoader.{Picker}

abbrev pub hid_key_up : ℕ
hid_key_up = 0x52

abbrev pub hid_key_down : ℕ
hid_key_down = 0x51

abbrev pub hid_key_enter : ℕ
hid_key_enter = 0x28

abbrev pub hid_key_kp_enter : ℕ
hid_key_kp_enter = 0x58

abbrev pub hid_key_digit1 : ℕ
hid_key_digit1 = 0x1e

abbrev pub hid_key_digit9 : ℕ
hid_key_digit9 = 0x26

abbrev pub hid_key_page_up : ℕ
hid_key_page_up = 0x4b

abbrev pub hid_key_page_down : ℕ
hid_key_page_down = 0x4e

-- What a new press of a key records.
unfoldable pub press_key : Picker → ℕ → Picker
press_key p key =
    if key == hid_key_up
    then record p { move_accum = p.move_accum +ℤ negsuc 0 }
    else if key == hid_key_down
    then record p { move_accum = p.move_accum +ℤ pos 1 }
    else if key == hid_key_enter || key == hid_key_kp_enter
    then record p { select_pending = true }
    else if key == hid_key_page_up
    then record p { page_accum = p.page_accum +ℤ negsuc 0 }
    else if key == hid_key_page_down
    then record p { page_accum = p.page_accum +ℤ pos 1 }
    else if leb hid_key_digit1 key && leb key hid_key_digit9
    then record p { jump_to = pos (key - hid_key_digit1) }
    else p

-- `bWasDown`
unfoldable pub was_down : Bytes → ℕ → Bool
was_down [] key = false
was_down (k ∷ ks) key = k == key || was_down ks key

-- The loop over a report, against the previous one.
unfoldable pub press_new_keys : Picker → Bytes → Picker
unfolding press_key was_down
press_new_keys p [] = p
press_new_keys p (key ∷ keys) =
    press_new_keys (if key == 0 || was_down p.prev_raw_keys key then p else press_key p key) keys

-- `KeyStatusHandlerRaw`
unfoldable pub key_status_handler_raw : Picker → Bytes → Picker
unfolding press_new_keys
key_status_handler_raw p raw_keys = record (press_new_keys p raw_keys) { prev_raw_keys = raw_keys }

-- One byte of the serial line.
unfoldable pub inject_char : Picker → ℕ → Picker
inject_char p c =
    if c == b'j'
    then record p { move_accum = p.move_accum +ℤ pos 1 }
    else if c == b'k'
    then record p { move_accum = p.move_accum +ℤ negsuc 0 }
    else if c == b'f'
    then record p { page_accum = p.page_accum +ℤ pos 1 }
    else if c == b'b'
    then record p { page_accum = p.page_accum +ℤ negsuc 0 }
    else if c == b'\r' || c == b'\n'
    then record p { select_pending = true }
    else if leb b'1' c && leb c b'9'
    then record p { jump_to = pos (c - b'1') }
    else p

-- The loop over the bytes that one `Read` of the serial line gave.
unfoldable pub inject_chars : Picker → Bytes → Picker
unfolding inject_char
inject_chars p [] = p
inject_chars p (c ∷ cs) = inject_chars (inject_char p c) cs
