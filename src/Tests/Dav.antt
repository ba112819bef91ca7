-- ===== src/Tests/Dav.antt =====
-- Escapes at concrete inputs, and runs of the WebDAV path functions.
use rapi_bootloader.Base.{
  ℕ, ◌+◌, ◌≡◌, refl, true, false, none, some, ◌∷◌, arith, ltb, if◌then◌else◌, length, Bytes, codes,
  starts_with,
}
use rapi_bootloader.WebDav.Listener.{
  max_clients, Clients, listening, accept_turn, IsBounded, steps, starts, accepts,
  accept_turn-IsBounded,
}
use rapi_bootloader.WebDav.{is_hex_digit, hex_value, url_decode, map_path}
use rapi_bootloader.WebDav.Escapes.{percent_encode, url_decode-percent_encode}

abbrev name : Bytes
name = codes "a <b>"

url_decode-percent_encode_example : url_decode (percent_encode name) ≡ name
url_decode-percent_encode_example =
    url_decode-percent_encode name
      (omega arith, (omega arith, (omega arith, (omega arith, (omega arith, tt)))))

-- An escaped ".." is refused all the same.
escaped_dots :
    elim (map_path (url_decode (codes "/%2e%2E/x"))) [ none ↦ true | some path ↦ false ] ≡ true
unfolding url_decode map_path starts_with is_hex_digit hex_value
escaped_dots = refl

-- One client is served, and another comes.
accept_turn-IsBounded_example :
    let s : Clients ℕ = accept_turn ℕ (listening ℕ) (some 7) in
    IsBounded ℕ s
    × (accept_turn ℕ s (some 8) ≡ (
        if ltb (length s.workers) max_clients
        then record { instance_count = s.instance_count + 1; workers = 8 ∷ s.workers }
        else s))
accept_turn-IsBounded_example = accept_turn-IsBounded ℕ 8 (steps starts (accepts (some 7)))
