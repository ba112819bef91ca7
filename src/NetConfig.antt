-- ===== src/NetConfig.antt =====
-- network-loader/netconfig.cpp: the [rapi-bootloader] section of config.txt.
pub mod Tokens
pub mod Address
pub mod Sections
pub mod Keys
pub mod RoundTrip
use rapi_bootloader.Base.{
  ℕ, zero, suc, ◌+◌, ◌-◌, ◌*◌, Bool, true, false, not, ◌&&◌, ◌||◌, Option, none, some, List, [],
  ◌∷◌, ◌++◌, ltb, leb, ◌==◌, if◌then◌else◌, length, get_or, take, drop, Bytes, codes, nul, set,
}
use rapi_bootloader.BootMenu.{c_str}
use rapi_bootloader.FatFs.{FatFs, FResult, is_ok, fa_read}
use rapi_bootloader.TextScan.{trim_start, trim_end, index_of}

abbrev pub config_path : Bytes
config_path = codes "SD:/config.txt"

abbrev pub config_section : Bytes
config_section = codes "rapi-bootloader"

abbrev pub config_max_bytes : ℕ
config_max_bytes = 8192

-- `u8 [4]`
abbrev pub Address : Type 0
Address = List ℕ

-- `TRapiNetConfig`
pub record NetConfig : Type 0 where
  pub is_static : Bool
  pub ip_address : Address
  pub net_mask : Address
  pub have_gateway : Bool
  pub gateway : Address
  pub have_dns_server : Bool
  pub dns_server : Address

unfoldable pub lower : ℕ → ℕ
lower c = if leb b'A' c && leb c b'Z' then c + 32 else c

unfoldable pub match_loop : Bytes → Bytes → Bool
unfolding lower
match_loop [] [] = true
match_loop [] (b ∷ bs) = false
match_loop (a ∷ as') [] = false
match_loop (a ∷ as') (b ∷ bs) = lower a == lower b && match_loop as' bs

unfoldable pub match_token : Bytes → Bytes → Bool
unfolding match_loop
match_token s name = match_loop (trim_end (trim_start s)) name

abbrev pub is_digit : ℕ → Bool
is_digit c = leb b'0' c && leb c b'9'

-- The digits of an octet: its value and what follows, or `none` where the loop returns FALSE.
unfoldable pub parse_digits : ℕ → ℕ → Bytes → Option (ℕ × Bytes)
parse_digits value digits [] = some (value, [])
parse_digits value digits (c ∷ cs) =
    let value' = value * 10 + (c - b'0') in
    let rest = parse_digits value' (digits + 1) cs in
    if not (is_digit c)
    then some (value, c ∷ cs)
    else if ltb 3 (digits + 1) || ltb 255 value'
    then none
    else rest

-- `pStart < pEnd && *pStart` is a digit
unfoldable pub starts_digit : Bytes → Bool
starts_digit [] = false
starts_digit (c ∷ cs) = is_digit c

-- What follows a dot.
unfoldable pub after_dot : Bytes → Option Bytes
after_dot [] = none
after_dot (c ∷ cs) = if c == b'.' then some cs else none

abbrev pub is_nil : Bytes → Bool
is_nil [] = true
is_nil (c ∷ cs) = false

-- `left` octets are still to come, the next one at `octet`. The octets read so far are in the array
-- also when the result is FALSE.
unfoldable pub parse_octets : ℕ → ℕ → Bytes → Address → Address × Bool
unfolding starts_digit after_dot
parse_octets zero octet s address = (address, is_nil s)
parse_octets (suc left) octet s address =
    if not (starts_digit s) then (address, false) else elim (parse_digits 0 0 s) [
      | none ↦ (address, false)
      | some (value, rest) ↦ elim (if left == 0 then some rest else after_dot rest) [
        | none ↦ (set address octet value, false)
        | some more ↦ parse_octets left (octet + 1) more (set address octet value)
      ]
    ]

unfoldable pub parse_address : Bytes → Address → Address × Bool
parse_address s address = parse_octets 4 0 (trim_end (trim_start s)) address

-- The configuration so far, and `bInSection`.
pub record Reader : Type 0 where
  pub config : NetConfig
  pub in_section : Bool

unfoldable pub default_config : NetConfig → NetConfig
default_config old = record old {
  is_static = false;
  have_gateway = false;
  have_dns_server = false;
  net_mask = 255 ∷ 255 ∷ 255 ∷ 0 ∷ [];
}

-- One setting: the array is written by ParseAddress, the flag only when it returns TRUE.
unfoldable pub read_setting : NetConfig → Bytes → Bytes → NetConfig
read_setting c key value =
    let ip = parse_address value c.ip_address in
    let mask = parse_address value c.net_mask in
    let gate = parse_address value c.gateway in
    let dns = parse_address value c.dns_server in
    if match_token key (codes "ipaddress")
    then record c { ip_address = ip.0; is_static = ip.1 || c.is_static }
    else if match_token key (codes "netmask")
    then record c { net_mask = mask.0 }
    else if match_token key (codes "gateway")
    then record c { gateway = gate.0; have_gateway = gate.1 || c.have_gateway }
    else if match_token key (codes "dnsserver")
    then record c { dns_server = dns.0; have_dns_server = dns.1 || c.have_dns_server }
    else c

-- `[name]`, on a trimmed line that starts with '['
unfoldable pub opens_section : Bytes → Bool
opens_section line =
    get_or line (length line - 1) nul == b']'
    && match_token (take (length line - 2) (drop 1 line)) config_section

unfoldable pub read_trimmed : Reader → Bytes → Reader
unfolding opens_section
read_trimmed r [] = r
read_trimmed r (c ∷ cs) =
    let line = c ∷ cs in
    let equals = index_of b'=' line in
    if c == b'#'
    then r
    else if c == b'['
    then record r { in_section = opens_section line }
    else if not r.in_section
    then r
    else if equals == length line
    then r
    else record r { config = read_setting r.config (take equals line) (drop (equals + 1) line) }

unfoldable pub read_line : Reader → Bytes → Reader
unfolding read_trimmed
read_line r line = read_trimmed r (trim_end (trim_start line))

-- The walk over the buffer; `line` is what stands since the last newline.
unfoldable pub read_lines : Reader → Bytes → Bytes → Reader
read_lines r line [] = if is_nil line then r else read_line r line
read_lines r line (c ∷ rest) =
    read_lines (if c == b'\n' then read_line r line else r)
      (if c == b'\n' then [] else line ++ c ∷ []) rest

unfoldable pub read_text : NetConfig → Bytes → NetConfig
unfolding default_config
read_text old text =
    (read_lines (record { config = default_config old; in_section = false }) [] text).config

-- `RapiReadNetConfig`; `old` is what the caller's struct holds.
unfoldable pub read_net_config : (fs : FatFs) → fs.Card → NetConfig → fs.Card × NetConfig
read_net_config fs card old =
    let (card1, opened, file) = fs.f_open card config_path fa_read in
    let (card2, file2, result, buffer) = fs.f_read card1 file (config_max_bytes - 1) in
    if not (is_ok opened)
    then (card1, default_config old)
    else if not (is_ok result)
    then (fs.f_close card2 file2, default_config old)
    else (fs.f_close card2 file2, read_text old (c_str buffer))
