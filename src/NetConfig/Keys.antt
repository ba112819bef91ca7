-- ===== src/NetConfig/Keys.antt =====
-- One setting: its key, its address, and what it does to a configuration.
use mathlib.Core.List.{append-nil}
use rapi_bootloader.Base.{
  ℕ, ◌<◌, ◌≡◌, refl, ap, ◌∙◌, subst, Bool, true, false, [], ◌∷◌, ◌++◌, arith, Bytes, codes,
}
use rapi_bootloader.TextScan.{is_space, trim_start, trim_end}
use rapi_bootloader.TextScan.Laws.{IsDark, Lacks}
use rapi_bootloader.NetConfig.{Address, NetConfig, read_setting, match_token, parse_address}
use rapi_bootloader.NetConfig.Address.{
  print_address, parse_address-print_address, IsDark-print_octet, IsDark-dotted,
}

-- An address of four octets.
pub record Quad : Type 0 where
  pub first : ℕ
  pub second : ℕ
  pub third : ℕ
  pub fourth : ℕ

pub record IsQuad (q : Quad) : Type 0 where
  pub first_octet : q.first < 256
  pub second_octet : q.second < 256
  pub third_octet : q.third < 256
  pub fourth_octet : q.fourth < 256

abbrev pub octets : Quad → Address
octets q = q.first ∷ q.second ∷ q.third ∷ q.fourth ∷ []

abbrev pub print_quad : Quad → Bytes
print_quad q = print_address q.first q.second q.third q.fourth

pub data Key : Type 0 where
  ipaddress netmask gateway dnsserver : Key

abbrev pub key_text : Key → Bytes
key_text ipaddress = codes "ipaddress"
key_text netmask = codes "netmask"
key_text gateway = codes "gateway"
key_text dnsserver = codes "dnsserver"

-- What a setting does to a configuration, as the documentation has it.
abbrev pub apply_setting : NetConfig → Key → Address → NetConfig
apply_setting c ipaddress a = record c { ip_address = a; is_static = true }
apply_setting c netmask a = record c { net_mask = a }
apply_setting c gateway a = record c { gateway = a; have_gateway = true }
apply_setting c dnsserver a = record c { dns_server = a; have_dns_server = true }

abbrev pub setting_line : Key → Quad → Bytes
setting_line key q = key_text key ++ b'=' ∷ print_quad q

pub IsDark-key_text : (key : Key) → IsDark (key_text key)
unfolding is_space
IsDark-key_text ipaddress = ground arith
IsDark-key_text _ = ground arith

pub Lacks-key_text : (key : Key) → Lacks b'=' (key_text key)
Lacks-key_text ipaddress = ground arith
Lacks-key_text _ = ground arith

pub IsDark-print_quad : (q : Quad) → IsQuad q → IsDark (print_quad q)
IsDark-print_quad q h = IsDark-dotted q.first _ h.first_octet (
    IsDark-dotted q.second _ h.second_octet
      (IsDark-dotted q.third _ h.third_octet (IsDark-print_octet q.fourth h.fourth_octet)))

-- Four old octets, as every array has.
abbrev pub IsAddress : Address → Type 0
IsAddress a = (q : Quad) × (a ≡ octets q)

parse_address-print_quad :
    (q : Quad) (old : Address)
    → IsQuad q
    → IsAddress old
    → parse_address (print_quad q) old ≡ (octets q, true)
parse_address-print_quad q old h (o, e) =
    let read =
      parse_address-print_address q.first q.second q.third h.first_octet h.second_octet
        h.third_octet [] [] tt tt o.first o.second o.third o.fourth q.fourth h.fourth_octet in
    ap (parse_address (print_quad q)) e
    ∙ subst (λ t. parse_address t (octets o) ≡ (octets q, true)) (append-nil (print_quad q)) read

same_key : Key → Key → Bool
same_key ipaddress ipaddress = true
same_key netmask netmask = true
same_key gateway gateway = true
same_key dnsserver dnsserver = true
same_key _ _ = false

match_token-key_text : (k n : Key) → match_token (key_text k) (key_text n) ≡ same_key k n
unfolding match_token trim_start trim_end is_space same_key
match_token-key_text ipaddress ipaddress = refl
match_token-key_text ipaddress _ = refl
match_token-key_text netmask ipaddress = refl
match_token-key_text netmask _ = refl
match_token-key_text gateway ipaddress = refl
match_token-key_text gateway _ = refl
match_token-key_text dnsserver ipaddress = refl
match_token-key_text dnsserver _ = refl

-- All the arrays have four octets.
pub record HasAddresses (c : NetConfig) : Type 0 where
  pub ip_octets : IsAddress c.ip_address
  pub mask_octets : IsAddress c.net_mask
  pub gateway_octets : IsAddress c.gateway
  pub dns_octets : IsAddress c.dns_server

pub HasAddresses-apply_setting :
    (c : NetConfig) (key : Key) (q : Quad)
    → HasAddresses c
    → HasAddresses (apply_setting c key (octets q))
HasAddresses-apply_setting c ipaddress q h = record {
  ip_octets = (q, refl);
  mask_octets = h.mask_octets;
  gateway_octets = h.gateway_octets;
  dns_octets = h.dns_octets;
}
HasAddresses-apply_setting c netmask q h = record {
  ip_octets = h.ip_octets;
  mask_octets = (q, refl);
  gateway_octets = h.gateway_octets;
  dns_octets = h.dns_octets;
}
HasAddresses-apply_setting c gateway q h = record {
  ip_octets = h.ip_octets;
  mask_octets = h.mask_octets;
  gateway_octets = (q, refl);
  dns_octets = h.dns_octets;
}
HasAddresses-apply_setting c dnsserver q h = record {
  ip_octets = h.ip_octets;
  mask_octets = h.mask_octets;
  gateway_octets = h.gateway_octets;
  dns_octets = (q, refl);
}

pub read_setting-key_text :
    (key : Key) (c : NetConfig) (q : Quad)
    → IsQuad q
    → HasAddresses c
    → read_setting c (key_text key) (print_quad q) ≡ apply_setting c key (octets q)
unfolding read_setting same_key
read_setting-key_text ipaddress c q h a =
    rw (match_token-key_text ipaddress ipaddress, read_setting)
      (rw (parse_address-print_quad q c.ip_address h a.ip_octets))
read_setting-key_text netmask c q h a =
    rw (match_token-key_text netmask ipaddress, match_token-key_text netmask netmask, read_setting)
      (rw (parse_address-print_quad q c.net_mask h a.mask_octets))
read_setting-key_text gateway c q h a =
    rw
      (
        match_token-key_text gateway ipaddress,
        match_token-key_text gateway netmask,
        match_token-key_text gateway gateway,
        read_setting,
      )
      (rw (parse_address-print_quad q c.gateway h a.gateway_octets))
read_setting-key_text dnsserver c q h a =
    rw
      (
        match_token-key_text dnsserver ipaddress,
        match_token-key_text dnsserver netmask,
        match_token-key_text dnsserver gateway,
        match_token-key_text dnsserver dnsserver,
        read_setting,
      )
      (rw (parse_address-print_quad q c.dns_server h a.dns_octets))
