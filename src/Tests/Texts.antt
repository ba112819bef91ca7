-- ===== src/Tests/Texts.antt =====
-- The two configuration files at concrete inputs.
use rapi_bootloader.Base.{ℕ, ◌≡◌, refl, true, false, List, [], ◌∷◌, ◌++◌, arith, take, Bytes, codes}
use rapi_bootloader.BootMenu.{Entry, max_entries, parse_lines, parse_line}
use rapi_bootloader.BootMenu.Lines.{entries_of, parse_lines-entries_of}
use rapi_bootloader.NetConfig.{NetConfig, match_token, parse_address, read_setting}
use rapi_bootloader.NetConfig.Address.{print_octet, print_address, parse_address-print_address}
use rapi_bootloader.NetConfig.Keys.{Quad, Key, ipaddress, gateway}
use rapi_bootloader.NetConfig.Sections.{read_setting_short_ip}
use rapi_bootloader.TextScan.{is_space, trim_start, trim_end, index_of}
use rapi_bootloader.TextScan.Lines.{split_lines}

abbrev menu_text : Bytes
menu_text = codes "# boot menu\r\n\nC64 | c64 -iec8 \r\nno separator\nPlus4|plus4"

abbrev c64 : Entry
c64 = record { label = codes "C64"; string = codes "c64 -iec8" }

abbrev plus4 : Entry
plus4 = record { label = codes "Plus4"; string = codes "plus4" }

parse_lines_run : parse_lines [] [] menu_text ≡ c64 ∷ plus4 ∷ []
unfolding parse_lines parse_line trim_start trim_end is_space index_of
parse_lines_run = refl

parse_lines-entries_of_example :
    parse_lines [] [] menu_text ≡ take max_entries (entries_of (split_lines menu_text))
parse_lines-entries_of_example = parse_lines-entries_of menu_text

abbrev old_config : NetConfig
old_config = record {
  is_static = false;
  ip_address = 0 ∷ 0 ∷ 0 ∷ 0 ∷ [];
  net_mask = 0 ∷ 0 ∷ 0 ∷ 0 ∷ [];
  have_gateway = false;
  gateway = 0 ∷ 0 ∷ 0 ∷ 0 ∷ [];
  have_dns_server = false;
  dns_server = 0 ∷ 0 ∷ 0 ∷ 0 ∷ [];
}

abbrev quad : ℕ → ℕ → ℕ → ℕ → Quad
quad a b c d = record { first = a; second = b; third = c; fourth = d }

abbrev settings : List (Key × Quad)
settings = (ipaddress, quad 192 168 0 42) ∷ (gateway, quad 192 168 0 1) ∷ []

parse_address-print_address_example :
    parse_address (codes " " ++ (print_address 10 0 0 7 ++ codes "\r")) (1 ∷ 2 ∷ 3 ∷ 4 ∷ [])
    ≡ (10 ∷ 0 ∷ 0 ∷ 7 ∷ [], true)
unfolding is_space
parse_address-print_address_example =
    parse_address-print_address 10 0 0 (omega arith) (omega arith) (omega arith) (codes " ")
      (codes "\r") (refl, tt) (refl, tt) 1 2 3 4 7 (omega arith)

read_setting_short_ip_example :
    read_setting
      (record old_config { ip_address = 192 ∷ 168 ∷ 0 ∷ 42 ∷ [] })
      (codes "ipaddress")
      (print_octet 10 ++ b'.' ∷ (print_octet 0 ++ b'.' ∷ (print_octet 0 ++ b'.' ∷ [])))
    ≡ record old_config { ip_address = 10 ∷ 0 ∷ 0 ∷ 42 ∷ [] }
unfolding match_token trim_start trim_end is_space
read_setting_short_ip_example =
    read_setting_short_ip (record old_config { ip_address = 192 ∷ 168 ∷ 0 ∷ 42 ∷ [] })
      (codes "ipaddress") 10 0 0 192 168 0 42 refl (omega arith) (omega arith) (omega arith) refl
