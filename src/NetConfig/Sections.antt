-- ===== src/NetConfig/Sections.antt =====
-- Which lines of config.txt count.
use mathlib.Core.List.{append-nil}
use rapi_bootloader.Base.{
  ℕ, ◌<◌, ◌≡◌, refl, sym, ap, ◌∙◌, subst, true, false, List, [], ◌∷◌, ◌++◌, arith, All, Bytes,
  codes,
}
use rapi_bootloader.TextScan.{trim_start, trim_end}
use rapi_bootloader.TextScan.Lines.{split_lines, fold_lines, eq-walk, walk-split_lines}
use rapi_bootloader.NetConfig.{
  NetConfig, Reader, default_config, opens_section, read_setting, read_trimmed, read_line,
  read_lines, read_text, match_token, parse_address,
}
use rapi_bootloader.NetConfig.Address.{print_octet, parse_address_short}

read_line_nil : (r : Reader) → read_line r [] ≡ r
unfolding read_line trim_start trim_end
read_line_nil r = refl

read_lines_end : (r : Reader) (line : Bytes) → read_lines r line [] ≡ read_line r line
unfolding read_lines
read_lines_end r [] = sym (read_line_nil r)
read_lines_end r (c ∷ cs) = refl

pub read_lines-fold_lines :
    (r : Reader) (text : Bytes) → read_lines r [] text ≡ fold_lines read_line r (split_lines text)
unfolding read_lines
read_lines-fold_lines r text =
    eq-walk read_line read_lines read_lines_end (λ s line rest c. refl) r [] text
    ∙ walk-split_lines read_line r text

-- The trimmed line does not open the loader's section.
abbrev NoHeader : Bytes → Type 0
NoHeader [] = Unit
NoHeader (c ∷ cs) = c ≡ b'[' → opens_section (c ∷ cs) ≡ false

abbrev pub IsForeign : Bytes → Type 0
IsForeign line = NoHeader (trim_end (trim_start line))

abbrev outside : NetConfig → Reader
outside c = record { config = c; in_section = false }

read_trimmed-outside :
    (c : NetConfig) (line : Bytes) → NoHeader line → read_trimmed (outside c) line ≡ outside c
unfolding read_trimmed
read_trimmed-outside c [] h = refl
read_trimmed-outside c (x ∷ xs) h = ground (arith, h)

fold_lines-outside :
    (c : NetConfig) (ls : List Bytes)
    → All IsForeign ls
    → fold_lines read_line (outside c) ls ≡ outside c
fold_lines-outside c [] h = refl
fold_lines-outside c (l ∷ ls) h =
    let e : read_line (outside c) l ≡ outside c =
      unfold read_line in read_trimmed-outside c (trim_end (trim_start l)) h.0 in
    rw e (fold_lines-outside c ls h.1)

-- A config.txt in which no line opens the [rapi-bootloader] section gives the default configuration:
-- no static address, whatever settings its other sections hold.
pub read_text_foreign :
    (old : NetConfig) (text : Bytes)
    → All IsForeign (split_lines text)
    → read_text old text ≡ default_config old
unfolding read_text
read_text_foreign old text h =
    ap (λ (r : Reader). r.config)
      (read_lines-fold_lines (outside (default_config old)) text
        ∙ fold_lines-outside (default_config old) (split_lines text) h)

-- A refused address is not ignored: an ipaddress setting of three numbers below 256, each with its
-- dot, and no fourth leaves the static flag as it was, but replaces the first three numbers of the
-- address that was set before.
pub read_setting_short_ip :
    (cfg : NetConfig) (key : Bytes) (a b c o0 o1 o2 o3 : ℕ)
    → match_token key (codes "ipaddress") ≡ true
    → a < 256
    → b < 256
    → c < 256
    → cfg.ip_address ≡ o0 ∷ o1 ∷ o2 ∷ o3 ∷ []
    → read_setting cfg key
        (print_octet a ++ b'.' ∷ (print_octet b ++ b'.' ∷ (print_octet c ++ b'.' ∷ [])))
      ≡ record cfg { ip_address = a ∷ b ∷ c ∷ o3 ∷ [] }
unfolding read_setting
read_setting_short_ip cfg key a b c o0 o1 o2 o3 k ha hb hc old =
    let text = print_octet a ++ b'.' ∷ (print_octet b ++ b'.' ∷ (print_octet c ++ b'.' ∷ [])) in
    let short : parse_address text (o0 ∷ o1 ∷ o2 ∷ o3 ∷ []) ≡ (a ∷ b ∷ c ∷ o3 ∷ [], false) =
      subst (λ t. parse_address t (o0 ∷ o1 ∷ o2 ∷ o3 ∷ []) ≡ (a ∷ b ∷ c ∷ o3 ∷ [], false))
        (append-nil text) (parse_address_short a b c ha hb hc [] [] tt tt o0 o1 o2 o3) in
    let here : parse_address text cfg.ip_address ≡ (a ∷ b ∷ c ∷ o3 ∷ [], false) =
      ap (parse_address text) old ∙ short in
    rw (k, read_setting) (rw here)
