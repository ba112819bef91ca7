-- ===== src/NetConfig/RoundTrip.antt =====
-- A section written from a configuration, and what is read back from it.
use rapi_bootloader.Base.{true, List, [], ◌∷◌, ◌++◌, Bytes, codes}
use rapi_bootloader.NetConfig.{NetConfig, Reader}
use rapi_bootloader.NetConfig.Keys.{Quad, IsQuad, octets, Key, apply_setting, setting_line}

abbrev inside : NetConfig → Reader
inside c = record { config = c; in_section = true }

-- The section as text, one "key=address" to a line.
abbrev pub render_settings : List (Key × Quad) → Bytes
render_settings [] = []
render_settings ((key, q) ∷ rest) = setting_line key q ++ b'\n' ∷ render_settings rest

abbrev pub section_line : Bytes
section_line = codes "[rapi-bootloader]"

abbrev pub apply_settings : NetConfig → List (Key × Quad) → NetConfig
apply_settings c [] = c
apply_settings c ((key, q) ∷ rest) = apply_settings (apply_setting c key (octets q)) rest

abbrev pub AreQuads : List (Key × Quad) → Type 0
AreQuads [] = Unit
AreQuads ((key, q) ∷ rest) = IsQuad q × AreQuads rest
