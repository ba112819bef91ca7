-- ===== src/WebDav.antt =====
-- network-loader/webdavserver.cpp: the functions on request paths and on names in a listing.
pub mod Escapes
pub mod Receive
pub mod Headers
pub mod Request
pub mod Volume
pub mod Replies
pub mod Upload
pub mod Handlers
pub mod Written
pub mod Body
pub mod Put
pub mod Refused
pub mod Confined
pub mod Get
pub mod Listener
use rapi_bootloader.Base.{
  ℕ, ◌+◌, ◌-◌, ◌*◌, ◌/◌, ◌%◌, Bool, true, false, ◌&&◌, ◌||◌, Option, none, some, [], ◌∷◌, ◌++◌, leb,
  ◌==◌, if◌then◌else◌, Bytes, codes, equal, starts_with,
}

unfoldable pub is_hex_digit : ℕ → Bool
is_hex_digit c =
    (leb b'0' c && leb c b'9') || (leb b'a' c && leb c b'f') || (leb b'A' c && leb c b'F')

unfoldable pub hex_value : ℕ → ℕ
hex_value c =
    if leb b'0' c && leb c b'9'
    then c - b'0'
    else if leb b'a' c && leb c b'f'
    then c - b'a' + 10
    else c - b'A' + 10

-- `UrlDecode`, on the bytes before the NUL. At the last two bytes the NUL is no hexadecimal digit.
unfoldable pub url_decode : Bytes → Bytes
url_decode [] = []
url_decode (c ∷ []) = c ∷ []
url_decode (c ∷ d ∷ []) = c ∷ d ∷ []
url_decode (c ∷ h ∷ l ∷ rest) = elim (c == b'%' && (is_hex_digit h && is_hex_digit l)) [
  | true ↦ (hex_value h * 16 + hex_value l) % 256 ∷ url_decode rest
  | false ↦ c ∷ url_decode (h ∷ l ∷ rest)
]

unfoldable pub skip_spaces : Bytes → Bytes
skip_spaces [] = []
skip_spaces (c ∷ cs) = let rest = skip_spaces cs in if c == b' ' || c == b'\t' then rest else c ∷ cs

-- `strstr (path, "..") != 0`
unfoldable pub has_dot_dot : Bytes → Bool
has_dot_dot [] = false
has_dot_dot (c ∷ cs) = starts_with (codes "..") (c ∷ cs) || has_dot_dot cs

unfoldable pub map_path : Bytes → Option Bytes
unfolding has_dot_dot
map_path path =
    if has_dot_dot path
    then none
    else if equal path (codes "/")
    then some (codes "SD:/")
    else some (codes "SD:" ++ path)

abbrev pub xml_char : ℕ → Bytes
xml_char c =
    if c == b'&'
    then codes "&amp;"
    else if c == b'<'
    then codes "&lt;"
    else if c == b'>'
    then codes "&gt;"
    else if c == b'"'
    then codes "&quot;"
    else c ∷ []

-- What `AppendXmlEscaped` appends.
unfoldable pub xml_escaped : Bytes → Bytes
xml_escaped [] = []
xml_escaped (c ∷ cs) = xml_char c ++ xml_escaped cs
