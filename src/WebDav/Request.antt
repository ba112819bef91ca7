-- ===== src/WebDav/Request.antt =====
-- network-loader/webdavserver.cpp, `ParseRequest`: the request line and the two headers that count.
pub mod Tokens
pub mod Decimal
pub mod Rendered
pub mod RoundTrip
use rapi_bootloader.Base.{
  ℕ, ◌+◌, ◌-◌, ◌*◌, ◌%◌, ◌^◌, Bool, true, false, not, ◌&&◌, ◌||◌, Option, none, some, List, [], ◌∷◌,
  map, ltb, leb, ◌==◌, if◌then◌else◌, length, take, drop, Bytes, codes, starts_with,
}
use mathlib.Core.Option
use rapi_bootloader.TextScan.{index_of}
use rapi_bootloader.BootMenu.{c_str}
use rapi_bootloader.WebDav.{skip_spaces, url_decode}

-- A parsed request. `path` is "/"-rooted and percent-decoded.
pub record Request : Type 0 where
  pub method : Bytes
  pub path : Bytes
  pub content_length : ℕ
  pub depth : ℕ

abbrev pub method_size : ℕ
method_size = 16

abbrev pub path_size : ℕ
path_size = 512

-- Whether a token goes on with the first byte.
unfoldable pub in_token : (ℕ → Bool) → Bytes → Bool
in_token is_delimiter [] = false
in_token is_delimiter (c ∷ cs) = not (is_delimiter c)

unfoldable pub extend_token : Bool → ℕ → List Bytes → List Bytes
extend_token true c (t ∷ ts) = (c ∷ t) ∷ ts
extend_token _ c ts = (c ∷ []) ∷ ts

-- What successive calls of `strtok_r` with the same delimiters give.
unfoldable pub tokens : (ℕ → Bool) → Bytes → List Bytes
unfolding in_token extend_token
tokens is_delimiter [] = []
tokens is_delimiter (c ∷ cs) =
    let rest = tokens is_delimiter cs in
    if is_delimiter c then rest else extend_token (in_token is_delimiter cs) c rest

abbrev pub is_line_end : ℕ → Bool
is_line_end c = c == b'\r' || c == b'\n'

abbrev pub is_blank : ℕ → Bool
is_blank c = c == b' '

unfoldable pub to_lower : ℕ → ℕ
to_lower c = if leb b'A' c && leb c b'Z' then c + 32 else c

-- `strncasecmp (line, name, strlen (name)) == 0`
unfoldable pub is_header : Bytes → Bytes → Bool
unfolding to_lower
is_header name line = starts_with (map to_lower name) (map to_lower line)

unfoldable pub digits_value : ℕ → Bytes → ℕ
digits_value n [] = n
digits_value n (c ∷ cs) =
    let more = digits_value (n * 10 + (c - b'0')) cs in if leb b'0' c && leb c b'9' then more else n

unfoldable pub signed_value : Bytes → ℕ
unfolding digits_value
signed_value [] = 0
signed_value (c ∷ cs) =
    if c == b'-'
    then (2 ^ 32 - digits_value 0 cs % 2 ^ 32) % 2 ^ 32
    else if c == b'+'
    then digits_value 0 cs % 2 ^ 32
    else digits_value 0 (c ∷ cs) % 2 ^ 32

-- `isspace` of the C library.
unfoldable pub skip_white : Bytes → Bytes
skip_white [] = []
skip_white (c ∷ cs) =
    let rest = skip_white cs in if c == b' ' || (leb 9 c && leb c 13) then rest else c ∷ cs

-- `(unsigned) atoi (text)` on 32-bit integers that wrap around.
unfoldable pub unsigned_atoi : Bytes → ℕ
unfolding signed_value skip_white
unsigned_atoi text = signed_value (skip_white text)

-- One header line.
unfoldable pub read_header : Request → Bytes → Request
unfolding is_header unsigned_atoi
read_header r line =
    if is_header (codes "Content-Length:") line
    then record r { content_length = unsigned_atoi (skip_spaces (drop 15 line)) }
    else if is_header (codes "Depth:") line
    then (if starts_with (codes "infinity") (skip_spaces (drop 6 line))
        then record r { depth = 1 }
        else record r { depth = unsigned_atoi (skip_spaces (drop 6 line)) })
    else r

unfoldable pub read_headers : Request → List Bytes → Request
unfolding read_header
read_headers r [] = r
read_headers r (line ∷ lines) = read_headers (read_header r line) lines

-- The URI without its query.
unfoldable pub without_query : Bytes → Bytes
without_query uri = take (index_of b'?' uri) uri

unfoldable pub is_uri : Bytes → Bool
is_uri uri = starts_with (codes "/") uri && ltb (length uri) path_size

-- The request line, from its words.
unfoldable pub request_line : List Bytes → Option Request
unfolding without_query is_uri
request_line (method ∷ uri ∷ _) =
    if leb method_size (length method)
    then none
    else if not (is_uri (without_query uri))
    then none
    else some (record {
      method = method;
      path = c_str (url_decode (without_query uri));
      content_length = 0;
      depth = 1;
    })
request_line _ = none

unfoldable pub parse_request_lines : List Bytes → Option Request
unfolding tokens request_line read_headers
parse_request_lines [] = none
parse_request_lines (line ∷ lines) =
    Option.map (λ (r : Request). read_headers r lines) (request_line (tokens is_blank line))

-- `ParseRequest` on the header block.
unfoldable pub parse_request : Bytes → Option Request
unfolding parse_request_lines
parse_request header = parse_request_lines (tokens is_line_end (c_str header))
