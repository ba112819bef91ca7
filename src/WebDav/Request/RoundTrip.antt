-- ===== src/WebDav/Request/RoundTrip.antt =====
-- What `ParseRequest` makes of a request as a client sends it.
use rapi_bootloader.Base.{
  ℕ, ◌+◌, ◌*◌, ◌^◌, ◌<◌, ◌≡◌, refl, ap, ◌∙◌, true, false, Option, some, [], ◌∷◌, ◌++◌, arith, ltb,
  leb, length, All, All-append, Bytes, codes, starts_with,
}
use mathlib.Core.Option
use rapi_bootloader.BootMenu.{c_str}
use rapi_bootloader.WebDav.Escapes.{percent_encode}
use rapi_bootloader.WebDav.Request.{
  Request, method_size, path_size, tokens, is_line_end, is_blank, is_header, to_lower, read_header,
  read_headers, is_uri, request_line, parse_request_lines, parse_request,
}
use rapi_bootloader.WebDav.Request.Decimal.{
  print_number, IsDigit, All-print_digits, skip_spaces_digits, unsigned_atoi-print_number,
}
use rapi_bootloader.WebDav.Request.Tokens.{tokens_skip, tokens-append, tokens_last}
use rapi_bootloader.WebDav.{url_decode, skip_spaces}
use rapi_bootloader.WebDav.Request.Rendered.{
  All-weaken, IsDark, render_uri, version, render_line, render_length, render_depth, line_end,
  render_request, IsUrl, All-render_uri, length-percent_encode, without_query_url, c_str_whole,
  url_decode-render_uri, IsText, IsText-render_line, IsText-print_number,
}

request_of : Bytes → Bytes → ℕ → ℕ → Request
request_of method rest content_length depth = record {
  method = method;
  path = b'/' ∷ rest;
  content_length = content_length;
  depth = depth;
}

words_of_line :
    (m : ℕ) (ms rest : Bytes)
    → All IsDark (m ∷ ms)
    → All (λ c. c < 256) rest
    → tokens is_blank (render_line (m ∷ ms) rest) ≡ (m ∷ ms) ∷ render_uri rest ∷ version ∷ []
words_of_line m ms rest dark bytes =
    let Word : ℕ → Type 0 = λ c. is_blank c ≡ false in
    let word = All-weaken IsDark Word (m ∷ ms) (λ c h. ground (arith, h)) dark in
    let uri =
      All-weaken IsUrl Word (render_uri rest) (λ c h. ground (arith, h.0))
        (All-render_uri rest bytes) in
    tokens-append is_blank m ms b' ' (render_uri rest ++ b' ' ∷ version) word refl
    ∙ ap (λ ts. (m ∷ ms) ∷ ts)
        (tokens-append is_blank b'/' (percent_encode rest) b' ' version uri refl
          ∙ ap (λ ts. render_uri rest ∷ ts)
              (tokens_last is_blank _ _
                (refl, (refl, (refl, (refl, (refl, (refl, (refl, (refl, tt))))))))))

is_uri-render_uri :
    (rest : Bytes)
    → ltb (length (render_uri rest)) path_size ≡ true
    → is_uri (render_uri rest) ≡ true
unfolding is_uri starts_with
is_uri-render_uri rest room = room

request_line-words :
    (m : ℕ) (ms rest : Bytes)
    → length (m ∷ ms) < method_size
    → 3 * length rest + 1 < path_size
    → All (λ c. (0 < c) × (c < 256)) rest
    → request_line ((m ∷ ms) ∷ render_uri rest ∷ version ∷ []) ≡ some (request_of (m ∷ ms) rest 0 1)
unfolding request_line request_of
request_line-words m ms rest short room bytes =
    let small = All-weaken _ (λ c. c < 256) rest (λ c h. h.1) bytes in
    let real = All-weaken _ (λ c. 0 < c) rest (λ c h. h.0) bytes in
    let no_query = without_query_url (render_uri rest) (All-render_uri rest small) in
    let in_method : leb method_size (length (m ∷ ms)) ≡ false = ground (arith, short) in
    let in_path : ltb (length (render_uri rest)) path_size ≡ true =
      ground (arith, room, length-percent_encode rest) in
    let path : c_str (url_decode (render_uri rest)) ≡ b'/' ∷ rest =
      ap c_str (url_decode-render_uri rest small) ∙ c_str_whole (b'/' ∷ rest) (omega arith, real) in
    let ok : is_uri (render_uri rest) ≡ true = is_uri-render_uri rest in_path in
    rw (in_method, no_query, ok, path) refl

length_read :
    (r : Request) (n : ℕ)
    → n < 2 ^ 32
    → read_header r (render_length n) ≡ record r { content_length = n }
unfolding read_header is_header to_lower starts_with
length_read r n small =
    ap (λ v. record r { content_length = v }) (unsigned_atoi-print_number n small)

not_infinite : (s : Bytes) → All IsDigit s → starts_with (codes "infinity") s ≡ false
unfolding starts_with
not_infinite [] h = refl
not_infinite (c ∷ cs) h = ground (arith, h.0)

skip_spaces_blank : (n : ℕ) → skip_spaces (b' ' ∷ print_number n) ≡ print_number n
unfolding skip_spaces
skip_spaces_blank n = skip_spaces_digits (print_number n) (All-print_digits n n)

depth_read :
    (r : Request) (n : ℕ) → n < 2 ^ 32 → read_header r (render_depth n) ≡ record r { depth = n }
unfolding read_header is_header to_lower starts_with
depth_read r n small =
    let number : skip_spaces (b' ' ∷ print_number n) ≡ print_number n = skip_spaces_blank n in
    let finite : starts_with (codes "infinity") (skip_spaces (b' ' ∷ print_number n)) ≡ false =
      ap (λ t. starts_with (codes "infinity") t) number
      ∙ not_infinite (print_number n) (All-print_digits n n) in
    rw finite (ap (λ v. record r { depth = v }) (unsigned_atoi-print_number n small))

-- A line and the two bytes that end it.
tokens_line :
    (c : ℕ) (t rest : Bytes)
    → All IsText (c ∷ t)
    → tokens is_line_end ((c ∷ t) ++ b'\r' ∷ b'\n' ∷ rest) ≡ (c ∷ t) ∷ tokens is_line_end rest
tokens_line c t rest h =
    let Word : ℕ → Type 0 = λ c. is_line_end c ≡ false in
    let word = All-weaken IsText Word (c ∷ t) (λ c h. ground (arith, h)) h in
    tokens-append is_line_end c t b'\r' (b'\n' ∷ rest) word refl
    ∙ ap (λ ts. (c ∷ t) ∷ ts) (tokens_skip is_line_end b'\n' rest refl)

no_more_lines : tokens is_line_end line_end ≡ []
unfolding tokens
no_more_lines = refl

-- The lines of a request.
lines_of :
    (m : ℕ) (ms rest : Bytes) (n depth : ℕ)
    → All IsText (render_line (m ∷ ms) rest)
    → tokens is_line_end (render_request (m ∷ ms) rest n depth)
      ≡ render_line (m ∷ ms) rest ∷ render_length n ∷ render_depth depth ∷ []
lines_of m ms rest n depth text =
    let after = render_depth depth ++ b'\r' ∷ b'\n' ∷ line_end in
    let in_length = IsText-print_number (codes "Content-Length: ") n (omega arith) in
    let in_depth = IsText-print_number (codes "Depth: ") depth (omega arith) in
    tokens_line m _ (render_length n ++ b'\r' ∷ b'\n' ∷ after) text
    ∙ ap (λ ts. render_line (m ∷ ms) rest ∷ ts)
        (tokens_line b'C' _ after in_length
          ∙ ap (λ ts. render_length n ∷ ts)
              (tokens_line b'D' _ line_end in_depth
                ∙ ap (λ ts. render_depth depth ∷ ts) no_more_lines))

no_nul :
    (line rest : Bytes)
    → All IsText line
    → All (λ c. 0 < c) rest
    → All (λ c. 0 < c) (line ++ b'\r' ∷ b'\n' ∷ rest)
no_nul line rest h k =
    let Real : ℕ → Type 0 = λ c. 0 < c in
    let real = All-weaken IsText Real line (λ c d. omega (arith, d)) h in
    All-append Real line (b'\r' ∷ b'\n' ∷ rest) real (omega arith, (omega arith, k))

c_str_request :
    (m : ℕ) (ms rest : Bytes) (n depth : ℕ)
    → All IsText (render_line (m ∷ ms) rest)
    → c_str (render_request (m ∷ ms) rest n depth) ≡ render_request (m ∷ ms) rest n depth
c_str_request m ms rest n depth text =
    let in_length = IsText-print_number (codes "Content-Length: ") n (omega arith) in
    let in_depth = IsText-print_number (codes "Depth: ") depth (omega arith) in
    let tail = no_nul (render_depth depth) line_end in_depth (omega arith, (omega arith, tt)) in
    c_str_whole (render_request (m ∷ ms) rest n depth)
      (no_nul (render_line (m ∷ ms) rest) _ text (no_nul (render_length n) _ in_length tail))

-- A request with a method of one to 15 bytes, none of them a blank or a control character, a path
-- whose bytes after the '/' are not NUL and whose escapes fit in the path's buffer, and a length
-- and a depth below 2^32 is parsed to what it was rendered from.
pub parse_request-render_request :
    (m : ℕ) (ms rest : Bytes) (n depth : ℕ)
    → All IsDark (m ∷ ms)
    → length (m ∷ ms) < method_size
    → All (λ c. (0 < c) × (c < 256)) rest
    → 3 * length rest + 1 < path_size
    → n < 2 ^ 32
    → depth < 2 ^ 32
    → parse_request (render_request (m ∷ ms) rest n depth)
      ≡ some (record { method = m ∷ ms; path = b'/' ∷ rest; content_length = n; depth = depth })
unfolding parse_request parse_request_lines read_headers request_of
parse_request-render_request m ms rest n depth dark short bytes room small small_depth =
    let ascii = All-weaken _ (λ c. c < 256) rest (λ c h. h.1) bytes in
    let text = IsText-render_line (m ∷ ms) rest dark ascii in
    let whole = c_str_request m ms rest n depth text in
    let lines = lines_of m ms rest n depth text in
    let line =
      ap request_line (words_of_line m ms rest dark ascii)
      ∙ request_line-words m ms rest short room bytes in
    ap (λ t. parse_request_lines (tokens is_line_end t)) whole
    ∙ (ap parse_request_lines lines
        ∙ (ap
              (λ (r : Option Request).
                Option.map
                  (λ (r : Request). read_headers r (render_length n ∷ render_depth depth ∷ [])) r)
              line
            ∙ (ap (λ (r : Request). some (read_header r (render_depth depth)))
                  (length_read (request_of (m ∷ ms) rest 0 1) n small)
                ∙ ap some (depth_read _ depth small_depth))))
