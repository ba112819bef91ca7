-- ===== src/WebDav/Request/Rendered.antt =====
-- A request as a client sends it, and the bytes it is made of.
use rapi_bootloader.Base.{
  ℕ, ◌*◌, ◌/◌, ◌%◌, ◌≤◌, ◌<◌, ◌≡◌, refl, ap, ◌∙◌, ◌≢◌, false, List, [], ◌∷◌, ◌++◌, arith, ◌==◌,
  length, take, All, All-append, Bytes, codes,
}
use rapi_bootloader.BootMenu.{c_str}
use rapi_bootloader.TextScan.{index_of}
use rapi_bootloader.WebDav.Escapes.{percent_encode, hex_digit, url_decode-percent_encode}
use rapi_bootloader.WebDav.Request.{without_query}
use rapi_bootloader.WebDav.Request.Decimal.{print_number, IsDigit, All-print_digits}
use rapi_bootloader.WebDav.{url_decode}

pub All-weaken {ℓ} :
    {A : Type ℓ} (P Q : A → Type 0) (xs : List A) → ((x : A) → P x → Q x) → All P xs → All Q xs
All-weaken P Q [] h k = tt
All-weaken P Q (x ∷ xs) h k = (h x k.0, All-weaken P Q xs h k.1)

-- A byte of a word of the request line: neither a blank nor an end of line nor a NUL.
abbrev pub IsDark : ℕ → Type 0
IsDark c = b' ' < c

-- The path after its '/', in percent escapes.
abbrev pub render_uri : Bytes → Bytes
render_uri rest = b'/' ∷ percent_encode rest

abbrev pub version : Bytes
version = codes "HTTP/1.1"

abbrev pub render_line : Bytes → Bytes → Bytes
render_line method rest = method ++ b' ' ∷ (render_uri rest ++ b' ' ∷ version)

abbrev pub render_length : ℕ → Bytes
render_length n = codes "Content-Length: " ++ print_number n

abbrev pub render_depth : ℕ → Bytes
render_depth n = codes "Depth: " ++ print_number n

abbrev pub line_end : Bytes
line_end = b'\r' ∷ b'\n' ∷ []

-- The header block, with the blank line that ends it.
abbrev pub render_request : Bytes → Bytes → ℕ → ℕ → Bytes
render_request method rest content_length depth =
    render_line method rest
    ++ b'\r'
      ∷ b'\n'
      ∷ (render_length content_length
          ++ b'\r' ∷ b'\n' ∷ (render_depth depth ++ b'\r' ∷ b'\n' ∷ line_end))

-- A byte of an escaped path: it ends neither a word nor a line nor a path.
abbrev pub IsUrl : ℕ → Type 0
IsUrl c = IsDark c × (c ≢ b'?')

pub hex_digit-IsUrl : (n : ℕ) → n < 16 → IsUrl (hex_digit n)
hex_digit-IsUrl n h = (ground arith, λ e. ground (arith, e))

pub All-percent_encode : (s : Bytes) → All (λ c. c < 256) s → All IsUrl (percent_encode s)
unfolding percent_encode
All-percent_encode [] h = tt
All-percent_encode (c ∷ cs) h = (
  (omega arith, λ e. omega (arith, e)),
  (
    hex_digit-IsUrl (c / 16) (omega (arith, h.0)),
    (hex_digit-IsUrl (c % 16) (omega arith), All-percent_encode cs h.1),
  ),
)

pub All-render_uri : (s : Bytes) → All (λ c. c < 256) s → All IsUrl (render_uri s)
All-render_uri s h = ((omega arith, λ e. omega (arith, e)), All-percent_encode s h)

pub length-percent_encode : (s : Bytes) → length (percent_encode s) ≡ 3 * length s
unfolding percent_encode
length-percent_encode [] = refl
length-percent_encode (c ∷ cs) = omega (arith, length-percent_encode cs)

pub index_of_lacking : (s : Bytes) → All IsUrl s → index_of b'?' s ≡ length s
unfolding index_of
index_of_lacking [] h = refl
index_of_lacking (c ∷ cs) h = ground (arith, h.0, index_of_lacking cs h.1)

pub take_whole : (s : Bytes) → take (length s) s ≡ s
take_whole [] = refl
take_whole (c ∷ cs) = ap (λ r. c ∷ r) (take_whole cs)

pub without_query_url : (s : Bytes) → All IsUrl s → without_query s ≡ s
unfolding without_query
without_query_url s h = ap (λ n. take n s) (index_of_lacking s h) ∙ take_whole s

pub c_str_whole : (s : Bytes) → All (λ c. 0 < c) s → c_str s ≡ s
unfolding c_str
c_str_whole [] h = refl
c_str_whole (c ∷ cs) h =
    let real : (c == 0) ≡ false = ground (arith, h.0) in
    rw real (ap (λ r. c ∷ r) (c_str_whole cs h.1))

-- An '/' before the escapes is no escape.
pub url_decode_slash : (s : Bytes) → url_decode (b'/' ∷ s) ≡ b'/' ∷ url_decode s
unfolding url_decode
url_decode_slash [] = refl
url_decode_slash (c ∷ []) = refl
url_decode_slash (c ∷ d ∷ s) = refl

pub url_decode-render_uri :
    (s : Bytes) → All (λ c. c < 256) s → url_decode (render_uri s) ≡ b'/' ∷ s
url_decode-render_uri s h =
    url_decode_slash (percent_encode s) ∙ ap (λ r. b'/' ∷ r) (url_decode-percent_encode s h)

-- The bytes of a line: no end of line, and no NUL.
abbrev pub IsText : ℕ → Type 0
IsText c = b' ' ≤ c

pub IsText-render_line :
    (method rest : Bytes)
    → All IsDark method
    → All (λ c. c < 256) rest
    → All IsText (render_line method rest)
IsText-render_line method rest dark bytes =
    let uri =
      All-weaken IsUrl IsText (render_uri rest) (λ c h. omega (arith, h.0))
        (All-render_uri rest bytes) in
    let words = All-append IsText (render_uri rest) (b' ' ∷ version) uri (omega arith) in
    All-append IsText method _ (All-weaken IsDark IsText method (λ c h. omega (arith, h)) dark)
      (omega arith, words)

pub IsText-print_number :
    (name : Bytes) (n : ℕ) → All IsText name → All IsText (name ++ print_number n)
IsText-print_number name n h =
    All-append IsText name (print_number n) h (
      All-weaken IsDigit IsText (print_number n) (λ c d. omega (arith, d.0)) (All-print_digits n n))
