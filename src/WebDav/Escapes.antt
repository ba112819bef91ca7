-- ===== src/WebDav/Escapes.antt =====
-- Percent escapes and XML escapes.
use rapi_bootloader.Base.{
  ℕ, ◌+◌, ◌-◌, ◌*◌, ◌/◌, ◌%◌, ◌<◌, ◌≡◌, refl, ap, ◌∙◌, ◌⊎◌, inl, inr, Bool, true, false, ◌&&◌, [],
  ◌∷◌, ◌++◌, arith, ltb, ◌==◌, if◌then◌else◌, Bool-cases, All, All-append, Bytes,
}
use rapi_bootloader.TextScan.Laws.{Lacks}
use rapi_bootloader.WebDav.{is_hex_digit, hex_value, url_decode, xml_char, xml_escaped}

abbrev pub hex_digit : ℕ → ℕ
hex_digit n = if ltb n 10 then b'0' + n else b'A' + (n - 10)

-- Every byte as an escape.
unfoldable pub percent_encode : Bytes → Bytes
percent_encode [] = []
percent_encode (c ∷ cs) = b'%' ∷ hex_digit (c / 16) ∷ hex_digit (c % 16) ∷ percent_encode cs

is_hex_digit-hex_digit : (n : ℕ) → n < 16 → is_hex_digit (hex_digit n) ≡ true
unfolding is_hex_digit
is_hex_digit-hex_digit n h = ground arith

hex_value-hex_digit : (n : ℕ) → n < 16 → hex_value (hex_digit n) ≡ n
unfolding hex_value
hex_value-hex_digit n h = ground arith

url_decode_hex :
    (h l : ℕ) (rest : Bytes)
    → is_hex_digit h ≡ true
    → is_hex_digit l ≡ true
    → url_decode (b'%' ∷ h ∷ l ∷ rest) ≡ (hex_value h * 16 + hex_value l) % 256 ∷ url_decode rest
unfolding url_decode
url_decode_hex h l rest a b =
    let escape : (is_hex_digit h && is_hex_digit l) ≡ true = ground (arith, a, b) in
    ap
      (λ (b : Bool). elim b as (λ x. Bytes) [
        | true ↦ (hex_value h * 16 + hex_value l) % 256 ∷ url_decode rest
        | false ↦ b'%' ∷ url_decode (h ∷ l ∷ rest)
      ])
      escape

url_decode_escape :
    (h l : ℕ) (rest : Bytes)
    → h < 16
    → l < 16
    → url_decode (b'%' ∷ hex_digit h ∷ hex_digit l ∷ rest) ≡ (h * 16 + l) ∷ url_decode rest
url_decode_escape h l rest a b =
    let value : (hex_value (hex_digit h) * 16 + hex_value (hex_digit l)) % 256 ≡ h * 16 + l =
      omega (arith, hex_value-hex_digit h a, hex_value-hex_digit l b) in
    url_decode_hex (hex_digit h) (hex_digit l) rest (is_hex_digit-hex_digit h a)
      (is_hex_digit-hex_digit l b)
    ∙ ap (λ n. n ∷ url_decode rest) value

url_decode_nil : url_decode [] ≡ []
unfolding url_decode
url_decode_nil = refl

-- Bytes that are sent as percent escapes, every one of them, are decoded to what they were.
pub url_decode-percent_encode :
    (s : Bytes) → All (λ c. c < 256) s → url_decode (percent_encode s) ≡ s
unfolding percent_encode
url_decode-percent_encode [] h = url_decode_nil
url_decode-percent_encode (c ∷ cs) h =
    let whole : c / 16 * 16 + c % 16 ≡ c = omega arith in
    url_decode_escape (c / 16) (c % 16) (percent_encode cs) (omega (arith, h.0)) (omega arith)
    ∙ ap (λ n. n ∷ url_decode (percent_encode cs)) whole
    ∙ ap (λ r. c ∷ r) (url_decode-percent_encode cs h.1)

Lacks-append : (c : ℕ) (s t : Bytes) → Lacks c s → Lacks c t → Lacks c (s ++ t)
Lacks-append c s t a b = All-append _ s t a b

-- The bytes that end a text or an attribute in XML.
abbrev pub IsMarkup : ℕ → Type 0
IsMarkup c = (c ≡ b'<') ⊎ ((c ≡ b'>') ⊎ (c ≡ b'"'))

Lacks-xml_char : (m c : ℕ) → IsMarkup m → Lacks m (xml_char c)
Lacks-xml_char m c h = elim (Bool-cases (c == b'&')) [
  | inl e ↦ rw e (ground (arith, h))
  | inr amp ↦ elim (Bool-cases (c == b'<')) [
    | inl e ↦ rw (amp, e) (ground (arith, h))
    | inr lt ↦ elim (Bool-cases (c == b'>')) [
      | inl e ↦ rw (amp, lt, e) (ground (arith, h))
      | inr gt ↦ elim (Bool-cases (c == b'"')) [
        | inl e ↦ rw (amp, lt, gt, e) (ground (arith, h))
        | inr quote ↦ rw (amp, lt, gt, quote) (ground (arith, h, lt, gt, quote))
      ]
    ]
  ]
]

-- An escaped name holds no '<', no '>' and no quote, so it cannot open or close an element or end an
-- attribute of the listing.
pub Lacks-xml_escaped : (m : ℕ) (s : Bytes) → IsMarkup m → Lacks m (xml_escaped s)
unfolding xml_escaped
Lacks-xml_escaped m [] h = tt
Lacks-xml_escaped m (c ∷ cs) h =
    Lacks-append m (xml_char c) (xml_escaped cs) (Lacks-xml_char m c h) (Lacks-xml_escaped m cs h)
