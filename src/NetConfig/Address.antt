-- ===== src/NetConfig/Address.antt =====
-- Dotted-quad addresses: what ParseAddress accepts, and what it leaves behind when it refuses.
use mathlib.Core.List.{append-nil}
use rapi_bootloader.TextScan.{is_space}
use rapi_bootloader.TextScan.Laws.{IsWhite, IsDark, trim_around_dark}
use rapi_bootloader.Base.{
  ℕ, suc, ◌+◌, ◌-◌, ◌*◌, ◌/◌, ◌%◌, ◌<◌, ◌≡◌, refl, ap, ◌∙◌, ◌≢◌, inl, inr, true, false, some, [],
  ◌∷◌, ◌++◌, arith, ltb, if◌then◌else◌, Bool-cases, All-append, Bytes, set,
}
use rapi_bootloader.NetConfig.{Address, parse_digits, starts_digit, parse_address, parse_octets}

-- An octet in decimal.
unfoldable pub print_octet : ℕ → Bytes
print_octet n =
    if ltb n 10
    then (b'0' + n) ∷ []
    else if ltb n 100
    then (b'0' + n / 10) ∷ (b'0' + n % 10) ∷ []
    else (b'0' + n / 100) ∷ (b'0' + n / 10 % 10) ∷ (b'0' + n % 10) ∷ []

parse_digits_stop :
    (value digits : ℕ) (rest : Bytes)
    → starts_digit rest ≡ false
    → parse_digits value digits rest ≡ some (value, rest)
unfolding parse_digits starts_digit
parse_digits_stop value digits [] h = refl
parse_digits_stop value digits (c ∷ cs) h = ground arith

parse_digits_step :
    (value digits n : ℕ) (cs : Bytes)
    → n < 10
    → digits < 3
    → value * 10 + n < 256
    → parse_digits value digits ((b'0' + n) ∷ cs) ≡ parse_digits (value * 10 + n) (digits + 1) cs
unfolding parse_digits
parse_digits_step value digits n cs h k l =
    let e : b'0' + n - b'0' ≡ n = omega arith in rw e (ground arith)

parse_digits-print_octet :
    (n : ℕ) (rest : Bytes)
    → n < 256
    → starts_digit rest ≡ false
    → parse_digits 0 0 (print_octet n ++ rest) ≡ some (n, rest)
unfolding print_octet
parse_digits-print_octet n rest h stop = elim (Bool-cases (ltb n 10)) [
  | inl one ↦ rw one (
      parse_digits_step 0 0 n rest (ground arith) (omega arith) (omega arith)
      ∙ parse_digits_stop _ _ rest stop
      ∙ ap (λ (v : ℕ). some (v, rest)) (omega arith))
  | inr more ↦ elim (Bool-cases (ltb n 100)) [
    | inl two ↦
        rw (more, two)
          (parse_digits_step 0 0 (n / 10) ((b'0' + n % 10) ∷ rest) (ground arith) (omega arith)
              (ground arith)
            ∙ parse_digits_step _ _ (n % 10) rest (omega arith) (omega arith) (ground arith)
            ∙ parse_digits_stop _ _ rest stop
            ∙ ap (λ (v : ℕ). some (v, rest)) (omega arith))
    | inr three ↦
        rw (more, three)
          (parse_digits_step 0 0 (n / 100) ((b'0' + n / 10 % 10) ∷ (b'0' + n % 10) ∷ rest)
              (omega arith) (omega arith) (omega arith)
            ∙ parse_digits_step _ _ (n / 10 % 10) ((b'0' + n % 10) ∷ rest) (omega arith)
                (omega arith) (omega arith)
            ∙ parse_digits_step _ _ (n % 10) rest (omega arith) (omega arith) (omega arith)
            ∙ parse_digits_stop _ _ rest stop
            ∙ ap (λ (v : ℕ). some (v, rest)) (omega arith))
  ]
]

starts_digit-print_octet :
    (n : ℕ) (rest : Bytes) → n < 256 → starts_digit (print_octet n ++ rest) ≡ true
unfolding print_octet starts_digit
starts_digit-print_octet n rest h = ground arith

-- One octet and its dot.
parse_octets_dot :
    (left octet n : ℕ) (more : Bytes) (old : Address)
    → n < 256
    → parse_octets (suc (suc left)) octet (print_octet n ++ b'.' ∷ more) old
      ≡ parse_octets (suc left) (octet + 1) more (set old octet n)
unfolding parse_octets
parse_octets_dot left octet n more old h =
    rw (starts_digit-print_octet n (b'.' ∷ more) h, parse_digits-print_octet n (b'.' ∷ more) h refl)
      (ground arith)

-- The text of an address.
abbrev pub print_address : ℕ → ℕ → ℕ → ℕ → Bytes
print_address a b c d =
    print_octet a ++ b'.' ∷ (print_octet b ++ b'.' ∷ (print_octet c ++ b'.' ∷ print_octet d))

parse_octets_last :
    (octet n : ℕ) (old : Address)
    → n < 256
    → parse_octets 1 octet (print_octet n) old ≡ (set old octet n, true)
unfolding parse_octets
parse_octets_last octet n old h =
    let e = append-nil (print_octet n) in
    let starts = starts_digit-print_octet n [] h in
    let digits = parse_digits-print_octet n [] h refl in
    rw (rw e at starts, rw e at digits) (ground arith)

-- The octets, and then the text that follows the third dot.
parse_octets_three :
    (a b c : ℕ) (rest : Bytes) (old : Address)
    → a < 256
    → b < 256
    → c < 256
    → parse_octets 4 0
        (print_octet a ++ b'.' ∷ (print_octet b ++ b'.' ∷ (print_octet c ++ b'.' ∷ rest)))
        old
      ≡ parse_octets 1 3 rest (set (set (set old 0 a) 1 b) 2 c)
parse_octets_three a b c rest old ha hb hc =
    parse_octets_dot 2 0 a _ old ha
    ∙ parse_octets_dot 1 1 b _ (set old 0 a) hb
    ∙ parse_octets_dot 0 2 c rest (set (set old 0 a) 1 b) hc

pub IsDark-print_octet : (n : ℕ) → n < 256 → IsDark (print_octet n)
unfolding print_octet is_space
IsDark-print_octet n h = ground arith

pub print_octet-ne-nil : (n : ℕ) (rest : Bytes) → print_octet n ++ rest ≢ []
unfolding print_octet
print_octet-ne-nil n rest e = ground arith

dot_dark : is_space b'.' ≡ false
unfolding is_space
dot_dark = refl

pub IsDark-dotted :
    (n : ℕ) (rest : Bytes) → n < 256 → IsDark rest → IsDark (print_octet n ++ b'.' ∷ rest)
IsDark-dotted n rest h k =
    All-append (λ c. is_space c ≡ false) (print_octet n) (b'.' ∷ rest) (IsDark-print_octet n h)
      (dot_dark, k)

module _ (a b c : ℕ) (ha : a < 256) (hb : b < 256) (hc : c < 256) (before after : Bytes)
    (white : IsWhite before) (white' : IsWhite after) (o0 o1 o2 o3 : ℕ) where
  -- A dotted quad of four numbers below 256, with any white space around it, is accepted and gives
  -- those four numbers, whatever the array held.
  pub parse_address-print_address :
      (d : ℕ)
      → d < 256
      → parse_address (before ++ (print_address a b c d ++ after)) (o0 ∷ o1 ∷ o2 ∷ o3 ∷ [])
        ≡ (a ∷ b ∷ c ∷ d ∷ [], true)
  unfolding parse_address
  parse_address-print_address d hd =
      let dark =
        IsDark-dotted a _ ha
          (IsDark-dotted b _ hb (IsDark-dotted c _ hc (IsDark-print_octet d hd))) in
      rw
        (trim_around_dark before (print_address a b c d) after white white' dark
          (print_octet-ne-nil a _))
        (parse_octets_three a b c (print_octet d) (o0 ∷ o1 ∷ o2 ∷ o3 ∷ []) ha hb hc
          ∙ parse_octets_last 3 d (a ∷ b ∷ c ∷ o3 ∷ []) hd)

  -- An address of three numbers below 256, each with its dot, and no fourth, with any white space
  -- around it, is refused, but the three numbers have replaced the first three in the array.
  pub parse_address_short :
      parse_address
        (before
          ++ ((print_octet a ++ b'.' ∷ (print_octet b ++ b'.' ∷ (print_octet c ++ b'.' ∷ [])))
              ++ after))
        (o0 ∷ o1 ∷ o2 ∷ o3 ∷ [])
      ≡ (a ∷ b ∷ c ∷ o3 ∷ [], false)
  unfolding parse_address
  parse_address_short =
      let dark = IsDark-dotted a _ ha (IsDark-dotted b _ hb (IsDark-dotted c [] hc tt)) in
      rw (trim_around_dark before _ after white white' dark (print_octet-ne-nil a _))
        (parse_octets_three a b c [] (o0 ∷ o1 ∷ o2 ∷ o3 ∷ []) ha hb hc ∙ no_digits)
    where
      no_digits : parse_octets 1 3 [] (a ∷ b ∷ c ∷ o3 ∷ []) ≡ (a ∷ b ∷ c ∷ o3 ∷ [], false)
      no_digits = unfold parse_octets in refl
