-- ===== src/WebDav/Request/Decimal.antt =====
-- Numbers in decimal, and what the server's `(unsigned) atoi` makes of them.
use rapi_bootloader.Base.{
  ℕ, zero, suc, ◌+◌, ◌-◌, ◌*◌, ◌/◌, ◌%◌, ◌^◌, ◌≤◌, ◌<◌, ◌≡◌, refl, sym, ap, ◌∙◌, inl, inr, true,
  false, ◌&&◌, ◌||◌, [], ◌∷◌, ◌++◌, arith, ltb, leb, ◌==◌, if◌then◌else◌, Bool-cases, All,
  All-append, Bytes,
}
use rapi_bootloader.WebDav.{skip_spaces}
use rapi_bootloader.WebDav.Request.{digits_value, signed_value, skip_white, unsigned_atoi}

-- The digits of a number, on fuel.
unfoldable pub print_digits : ℕ → ℕ → Bytes
print_digits zero n = (b'0' + n % 10) ∷ []
print_digits (suc fuel) n =
    let front = print_digits fuel (n / 10) in
    if ltb n 10 then (b'0' + n) ∷ [] else front ++ (b'0' + n % 10) ∷ []

-- The number has fewer digits than it counts.
abbrev pub print_number : ℕ → Bytes
print_number n = print_digits n n

abbrev pub IsDigit : ℕ → Type 0
IsDigit c = (b'0' ≤ c) × (c ≤ b'9')

pub All-print_digits : (fuel n : ℕ) → All IsDigit (print_digits fuel n)
unfolding print_digits
All-print_digits zero n = ((omega arith, omega arith), tt)
All-print_digits (suc fuel) n = elim (Bool-cases (ltb n 10)) [
  | inl one ↦ rw one ((omega arith, ground (arith, one)), tt)
  | inr more ↦ rw more (
      All-append IsDigit (print_digits fuel (n / 10)) ((b'0' + n % 10) ∷ [])
        (All-print_digits fuel (n / 10)) ((omega arith, omega arith), tt))
]

digits_value_step :
    (k c : ℕ) (cs : Bytes)
    → IsDigit c
    → digits_value k (c ∷ cs) ≡ digits_value (k * 10 + (c - b'0')) cs
unfolding digits_value
digits_value_step k c cs h =
    let lo : leb b'0' c ≡ true = ground (arith, h.0) in
    let hi : leb c b'9' ≡ true = ground (arith, h.1) in rw (lo, hi) refl

digits_value-append :
    (k d : ℕ) (xs : Bytes)
    → All IsDigit xs
    → d < 10
    → digits_value k (xs ++ (b'0' + d) ∷ []) ≡ digits_value k xs * 10 + d
unfolding digits_value
digits_value-append k d [] h small =
    let digit : k * 10 + (b'0' + d - b'0') ≡ k * 10 + d = omega arith in
    digits_value_step k (b'0' + d) [] (omega arith, omega (arith, small)) ∙ digit
digits_value-append k d (x ∷ xs) h small =
    digits_value_step k x (xs ++ (b'0' + d) ∷ []) h.0
    ∙ (digits_value-append (k * 10 + (x - b'0')) d xs h.1 small
        ∙ ap (λ n. n * 10 + d) (sym (digits_value_step k x xs h.0)))

digits_value-print_digits : (fuel n : ℕ) → n ≤ fuel → digits_value 0 (print_digits fuel n) ≡ n
unfolding print_digits digits_value
digits_value-print_digits zero n h = ground (arith, h)
digits_value-print_digits (suc fuel) n h = elim (Bool-cases (ltb n 10)) [
  | inl one ↦
      rw one (digits_value_step 0 (b'0' + n) [] (omega arith, ground (arith, one)) ∙ omega arith)
  | inr more ↦
      let rest = digits_value-print_digits fuel (n / 10) (ground (arith, h, more)) in
      rw more (
        digits_value-append 0 (n % 10) (print_digits fuel (n / 10)) (All-print_digits fuel (n / 10))
          (omega arith)
        ∙ omega (arith, rest))
]

skip_white_digit :
    (c : ℕ) (cs : Bytes)
    → (c == b' ' || (leb 9 c && leb c 13)) ≡ false
    → skip_white (c ∷ cs) ≡ c ∷ cs
unfolding skip_white
skip_white_digit c cs dark = rw dark refl

signed_value_digit :
    (c : ℕ) (cs : Bytes)
    → (c == b'-') ≡ false
    → (c == b'+') ≡ false
    → signed_value (c ∷ cs) ≡ digits_value 0 (c ∷ cs) % 2 ^ 32
unfolding signed_value
signed_value_digit c cs unsigned no_plus = rw (unsigned, no_plus) refl

unsigned_atoi_digits : (xs : Bytes) → All IsDigit xs → unsigned_atoi xs ≡ digits_value 0 xs % 2 ^ 32
unfolding unsigned_atoi skip_white signed_value digits_value
unsigned_atoi_digits [] h = refl
unsigned_atoi_digits (c ∷ cs) h =
    let dark : (c == b' ' || (leb 9 c && leb c 13)) ≡ false = ground (arith, h.0) in
    let unsigned : (c == b'-') ≡ false = ground (arith, h.0) in
    let no_plus : (c == b'+') ≡ false = ground (arith, h.0) in
    ap signed_value (skip_white_digit c cs dark) ∙ signed_value_digit c cs unsigned no_plus

pub skip_spaces_digits : (xs : Bytes) → All IsDigit xs → skip_spaces xs ≡ xs
unfolding skip_spaces
skip_spaces_digits [] h = refl
skip_spaces_digits (c ∷ cs) h = ground (arith, h.0)

-- A number below 2^32, printed behind a blank, is read back.
pub unsigned_atoi-print_number :
    (n : ℕ) → n < 2 ^ 32 → unsigned_atoi (skip_spaces (b' ' ∷ print_number n)) ≡ n
unfolding skip_spaces
unsigned_atoi-print_number n small =
    let digits = All-print_digits n n in
    ap unsigned_atoi (skip_spaces_digits (print_number n) digits)
    ∙ (unsigned_atoi_digits (print_number n) digits
        ∙ (ap (λ v. v % 2 ^ 32) (digits_value-print_digits n n (omega arith))
            ∙ omega (arith, small)))
