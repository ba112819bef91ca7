-- ===== src/TextScan/Laws.antt =====
-- Trimming, and splitting at a separator.
use rapi_bootloader.Base.{
  ℕ, zero, suc, ◌+◌, ◌≤◌, ◌≡◌, refl, ap, ◌∙◌, ◌≢◌, inl, inr, Bool, true, false, ◌&&◌, List, [], ◌∷◌,
  ◌++◌, arith, ◌==◌, if◌then◌else◌, Bool-cases, length, get_or, take, drop, All, Bytes, nul,
}
use rapi_bootloader.TextScan.{is_space, trim_start, trimmed_length, trim_end, index_of}

abbrev pub is_empty {ℓ} : {A : Type ℓ} → List A → Bool
is_empty [] = true
is_empty (x ∷ xs) = false

trimmed_length_cons :
    (c : ℕ) (cs : Bytes) (n : ℕ)
    → trimmed_length (c ∷ cs) (suc n) ≡ (
        if trimmed_length cs n == 0
        then (if is_space c then 0 else 1)
        else suc (trimmed_length cs n))
unfolding trimmed_length
trimmed_length_cons c cs zero = refl
trimmed_length_cons c cs (suc n) = elim (Bool-cases (is_space (get_or cs n nul))) [
  | inl white ↦ rw white (trimmed_length_cons c cs n)
  | inr dark ↦ rw dark (ground arith)
]

trimmed_length-le : (s : Bytes) (n : ℕ) → trimmed_length s n ≤ n
unfolding trimmed_length
trimmed_length-le s zero = omega arith
trimmed_length-le s (suc n) = elim (Bool-cases (is_space (get_or s n nul))) [
  | inl white ↦ rw white (omega (arith, trimmed_length-le s n))
  | inr dark ↦ rw dark (omega arith)
]

take_cons :
    (white : Bool) (c : ℕ) (cs : Bytes) (n : ℕ)
    → n ≤ length cs
    → take (if n == 0 then (if white then 0 else 1) else suc n) (c ∷ cs)
      ≡ (if is_empty (take n cs) && white then [] else c ∷ take n cs)
take_cons true c cs zero h = refl
take_cons false c cs zero h = refl
take_cons white c [] (suc n) h = absurd (omega arith)
take_cons white c (x ∷ cs) (suc n) h = ground arith

-- `trim_end` from the front.
pub trim_end_cons :
    (c : ℕ) (cs : Bytes)
    → trim_end (c ∷ cs) ≡ (if is_empty (trim_end cs) && is_space c then [] else c ∷ trim_end cs)
unfolding trim_end
trim_end_cons c cs =
    rw (trimmed_length_cons c cs (length cs)) (
      take_cons (is_space c) c cs (trimmed_length cs (length cs))
        (trimmed_length-le cs (length cs)))

-- Trimming leaves a text alone.
pub record IsTrimmed (s : Bytes) : Type 0 where
  pub no_start : trim_start s ≡ s
  pub no_end : trim_end s ≡ s

pub length-trim_start : (s : Bytes) → length (trim_start s) ≤ length s
unfolding trim_start
length-trim_start [] = omega arith
length-trim_start (c ∷ s) = elim (Bool-cases (is_space c)) [
  | inl white ↦ rw white (omega (arith, length-trim_start s))
  | inr dark ↦ rw dark (omega arith)
]

pub trim_start-append :
    (s : Bytes) (c : ℕ) (t : Bytes)
    → trim_start s ≡ s
    → is_space c ≡ false
    → trim_start (s ++ c ∷ t) ≡ s ++ c ∷ t
unfolding trim_start
trim_start-append [] c t h k = rw (k, trim_start)
trim_start-append (x ∷ s) c t h k = elim (Bool-cases (is_space x)) [
  | inl white ↦
      let shorter : trim_start s ≡ x ∷ s = rw (white, trim_start) at h in
      absurd (omega (arith, ap length shorter, length-trim_start s))
  | inr dark ↦ rw dark
]

is_empty-append {ℓ} : {A : Type ℓ} (s t : List A) (x : A) → is_empty (s ++ x ∷ t) ≡ false
is_empty-append [] t x = refl
is_empty-append (y ∷ s) t x = refl

pub trim_end-append :
    (s : Bytes) (c : ℕ) (t : Bytes)
    → is_space c ≡ false
    → trim_end t ≡ t
    → trim_end (s ++ c ∷ t) ≡ s ++ c ∷ t
trim_end-append [] c t k h = rw (trim_end_cons c t, h, k) (and_false (is_empty t))
  where
    and_false : (b : Bool) → (if b && false then [] else c ∷ t) ≡ c ∷ t
    and_false true = refl
    and_false false = refl
trim_end-append (x ∷ s) c t k h =
    rw (trim_end_cons x (s ++ c ∷ t), trim_end-append s c t k h, is_empty-append s t c)

-- No byte of the text is `c`.
abbrev pub Lacks : ℕ → Bytes → Type 0
Lacks c = All (λ b. b ≢ c)

pub index_of-append : (c : ℕ) (s t : Bytes) → Lacks c s → index_of c (s ++ c ∷ t) ≡ length s
unfolding index_of
index_of-append c [] t h = ground arith
index_of-append c (x ∷ s) t h = ground (arith, index_of-append c s t h.1)

pub take_append {ℓ} : {A : Type ℓ} (s t : List A) → take (length s) (s ++ t) ≡ s
take_append [] t = refl
take_append (x ∷ s) t = ap (◌∷◌ x) (take_append s t)

pub drop_append {ℓ} : {A : Type ℓ} (s t : List A) (x : A) → drop (length s + 1) (s ++ x ∷ t) ≡ t
drop_append {A} s t x = let e : length s + 1 ≡ suc (length s) = omega arith in rw e (go s)
  where
    go : (r : List A) → drop (suc (length r)) (r ++ x ∷ t) ≡ t
    go [] = refl
    go (y ∷ r) = go r

abbrev pub IsWhite : Bytes → Type 0
IsWhite = All (λ c. is_space c ≡ true)

abbrev pub IsDark : Bytes → Type 0
IsDark = All (λ c. is_space c ≡ false)

pub IsTrimmed-IsDark : (s : Bytes) → IsDark s → IsTrimmed s
unfolding trim_start
IsTrimmed-IsDark [] h = record { no_start = refl; no_end = unfold trim_end in refl }
IsTrimmed-IsDark (c ∷ cs) h = record {
  no_start = rw (h.0, trim_start);
  no_end = rw (trim_end_cons c cs, (IsTrimmed-IsDark cs h.1).no_end, h.0) (ground arith);
}

trim_start_white : (w t : Bytes) → IsWhite w → trim_start (w ++ t) ≡ trim_start t
unfolding trim_start
trim_start_white [] t h = refl
trim_start_white (c ∷ w) t h = rw (h.0, trim_start) (trim_start_white w t h.1)

trim_end_white : (w : Bytes) → IsWhite w → trim_end w ≡ []
trim_end_white [] h = unfold trim_end in refl
trim_end_white (c ∷ w) h = rw (trim_end_cons c w, trim_end_white w h.1, h.0)

trim_end-append_white : (t w : Bytes) → IsWhite w → trim_end (t ++ w) ≡ trim_end t
trim_end-append_white [] w h = unfold trim_end in trim_end_white w h
trim_end-append_white (x ∷ t) w h =
    rw (trim_end_cons x (t ++ w), trim_end_cons x t, trim_end-append_white t w h)

-- White space around a text is taken off, where the text has none at its ends.
pub trim_around :
    (before : Bytes) (c : ℕ) (cs after : Bytes)
    → IsWhite before
    → IsWhite after
    → is_space c ≡ false
    → trim_end (c ∷ cs) ≡ c ∷ cs
    → trim_end (trim_start (before ++ (c ∷ cs ++ after))) ≡ c ∷ cs
unfolding trim_start
trim_around before c cs after b a dark no_end =
    rw (trim_start_white before (c ∷ (cs ++ after)) b)
      (rw (dark, trim_start) (trim_end-append_white (c ∷ cs) after a ∙ no_end))

pub trim_around_dark :
    (before t after : Bytes)
    → IsWhite before
    → IsWhite after
    → IsDark t
    → t ≢ []
    → trim_end (trim_start (before ++ (t ++ after))) ≡ t
trim_around_dark before [] after b a d ne = absurd (ne refl)
trim_around_dark before (c ∷ cs) after b a d ne =
    trim_around before c cs after b a d.0 (IsTrimmed-IsDark (c ∷ cs) d).no_end
