-- ===== src/Ints.antt =====
-- Signed integers over the native numbers, for the program's `int` counters.
use rapi_bootloader.Base.{
  ℕ, zero, suc, ◌+◌, ◌-◌, ◌*◌, ◌≡◌, refl, ◌⊎◌, inl, inr, Bool, true, false, arith, leb, ◌==◌,
  if◌then◌else◌,
}

pub data ℤ : Type 0 where
  pos negsuc : ℕ → ℤ

-- The difference of two numbers.
abbrev pub diff : ℕ → ℕ → ℤ
diff a b = if leb b a then pos (a - b) else negsuc (b - a - 1)

infixl 20 ◌+ℤ◌
abbrev pub ◌+ℤ◌ : ℤ → ℤ → ℤ
pos a +ℤ pos b = pos (a + b)
pos a +ℤ negsuc b = diff a (b + 1)
negsuc a +ℤ pos b = diff b (a + 1)
negsuc a +ℤ negsuc b = negsuc (a + b + 1)

abbrev pub scale : ℤ → ℕ → ℤ
scale (pos a) n = pos (a * n)
scale (negsuc a) n = diff 0 ((a + 1) * n)

abbrev pub is_zero : ℤ → Bool
is_zero (pos a) = a == 0
is_zero (negsuc a) = false

abbrev pub is_negative : ℤ → Bool
is_negative (pos a) = false
is_negative (negsuc a) = true

-- The number, with 0 for what is negative.
abbrev pub at_least_zero : ℤ → ℕ
at_least_zero (pos a) = a
at_least_zero (negsuc a) = 0

pub zero_cases : (z : ℤ) → (z ≡ pos 0) ⊎ (is_zero z ≡ false)
zero_cases (pos zero) = inl refl
zero_cases (pos (suc a)) = inr (ground arith)
zero_cases (negsuc a) = inr refl
