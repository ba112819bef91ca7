-- ===== src/RapiChainboot/Caches/Sweep.antt =====
-- What the two loops of the stub leave in the memory.
use rapi_bootloader.Base.{
  ℕ, zero, suc, ◌+◌, ◌-◌, ◌*◌, ◌%◌, ◌≤◌, ◌<◌, ◌≡◌, refl, sym, ap, ◌∙◌, subst, ◌⊎◌, inl, inr, arith,
  ltb, Bool-cases,
}
use rapi_bootloader.RapiChainboot.Caches.{Caches, Keeps, IsHome, CacheLaws, sweep, copy_uncached}

next_word : (at j : ℕ) → at + (4 + j) ≡ at + 4 + j
next_word at j = omega arith

module _ (c : Caches) (laws : CacheLaws c) where
  open c use {State, dram, dc_civac, load32, store32}
  open laws use {value, settled}

  abbrev pub Same : State → State → ℕ → Type 0
  Same w w' a = Keeps c value settled w w' a

  abbrev pub Home : State → ℕ → Type 0
  Home w a = IsHome c value settled w a

  pub Same-refl : (w : State) (a : ℕ) → Same w w a
  Same-refl w a = record { same_value = refl; still_settled = λ h. h; still_home = λ h. h }

  pub Same-trans : (u v w : State) (a : ℕ) → Same u v a → Same v w a → Same u w a
  Same-trans u v w a h k = record {
    same_value = k.same_value ∙ h.same_value;
    still_settled = λ s. k.still_settled (h.still_settled s);
    still_home = λ d. k.still_home (h.still_home d);
  }

  pub Home-Same : (w w' : State) (a : ℕ) → Home w a → Same w w' a → Home w' a
  Home-Same w w' a h k = record {
    is_settled = k.still_settled h.is_settled;
    in_dram = k.still_home h.in_dram;
  }

  -- A sweep moves data home and changes none.
  pub sweep-Same : (n at : ℕ) (w : State) (a : ℕ) → Same w (sweep c n at w) a
  unfolding sweep
  sweep-Same zero at w a = Same-refl w a
  sweep-Same (suc n) at w a =
      Same-trans w (dc_civac w at) _ a (laws.civac_keeps w at a)
        (sweep-Same n (at + 64) (dc_civac w at) a)

  -- Every address of the lines that were swept is home.
  pub sweep-Home :
      (n at : ℕ) (w : State) (a : ℕ)
      → at % 64 ≡ 0
      → at ≤ a
      → a < at + 64 * n
      → Home (sweep c n at w) a
  unfolding sweep
  sweep-Home zero at w a aligned lo hi = absurd (omega (arith, lo, hi))
  sweep-Home (suc n) at w a aligned lo hi = elim (Bool-cases (ltb a (at + 64))) [
    | inl here ↦
        Home-Same (dc_civac w at) _ a (laws.civac_homes w at a aligned lo (ground (arith, here)))
          (sweep-Same n (at + 64) (dc_civac w at) a)
    | inr later ↦
        sweep-Home n (at + 64) (dc_civac w at) a (omega (arith, aligned)) (ground (arith, later))
          (omega (arith, hi))
  ]

  -- One word.
  copied : ℕ → ℕ → State → State
  copied source target w = store32 (load32 w source).0 target (load32 w source).1

  copied-Same :
      (source target : ℕ) (w : State) (a : ℕ)
      → (a < target) ⊎ (target + 4 ≤ a)
      → Same w (copied source target w) a
  unfolding copied
  copied-Same source target w a out =
      Same-trans w (load32 w source).0 _ a (laws.load_keeps w source a)
        (laws.store_keeps (load32 w source).0 target (load32 w source).1 a out)

  copied_value :
      (source target : ℕ) (w : State) (i : ℕ)
      → i < 4
      → ((j : ℕ) → j < 4 → settled w (target + j))
      → settled w (source + i)
      → value (copied source target w) (target + i) ≡ value w (source + i)
  unfolding copied
  copied_value source target w i word fresh from =
      laws.store_value (load32 w source).0 target (load32 w source).1 i word
        (λ j h. (laws.load_keeps w source (target + j)).still_settled (fresh j h))
      ∙ laws.load_value w source i word from

  pub copy-Same :
      (n source target : ℕ) (w : State) (a : ℕ)
      → (a < target) ⊎ (target + 4 * n ≤ a)
      → Same w (copy_uncached c n source target w) a
  unfolding copy_uncached copied
  copy-Same zero source target w a out = Same-refl w a
  copy-Same (suc n) source target w a out =
      Same-trans w (copied source target w) _ a
        (copied-Same source target w a (ground (arith, out)))
        (copy-Same n (source + 4) (target + 4) (copied source target w) a (ground (arith, out)))

  -- Each settled byte of the source arrives, where the target is settled and ends before the source.
  pub copy_value :
      (n source target : ℕ) (w : State) (i : ℕ)
      → target + 4 * n ≤ source
      → ((j : ℕ) → j < 4 * n → settled w (target + j))
      → i < 4 * n
      → settled w (source + i)
      → value (copy_uncached c n source target w) (target + i) ≡ value w (source + i)
  unfolding copy_uncached copied
  copy_value zero source target w i apart fresh h from = absurd (omega (arith, h))
  copy_value (suc n) source target w i apart fresh h from = elim (Bool-cases (ltb i 4)) [
    | inl first ↦
        let word : i < 4 = ground (arith, first) in
        (copy-Same n (source + 4) (target + 4) (copied source target w) (target + i)
          (inl (omega (arith, word)))).same_value
        ∙ copied_value source target w i word (λ j k. fresh j (omega (arith, k))) from
    | inr later ↦
        let next = copied source target w in
        let past : 4 ≤ i = ground (arith, later) in
        let at : target + i ≡ target + 4 + (i - 4) = omega (arith, past) in
        let from_at : source + 4 + (i - 4) ≡ source + i = omega (arith, past) in
        let source_same = copied-Same source target w (source + i) (inr (omega (arith, apart))) in
        let rest =
          copy_value n (source + 4) (target + 4) next (i - 4) (omega (arith, apart))
            (λ j k.
              (copied-Same source target w (target + 4 + j) (inr (omega arith))).still_settled
                (subst (settled w) (next_word target j) (fresh (4 + j) (omega (arith, k)))))
            (omega (arith, h, past))
            (subst (settled next) (sym from_at) (source_same.still_settled from)) in
        ap (value (copy_uncached c n (source + 4) (target + 4) next)) at
        ∙ (rest ∙ (ap (value next) from_at ∙ source_same.same_value))
  ]
