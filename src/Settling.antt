-- ===== src/Settling.antt =====
-- The wait of two seconds in which both kernels let the USB stack settle: QuiesceUSB of
-- network-loader/kernel.cpp, and the start of the automatic boot in menu-loader/kernel.cpp.
use rapi_bootloader.Base.{
  ℕ, zero, suc, ◌+◌, ◌-◌, ◌*◌, ◌%◌, ◌^◌, ◌≤◌, ◌<◌, ◌≡◌, refl, inl, inr, false, Option, none, some,
  arith, ltb, if◌then◌else◌, Bool-cases,
}

module _ {World : Type 0} (hz : ℕ) (get_ticks : World → ℕ) (pump : World → World) where
  -- `m_Timer.GetTicks () - nStart` on 32 bits.
  unfoldable pub elapsed : ℕ → World → ℕ
  elapsed start w = (get_ticks w % 2 ^ 32 + (2 ^ 32 - start % 2 ^ 32)) % 2 ^ 32

  -- The loop on fuel; `pump` is its body, UpdatePlugAndPlay and then Yield.
  unfoldable pub settle : ℕ → ℕ → World → Option World
  unfolding elapsed
  settle zero start w = none
  settle (suc fuel) start w =
      let rest = settle fuel start (pump w) in
      if ltb (elapsed start w) (2 * hz) then rest else some w

  -- Turns of the loop.
  abbrev pub settle_turns : ℕ → World → World
  settle_turns zero w = w
  settle_turns (suc n) w = settle_turns n (pump w)

  -- The clock is not stuck: two seconds pass after some number of turns.
  abbrev pub ClockRuns : Type 0
  ClockRuns = (w : World) → (n : ℕ) × (2 * hz ≤ elapsed (get_ticks w) (settle_turns n w))

  ltb_no : (a b : ℕ) → b ≤ a → ltb a b ≡ false
  ltb_no a b h = ground (arith, h)

  module _ (Good : World → Type 0) (pump_keeps : (w : World) → Good w → Good (pump w)) where
    settle-within :
        (fuel n start : ℕ) (w : World)
        → Good w
        → n < fuel
        → 2 * hz ≤ elapsed start (settle_turns n w)
        → (w' : World) × (settle fuel start w ≡ some w') × Good w'
    unfolding settle
    settle-within zero n start w good less reached = absurd (omega (arith, less))
    settle-within (suc fuel) zero start w good less reached =
        (w, rw (ltb_no (elapsed start w) (2 * hz) reached) refl, good)
    settle-within (suc fuel) (suc n) start w good less reached =
        elim (Bool-cases (ltb (elapsed start w) (2 * hz))) [
          | inr long ↦ (w, rw long refl, good)
          | inl short ↦
              let (w', e, kept) =
                settle-within fuel n start (pump w) (pump_keeps w good) (omega (arith, less))
                  reached in
              (w', rw short e, kept)
        ]

    -- If the clock runs, then with enough fuel the wait ends, in a state that keeps what each turn of
    -- the loop keeps.
    pub settle-some :
        ClockRuns
        → (w : World) → Good w
        → (n : ℕ) × ((fuel : ℕ)
            → n < fuel
            → (w' : World) × (settle fuel (get_ticks w) w ≡ some w') × Good w')
    settle-some runs w good =
        let (n, reached) = runs w in
        (n, λ fuel less. settle-within fuel n (get_ticks w) w good less reached)
