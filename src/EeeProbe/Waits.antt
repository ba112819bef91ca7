-- ===== src/EeeProbe/Waits.antt =====
-- The wait for the MDIO controller ends.
use rapi_bootloader.Base.{ℕ, zero, suc, ◌<◌, ◌≡◌, refl, true, arith, ltb}
use rapi_bootloader.EeeProbe.{Bus, since, mdio_cmd_read, wait_loop}

module _ (bus : Bus) where
  open bus use {World, hz, get_ticks}

  -- The polls of the loop, while the controller is busy: the world and the time after each.
  abbrev pub polled : World → World × ℕ
  polled w = get_ticks (mdio_cmd_read bus w).0

  abbrev pub after_polls : ℕ → World → World
  after_polls zero w = w
  after_polls (suc n) w = after_polls n (polled w).0

  -- If more than a second has passed after some number of polls, then mdio_wait ends by then: any fuel
  -- above that number gives the same result.
  pub wait_loop_enough :
      (n fuel fuel' start : ℕ) (w : World)
      → hz < since bus start (polled (after_polls n w)).1
      → n < fuel
      → n < fuel'
      → wait_loop bus fuel start w ≡ wait_loop bus fuel' start w
  unfolding wait_loop
  wait_loop_enough n zero fuel' start w late less less' = absurd (omega (arith, less))
  wait_loop_enough n (suc fuel) zero start w late less less' = absurd (omega (arith, less'))
  wait_loop_enough zero (suc fuel) (suc fuel') start w late less less' =
      let timed_out : ltb hz (since bus start (polled w).1) ≡ true = ground (arith, late) in
      rw timed_out refl
  wait_loop_enough (suc n) (suc fuel) (suc fuel') start w late less less' =
      let later =
        wait_loop_enough n fuel fuel' start (polled w).0 late (omega (arith, less))
          (omega (arith, less')) in
      rw later refl
