-- ===== src/NetworkLoader/Ends.antt =====
-- How `Run` ends, and what `sysinit` is told afterwards.
use rapi_bootloader.Base.{
  ℕ, zero, suc, ◌+◌, ◌%◌, ◌^◌, ◌≤◌, ◌<◌, ◌≡◌, refl, ◌∙◌, subst, ◌≢◌, ◌⊎◌, inl, inr, true, false,
  not, Option, some, arith, ◌==◌, Bool-cases,
}
use rapi_bootloader.NetworkLoader.Settles.{KeepsArmed, KeepsArmed-trans, HostLaws, quiesce_usb-some}
use rapi_bootloader.NetworkLoader.{
  Host, Stop, chain_boot_enabled, reboot_wanted, is_enabled, run_turn, run_loop, run_after, run,
  leave,
}
use rapi_bootloader.RapiChainboot.{answers, hands_off, is_chain_boot_enabled, main_returning}

module _ (host : Host) where
  open host use {World, statics, reboot_requested, rotor, yield, sleep}

  -- The state of the loop after some turns.
  abbrev pub after_turns : ℕ → ℕ → World → World
  after_turns zero count w = w
  after_turns (suc n) count w = after_turns n (count + 1) (run_turn host count w)

  -- The loop ends here, and why.
  abbrev pub Stops : World → Stop → Type 0
  Stops w stop =
      ((stop ≡ chain_boot_enabled) × (is_enabled host w ≡ true))
      ⊎ ((stop ≡ reboot_wanted) × (is_enabled host w ≡ false) × (reboot_requested w ≡ true))

  run_loop_here :
      (fuel count : ℕ) (w : World) (stop : Stop)
      → 0 < fuel
      → Stops w stop
      → run_loop host fuel count w ≡ some (w, stop)
  unfolding run_loop
  run_loop_here zero count w stop pos h = absurd (omega (arith, pos))
  run_loop_here (suc fuel) count w stop pos h = elim h [
    | inl (e, enabled) ↦ rw (e, enabled) refl
    | inr (e, disabled, wanted) ↦ rw (e, disabled, wanted) refl
  ]

  run_loop_next :
      (fuel count : ℕ) (w : World)
      → is_enabled host w ≡ false
      → reboot_requested w ≡ false
      → run_loop host (suc fuel) count w ≡ run_loop host fuel (count + 1) (run_turn host count w)
  unfolding run_loop
  run_loop_next fuel count w disabled unwanted = rw (disabled, unwanted) refl

  -- A chain-boot is only enabled if one is armed.
  enabled_armed : (w : World) → is_enabled host w ≡ true → (statics w).kernel_image ≢ 0
  unfolding is_enabled is_chain_boot_enabled
  enabled_armed w h = λ z. ground (arith, h, z)

  module _ (laws : HostLaws host) where
    turn_keeps : (count : ℕ) (w : World) → KeepsArmed host w (run_turn host count w)
    turn_keeps count w =
        let pumped = host.update_plug_and_play w in
        let drawn = rotor (count % 2 ^ 32) pumped in
        KeepsArmed-trans host w pumped _ (laws.plug_and_play_keeps w) (
          KeepsArmed-trans host pumped drawn _ (laws.rotor_keeps (count % 2 ^ 32) pumped)
            (laws.yield_keeps drawn))

    -- Where the loop stops.
    record StopsAt (n count : ℕ) (w : World) : Type 0 where
      pub turns : ℕ
      pub at : World
      pub stop : Stop
      pub within : turns ≤ n
      pub reached : at ≡ after_turns turns count w
      pub why : Stops at stop
      pub same_main : (statics at).loader_main_returned ≡ (statics w).loader_main_returned
      pub loop : (fuel : ℕ) → turns < fuel → run_loop host fuel count w ≡ some (at, stop)

    loop_now : (n count : ℕ) (w : World) (stop : Stop) → Stops w stop → StopsAt n count w
    loop_now n count w stop why = record {
      turns = 0;
      at = w;
      within = omega arith;
      reached = refl;
      stop = stop;
      why = why;
      same_main = refl;
      loop = λ fuel less. run_loop_here fuel count w stop less why;
    }

    loop_later :
        (fuel count turns : ℕ) (w : World) (r : Option (World × Stop))
        → is_enabled host w ≡ false
        → reboot_requested w ≡ false
        → ((fuel : ℕ) → turns < fuel → run_loop host fuel (count + 1) (run_turn host count w) ≡ r)
        → suc turns < fuel
        → run_loop host fuel count w ≡ r
    loop_later zero count turns w r disabled unwanted later less = absurd (omega (arith, less))
    loop_later (suc fuel) count turns w r disabled unwanted later less =
        run_loop_next fuel count w disabled unwanted ∙ later fuel (omega (arith, less))

    stops_later :
        (n count : ℕ) (w : World)
        → is_enabled host w ≡ false
        → reboot_requested w ≡ false
        → StopsAt n (count + 1) (run_turn host count w)
        → StopsAt (suc n) count w
    stops_later n count w disabled unwanted later = record {
      turns = suc later.turns;
      at = later.at;
      within = omega (arith, later.within);
      reached = later.reached;
      stop = later.stop;
      why = later.why;
      same_main = later.same_main ∙ (turn_keeps count w).same_main;
      loop = λ fuel less. loop_later fuel count later.turns w _ disabled unwanted later.loop less;
    }

    stops_within :
        (n count : ℕ) (w : World)
        → (is_enabled host (after_turns n count w) ≡ true)
          ⊎ (reboot_requested (after_turns n count w) ≡ true)
        → StopsAt n count w
    stops_within zero count w h = elim (Bool-cases (is_enabled host w)) [
      | inl enabled ↦ loop_now _ count w chain_boot_enabled (inl (refl, enabled))
      | inr disabled ↦
          loop_now _ count w reboot_wanted (inr (refl, disabled, ground (arith, h, disabled)))
    ]
    stops_within (suc n) count w h =
        let later = stops_within n (count + 1) (run_turn host count w) h in
        elim (Bool-cases (is_enabled host w)) [
          | inl enabled ↦ loop_now _ count w chain_boot_enabled (inl (refl, enabled))
          | inr disabled ↦ elim (Bool-cases (reboot_requested w)) [
            | inl wanted ↦ loop_now _ count w reboot_wanted (inr (refl, disabled, wanted))
            | inr unwanted ↦ stops_later n count w disabled unwanted later
          ]
        ]

    -- What `sysinit` is told after `Run` has left the loop at a state.
    abbrev pub Ended : World → World → Type 0
    Ended at w' =
        ((is_enabled host at ≡ true) × (is_chain_boot_enabled (statics w') ≡ hands_off))
        ⊎ ((is_enabled host at ≡ false)
            × (reboot_requested at ≡ true)
            × (is_chain_boot_enabled (statics w') ≡ answers (not ((statics w').kernel_image == 0))))

    leave-Ended :
        (at settled : World) (stop : Stop)
        → Stops at stop
        → (statics at).loader_main_returned ≡ false
        → KeepsArmed host at settled
        → Ended at (leave host stop settled)
    unfolding leave is_chain_boot_enabled main_returning
    leave-Ended at settled stop why running keeps =
        let slept = KeepsArmed-trans host at settled _ keeps (laws.sleep_keeps 1 settled) in
        elim why [
          | inl (e, enabled) ↦
              let armed = slept.stays_armed (enabled_armed at enabled) in
              let unarmed : ((statics (sleep 1 settled)).kernel_image == 0) ≡ false =
                ground (arith, armed) in
              inl (enabled, rw (e, laws.statics_set (sleep 1 settled), unarmed) refl)
          | inr (e, disabled, wanted) ↦
              inr (disabled, wanted, rw e (ground (arith, slept.same_main, running)))
        ]

    -- On a host that keeps its laws, if after some turns of the loop a chain-boot is armed or a reboot
    -- is wanted, then with enough fuel Run returns, and leaves the loop by then. If it left the loop because a chain-boot was armed,
    -- the question that sysinit asks next hands off to the payload. If it left for a reboot, nothing
    -- is handed off: the answer is yes exactly if a chain-boot was armed while it was leaving.
    pub run-Ended :
        (n : ℕ) (w : World)
        → (is_enabled host (after_turns n 0 w) ≡ true)
          ⊎ (reboot_requested (after_turns n 0 w) ≡ true)
        → (statics w).loader_main_returned ≡ false
        → (k : ℕ) × (m : ℕ) × (k ≤ n)
          × ((fuel : ℕ)
              → m < fuel
              → (w' : World) × (run host fuel w ≡ some w') × Ended (after_turns k 0 w) w')
    unfolding run run_after
    run-Ended n w h running =
        let s = stops_within n 0 w h in
        let (m, quiets) = quiesce_usb-some host laws s.at in
        (
          s.turns,
          s.turns + m,
          s.within,
          λ fuel less.
              let (settled, e, keeps) = quiets fuel (omega (arith, less)) in
              (
                leave host s.stop settled,
                rw (s.loop fuel (omega (arith, less)), e) refl,
                subst (λ at. Ended at (leave host s.stop settled)) s.reached
                    (leave-Ended s.at settled s.stop s.why (s.same_main ∙ running) keeps),
              ),
        )
