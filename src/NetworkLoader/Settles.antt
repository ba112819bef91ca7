-- ===== src/NetworkLoader/Settles.antt =====
-- What the waiting of the kernel keeps: tasks that run meanwhile may arm a chain-boot, and no more.
use rapi_bootloader.Base.{ℕ, ◌<◌, ◌≡◌, refl, ◌∙◌, ◌≢◌, some}
use rapi_bootloader.NetworkLoader.{Host, pump, quiesce_usb}
use rapi_bootloader.Settling.{ClockRuns, settle-some}
use rapi_bootloader.RapiChainboot.{Statics}

module _ (host : Host) where
  open host use {
    World, hz, statics, with_statics, get_ticks, update_plug_and_play, rotor, yield, sleep,
  }

  -- From one state to a later one, an armed chain-boot stays armed, and `main` returns in neither.
  pub record KeepsArmed (w w' : World) : Type 0 where
    pub stays_armed : (statics w).kernel_image ≢ 0 → (statics w').kernel_image ≢ 0
    pub same_main : (statics w').loader_main_returned ≡ (statics w).loader_main_returned

  -- What the kernel relies on: the devices and the tasks only ever arm a chain-boot, and the clock
  -- is not stuck, so that two seconds pass after some number of turns.
  pub record HostLaws : Type 0 where
    pub plug_and_play_keeps : (w : World) → KeepsArmed w (update_plug_and_play w)
    pub rotor_keeps : (count : ℕ) (w : World) → KeepsArmed w (rotor count w)
    pub yield_keeps : (w : World) → KeepsArmed w (yield w)
    pub sleep_keeps : (seconds : ℕ) (w : World) → KeepsArmed w (sleep seconds w)
    pub statics_set : (w : World) (s : Statics) → statics (with_statics w s) ≡ s
    pub clock_runs : ClockRuns hz get_ticks (pump host)

  KeepsArmed-refl : (w : World) → KeepsArmed w w
  KeepsArmed-refl w = record { stays_armed = λ h. h; same_main = refl }

  pub KeepsArmed-trans : (u v w : World) → KeepsArmed u v → KeepsArmed v w → KeepsArmed u w
  KeepsArmed-trans u v w h k = record {
    stays_armed = λ armed. k.stays_armed (h.stays_armed armed);
    same_main = k.same_main ∙ h.same_main;
  }

  module _ (laws : HostLaws) where
    turn_keeps : (w : World) → KeepsArmed w (yield (update_plug_and_play w))
    turn_keeps w =
        KeepsArmed-trans w (update_plug_and_play w) _ (laws.plug_and_play_keeps w)
          (laws.yield_keeps (update_plug_and_play w))

    -- There is fuel enough for the wait.
    pub quiesce_usb-some :
        (w : World)
        → (n : ℕ) × ((fuel : ℕ)
            → n < fuel
            → (w' : World) × (quiesce_usb host fuel w ≡ some w') × KeepsArmed w w')
    unfolding quiesce_usb
    quiesce_usb-some w =
        settle-some hz get_ticks (pump host) (KeepsArmed w)
          (λ v keeps. KeepsArmed-trans w v _ keeps (turn_keeps v)) laws.clock_runs w
          (KeepsArmed-refl w)
