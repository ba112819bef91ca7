-- ===== src/NetworkLoader/Startup.antt =====
-- network-loader/kernel.cpp, `CKernel::Initialize`, and network-loader/main.cpp.
use rapi_bootloader.Base.{
  ℕ, Bool, true, false, Option, none, some, List, [], ◌∷◌, ◌==◌, if◌then◌else◌,
}
use rapi_bootloader.NetworkLoader.{Host, Setting, configure_network, wait_for_network, run}
use rapi_bootloader.NetConfig.{NetConfig}
use rapi_bootloader.Devices.{Devices, start_all, mount_card}
use mathlib.Core.Option

pub data Exit : Type 0 where
  exit_halt exit_reboot : Exit

-- `raspi` is the board, `read_config` what RapiReadNetConfig gives, `apply_settings` the configuration
-- of the network, and `disable_eee` the EEE probe with the sleep after it.
module _ (host : Host) (d : Devices host.World) (raspi : ℕ) (read_config : host.World → NetConfig)
    (apply_settings : List Setting → host.World → host.World)
    (disable_eee : host.World → host.World) where
  open host use {World}

  -- The card is optional: without it the loader still boots kernels.
  unfoldable pub optional_card : World → World × Bool
  optional_card w = ((mount_card d w).0, true)

  -- The network, configured before it is started.
  unfoldable pub start_network : World → World × Bool
  unfolding configure_network
  start_network w = d.net (apply_settings (configure_network (read_config w)) w)

  unfoldable pub renegotiate : World → World × Bool
  renegotiate w = (if raspi == 4 then disable_eee w else w, true)

  abbrev pub network_devices : List (World → World × Bool)
  unfolding optional_card start_network renegotiate
  network_devices =
      d.screen ∷ d.serial ∷ d.logger ∷ d.interrupt ∷ d.timer ∷ d.usb ∷ optional_card ∷ start_network
      ∷ renegotiate ∷ []

  -- The devices, and then the wait, on fuel.
  unfoldable pub initialize_network : ℕ → World → Option (World × Bool)
  initialize_network fuel w =
      let started = start_all network_devices w in
      if started.1
      then Option.map (λ w. (w, true)) (wait_for_network host fuel started.0)
      else some started

  unfoldable pub run_initialized : ℕ → Option (World × Bool) → Option (World × Exit)
  run_initialized fuel none = none
  run_initialized fuel (some (w, false)) = some (w, exit_halt)
  run_initialized fuel (some (w, true)) = Option.map (λ w. (w, exit_reboot)) (run host fuel w)

  unfoldable pub main : ℕ → World → Option (World × Exit)
  unfolding initialize_network run_initialized
  main fuel w = run_initialized fuel (initialize_network fuel w)
