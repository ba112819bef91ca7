-- ===== src/NetworkLoader.antt =====
-- network-loader/kernel.cpp: bringing the devices up, the choice of the address, and the main loop up
-- to the return of `main`. The devices, the scheduler and its tasks are parameters.
pub mod Startup
pub mod Tee
pub mod Settles
pub mod Ends
use rapi_bootloader.Base.{
  ℕ, zero, suc, ◌+◌, ◌%◌, ◌^◌, Bool, true, not, Option, none, some, List, [], ◌∷◌, ◌++◌, map,
  if◌then◌else◌, Bytes,
}
use rapi_bootloader.RapiChainboot.{
  Statics, Enabled, answers, hands_off, is_chain_boot_enabled, main_returning,
}
use rapi_bootloader.NetConfig.{NetConfig}
use rapi_bootloader.Settling.{settle}
use mathlib.Core.Option

-- What the kernel drives. `World` is all the state, and holds the static variables of the chain-boot.
-- `yield` and `sleep` let the tasks run, such as those of the three boot servers.
pub record Host : Type 1 where
  pub World : Type 0
  pub hz : ℕ
  pub statics : World → Statics
  pub with_statics : World → Statics → World
  pub reboot_requested : World → Bool
  pub get_ticks : World → ℕ
  pub update_plug_and_play : World → World
  pub rotor : ℕ → World → World
  pub yield : World → World
  pub sleep : ℕ → World → World
  pub is_running : World → Bool

-- The calls that `ConfigureNetwork` makes on the configuration of the network.
pub data Setting : Type 0 where
  set_ip_address set_net_mask set_default_gateway set_dns_server : Bytes → Setting

unfoldable pub configure_network : NetConfig → List Setting
configure_network c =
    if not c.is_static
    then []
    else set_ip_address c.ip_address
      ∷ set_net_mask c.net_mask
      ∷ ((if c.have_gateway then set_default_gateway c.gateway ∷ [] else [])
          ++ (if c.have_dns_server then set_dns_server c.dns_server ∷ [] else []))

-- Why the main loop ends.
pub data Stop : Type 0 where
  chain_boot_enabled reboot_wanted : Stop

module _ (host : Host) where
  open host use {
    World, hz, statics, with_statics, reboot_requested, get_ticks, update_plug_and_play, rotor,
    yield, sleep, is_running,
  }

  -- A turn of the loops that wait.
  abbrev pub pump : World → World
  pump w = yield (update_plug_and_play w)

  unfoldable pub quiesce_usb : ℕ → World → Option World
  quiesce_usb fuel w = settle hz get_ticks pump fuel (get_ticks w) w

  -- The loop of `WaitForNetwork` on fuel, without its log lines.
  unfoldable pub wait_for_network : ℕ → World → Option World
  wait_for_network zero w = none
  wait_for_network (suc fuel) w =
      let rest = wait_for_network fuel (pump w) in if is_running w then some w else rest

  -- The test of the loop of `Run`: whether the chain-boot is enabled, asked before `main` returns.
  unfoldable pub is_enabled : World → Bool
  is_enabled w = elim (is_chain_boot_enabled (statics w)) [ answers b ↦ b | hands_off ↦ true ]

  -- One turn of the loop.
  abbrev pub run_turn : ℕ → World → World
  run_turn count w = yield (rotor (count % 2 ^ 32) (update_plug_and_play w))

  -- The loop of `Run` on fuel.
  unfoldable pub run_loop : ℕ → ℕ → World → Option (World × Stop)
  unfolding is_enabled
  run_loop zero count w = none
  run_loop (suc fuel) count w =
      let rest = run_loop fuel (count + 1) (run_turn count w) in
      if is_enabled w
      then some (w, chain_boot_enabled)
      else if reboot_requested w
      then some (w, reboot_wanted)
      else rest

  -- After the loop.
  unfoldable pub leave : Stop → World → World
  leave chain_boot_enabled w =
      let slept = sleep 1 w in with_statics slept (main_returning (statics slept))
  leave reboot_wanted w = sleep 1 w

  unfoldable pub run_after : ℕ → Option (World × Stop) → Option World
  unfolding quiesce_usb leave
  run_after fuel none = none
  run_after fuel (some (w, stop)) = Option.map (leave stop) (quiesce_usb fuel w)

  -- `Run`, which returns ShutdownReboot in both cases.
  unfoldable pub run : ℕ → World → Option World
  unfolding run_loop run_after
  run fuel w = run_after fuel (run_loop fuel 0 w)
