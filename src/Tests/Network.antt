-- ===== src/Tests/Network.antt =====
-- The main loop of the network loader on a host with a clock, and the upload form.
use rapi_bootloader.Base.{
  ℕ, ◌+◌, ◌≤◌, ◌<◌, ◌≡◌, refl, inl, inr, Bool, true, false, some, [], ◌∷◌, arith, take, codes,
  starts_with,
}
use rapi_bootloader.HttpBoot.Boots.{staged, get_content-boots}
use rapi_bootloader.HttpBoot.Order.{kernel_parts, other_parts, get_content_order}
use rapi_bootloader.HttpBoot.{
  Part, Pages, HttpWorld, is_kernel_part, is_defaults_part, contains, get_content,
}
use rapi_bootloader.NetworkLoader.Ends.{Ended, after_turns, run-Ended}
use rapi_bootloader.NetworkLoader.Settles.{HostLaws}
use rapi_bootloader.Settling.{elapsed, ClockRuns}
use rapi_bootloader.NetworkLoader.{Host, pump, is_enabled, run}
use rapi_bootloader.RapiChainboot.{Statics, initial, is_chain_boot_enabled}
use rapi_bootloader.Memory.{read}
use rapi_bootloader.ChainBoot.StageAlloc.{stage_alloc}
use rapi_bootloader.BootMenu.{c_str}
use rapi_bootloader.BootImage.{boot_image_with_defaults}
use rapi_bootloader.Tests.Board.{board, chain, machine}

record Toy : Type 0 where
  pub ticks : ℕ
  pub statics : Statics
  pub reboot : Bool

-- Every turn takes a tick, and the tasks do nothing.
abbrev toy_host : Host
toy_host = record {
  World = Toy;
  hz = 1;
  statics = λ w. w.statics;
  with_statics = λ w s. record w { statics = s };
  reboot_requested = λ w. w.reboot;
  get_ticks = λ w. w.ticks;
  update_plug_and_play = λ w. w;
  rotor = λ count w. w;
  yield = λ w. record w { ticks = w.ticks + 1 };
  sleep = λ n w. w;
  is_running = λ w. true;
}

toy_clock : ClockRuns 1 toy_host.get_ticks (pump toy_host)
unfolding elapsed
toy_clock w = (2, omega arith)

toy_laws : HostLaws toy_host
toy_laws = record {
  plug_and_play_keeps = λ w. record { stays_armed = λ h. h; same_main = refl };
  rotor_keeps = λ count w. record { stays_armed = λ h. h; same_main = refl };
  yield_keeps = λ w. record { stays_armed = λ h. h; same_main = refl };
  sleep_keeps = λ n w. record { stays_armed = λ h. h; same_main = refl };
  statics_set = λ w s. refl;
  clock_runs = toy_clock;
}

abbrev armed_world : Toy
armed_world = record {
  ticks = 0xffff_ffff;
  statics = record initial { kernel_image = 0x4000_0000; kernel_size = 8 };
  reboot = false;
}

armed_enabled : is_enabled toy_host armed_world ≡ true
unfolding is_enabled is_chain_boot_enabled
armed_enabled = refl

run-Ended_example :
    (k : ℕ) × (m : ℕ) × (k ≤ 0)
    × ((fuel : ℕ)
        → m < fuel
        → (w' : Toy) × (run toy_host fuel armed_world ≡ some w')
          × Ended toy_host toy_laws (after_turns toy_host k 0 armed_world) w')
run-Ended_example = run-Ended toy_host toy_laws 0 armed_world (inl armed_enabled) refl

abbrev image_part : Part
image_part = record {
  header = codes "name=\"kernelimg\"; filename=\"kernel8.img\"";
  data_bytes = 1 ∷ 2 ∷ 3 ∷ [];
}

abbrev defaults_part : Part
defaults_part = record { header = codes "name=\"defaults\""; data_bytes = codes "-v" }

image_part-kernel : is_kernel_part image_part ≡ true
unfolding is_kernel_part contains starts_with
image_part-kernel = refl

defaults_part-kernel : is_kernel_part defaults_part ≡ false
unfolding is_kernel_part contains starts_with
defaults_part-kernel = refl

defaults_part-defaults : is_defaults_part defaults_part ≡ true
unfolding is_defaults_part contains starts_with
defaults_part-defaults = refl

abbrev pages : Pages
pages = record { index_page = λ message. message; style = []; favicon = [] }

abbrev idle : HttpWorld board chain
idle = record { machine = machine; reboot_requested = false }

split_alike :
    (kernel_parts (image_part ∷ defaults_part ∷ [])
      ≡ kernel_parts (defaults_part ∷ image_part ∷ []))
    × (other_parts (image_part ∷ defaults_part ∷ [])
        ≡ other_parts (defaults_part ∷ image_part ∷ []))
unfolding kernel_parts other_parts is_kernel_part contains starts_with
split_alike = (refl, refl)

get_content_order_example :
    get_content board chain pages idle (codes "/") (image_part ∷ defaults_part ∷ []) 4000
    ≡ get_content board chain pages idle (codes "/") (defaults_part ∷ image_part ∷ []) 4000
get_content_order_example =
    get_content_order board chain pages idle (codes "/") (image_part ∷ defaults_part ∷ [])
      (defaults_part ∷ image_part ∷ []) 4000 split_alike.0 split_alike.1

staged_there : (stage_alloc board 0 3).1 ≡ 0x4000_0000
unfolding stage_alloc
staged_there = refl

get_content-boots_example :
    let at = (stage_alloc board 0 3).1 in
    let m' =
      (get_content board chain pages idle
        (codes "/")
        (defaults_part ∷ image_part ∷ [])
        4000).0.machine in
    (m'
      ≡ (boot_image_with_defaults chain
          (staged board chain machine (1 ∷ 2 ∷ 3 ∷ []))
          at
          3
          (some (c_str (take 511 (codes "-v"))))).0)
    × (read (staged board chain machine (1 ∷ 2 ∷ 3 ∷ [])).memory at 3 ≡ 1 ∷ 2 ∷ 3 ∷ [])
    × (m'.boot ≡ some (at, 3))
get_content-boots_example =
    get_content-boots board chain pages idle image_part defaults_part
      (defaults_part ∷ image_part ∷ []) 4000 image_part-kernel defaults_part-kernel
      defaults_part-defaults (inr refl) (λ z. omega (arith, staged_there, z))
