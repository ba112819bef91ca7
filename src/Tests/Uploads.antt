-- ===== src/Tests/Uploads.antt =====
-- The TFTP server at concrete inputs: a kernel push, an upload to the card, the daemon's steps.
use rapi_bootloader.Base.{
  ◌≡◌, refl, true, none, some, List, [], ◌∷◌, arith, Bytes, codes, equal, starts_with,
}
use rapi_bootloader.BootImage.{boot_image_with_defaults}
use rapi_bootloader.ChainBoot.StageAlloc.{stage_alloc}
use rapi_bootloader.Memory.{read, write}
use rapi_bootloader.Tests.Board.{board, chain, card, card-WritesAppend, blank, machine}
use rapi_bootloader.Tftp.{
  mode_none, mode_kernel, mode_sd_write, Status, status_write_completed, status_write_aborted,
  fnv_offset_basis, init, TftpWorld,
}
use rapi_bootloader.Tftp.Buffers.{fnv1a, map_sd_path, ends_with}
use rapi_bootloader.Tftp.Create.{file_create}
use rapi_bootloader.Tftp.Finish.{update_status}
use rapi_bootloader.Tftp.Kernel.{write_blocks}
use rapi_bootloader.Tftp.Push.{
  pending_defaults, push_kernel, Closed, push_kernel-Closed, update_status-Closed,
}
use rapi_bootloader.Tftp.SdWrite.{write_blocks_total}
use rapi_bootloader.Tftp.Session.{here, next, creates, IsIdle, Reach-IsIdle}
use rapi_bootloader.Tftp.Transfer.{flush_write_buf}

abbrev TestWorld : Type 0
TestWorld = TftpWorld board chain card

abbrev idle : TestWorld
idle = record { server = init 0x1000 7 [] blank; machine = machine; card = 0 }

abbrev kernel_name : Bytes
kernel_name = codes "kernel8.img"

abbrev blocks : List Bytes
blocks = codes "first" ∷ codes "second" ∷ []

push_kernel-Closed_example :
    (w : TestWorld) × (push_kernel board chain card idle kernel_name blocks ≡ some w)
    × Closed board chain card w (codes "firstsecond")
    × (w.machine.boot ≡ none)
    × (pending_defaults board chain card w ≡ none)
unfolding init file_create starts_with equal map_sd_path ends_with stage_alloc
push_kernel-Closed_example =
    push_kernel-Closed board chain card idle kernel_name blocks refl refl (omega arith)
      (omega arith) (omega arith)

-- After FileClose of a push of two bytes into a buffer at 0x4000_0000.
abbrev closed_world : TestWorld
closed_world = record {
  server = record (init 0x1000 2 [] blank) {
    kernel_buffer = 0x4000_0000;
    kernel_closed = true;
    kernel_hash = fnv1a fnv_offset_basis (0 ∷ 0 ∷ []);
  };
  machine = machine;
  card = 0;
}

closed_world-Closed : Closed board chain card closed_world (0 ∷ 0 ∷ [])
unfolding init read write
closed_world-Closed = record {
  idle = refl;
  buffer = omega arith;
  size = refl;
  bytes = refl;
  hash = refl;
  closed = refl;
}

update_status-Closed_example :
    let done = update_status board chain card closed_world status_write_completed in
    let aborted = update_status board chain card closed_world status_write_aborted in
    (done.machine
      ≡ (boot_image_with_defaults chain machine closed_world.server.kernel_buffer 2
          (pending_defaults board chain card closed_world)).0)
    × (done.machine.boot ≡ some (closed_world.server.kernel_buffer, 2))
    × (pending_defaults board chain card done ≡ none)
    × (aborted.machine ≡ machine)
    × (pending_defaults board chain card aborted ≡ pending_defaults board chain card closed_world)
    × ((status : Status) → update_status board chain card done status ≡ done)
    × ((status : Status) → update_status board chain card aborted status ≡ aborted)
update_status-Closed_example =
    update_status-Closed board chain card closed_world (0 ∷ 0 ∷ []) closed_world-Closed

abbrev upload : TestWorld
upload = record {
  server = record (init 0x1000 7 [] blank) { mode = mode_sd_write; write_buf = 0x5000_0000 };
  machine = machine;
  card = 0;
}

write_blocks_total_example :
    (w : TestWorld) × (write_blocks board chain card upload blocks ≡ some w)
    × ((flush_write_buf board chain card w).0.server.file ≡ codes "firstsecond")
unfolding init read
write_blocks_total_example =
    write_blocks_total board chain card card-WritesAppend (λ c f bs. (refl, refl)) blocks upload
      refl (omega arith)

-- A kernel transfer that received one byte.
abbrev receiving : TestWorld
receiving = record {
  server = record (init 0x1000 1 [] blank) { mode = mode_kernel; kernel_buffer = 0x4000_0000 };
  machine = machine;
  card = 0;
}

receiving-IsIdle : IsIdle board chain card receiving
unfolding init
receiving-IsIdle = record {
  bounded = record {
    write_fill = omega arith;
    inject_room = omega arith;
    kernel_room = λ e. (omega arith, omega arith);
  };
  not_closed = refl;
}

abbrev received : TestWorld
received = record receiving {
  server = record receiving.server { kernel_closed = true; mode = mode_none };
}

Reach-IsIdle_example :
    IsIdle board chain card (file_create board chain card receiving kernel_name).0
Reach-IsIdle_example =
    Reach-IsIdle board chain card receiving-IsIdle (next here (creates kernel_name))
