-- ===== src/Tftp/Create.antt =====
-- network-loader/tftpbootserver.cpp: `FileOpen` and `FileCreate`, which start a transfer.
use rapi_bootloader.ChainBoot.StageAlloc.{stage_alloc}
use rapi_bootloader.Base.{
  Bool, true, false, not, Option, none, some, [], ◌∷◌, ◌==◌, if◌then◌else◌, take, drop, Bytes,
  codes, nul, equal, starts_with,
}
use rapi_bootloader.Circle.{MemorySystem, ChainLoader}
use rapi_bootloader.FatFs.{FatFs, is_ok, fa_read, fa_write_create_always, make_parents}
use rapi_bootloader.Memory.{write}
use rapi_bootloader.Tftp.Buffers.{map_sd_path, ends_with}
use rapi_bootloader.Tftp.{
  mode_kernel, mode_inject, mode_sd_write, mode_sd_read, inject_file_name, write_buf_size,
  fnv_offset_basis, TftpWorld, is_none,
}

module _ (ms : MemorySystem) (cl : ChainLoader ms.Heap) (fs : FatFs) where
  open ms use {Heap}
  open cl use {Boot}
  open fs use {f_open}

  -- `f_open` for reading, on the mapped path.
  open_for_read : TftpWorld ms cl fs → Option Bytes → TftpWorld ms cl fs × Bool
  open_for_read w none = (w, false)
  open_for_read w (some path) =
      let (card, result, file) = f_open w.card path fa_read in
      if is_ok result
      then (
        record w { card = card; server = record w.server { file = file; mode = mode_sd_read } },
        true,
      )
      else (record w { card = card; server = record w.server { file = file } }, false)

  unfoldable pub file_open : TftpWorld ms cl fs → Bytes → TftpWorld ms cl fs × Bool
  unfolding open_for_read
  file_open w name =
      if not (is_none w.server.mode) then (w, false) else open_for_read w (map_sd_path name)

  create_inject : TftpWorld ms cl fs → TftpWorld ms cl fs × Bool
  create_inject w = (
    record w {
      server = record w.server {
        inject_fill = 0;
        inject_text = write w.server.inject_text 0 (nul ∷ []);
        mode = mode_inject;
      };
    },
    true,
  )

  -- The staging buffer for SD writes is allocated once; a failure is met by `FileWrite`.
  with_write_buf : TftpWorld ms cl fs → TftpWorld ms cl fs
  with_write_buf w =
      let (heap, buffer) = stage_alloc ms w.machine.heap write_buf_size in
      let machine = record w.machine { heap = heap } in
      let server = record w.server { write_buf = buffer } in
      if w.server.write_buf == 0 then record w { machine = machine; server = server } else w

  create_on_card : TftpWorld ms cl fs → Bytes → TftpWorld ms cl fs × Bool
  unfolding with_write_buf
  create_on_card w path =
      let card = make_parents fs w.card (take 4 path) (drop 4 path) in
      let (card', result, file) = f_open card path fa_write_create_always in
      let opened = record w { card = card'; server = record w.server { file = file } } in
      if not (is_ok result)
      then (opened, false)
      else let buffered = with_write_buf opened in
        (
          record buffered {
            server = record buffered.server { write_buf_fill = 0; mode = mode_sd_write };
          },
          true,
        )

  -- The kernel's staging buffer is allocated once; the flag says whether there is one.
  with_kernel_buffer : TftpWorld ms cl fs → TftpWorld ms cl fs × Bool
  with_kernel_buffer w =
      let (heap, buffer) = stage_alloc ms w.machine.heap w.server.max_kernel_size in
      if w.server.kernel_buffer == 0
      then (
        record w {
          machine = record w.machine { heap = heap };
          server = record w.server { kernel_buffer = buffer };
        },
        not (buffer == 0),
      )
      else (w, true)

  create_kernel : TftpWorld ms cl fs → Bytes → TftpWorld ms cl fs × Bool
  unfolding with_kernel_buffer
  create_kernel w name =
      if not (starts_with (codes "kernel") name)
      then (w, false)
      else if not (ends_with (codes ".img") name)
      then (w, false)
      else let (staged, available) = with_kernel_buffer w in
        if not available then (staged, false) else (
          record staged {
            server = record staged.server {
              current_offset = 0;
              kernel_hash = fnv_offset_basis;
              mode = mode_kernel;
            };
          },
          true,
        )

  -- `sd/` names go to the card, any other name must be a kernel's.
  create_named : TftpWorld ms cl fs → Bytes → Option Bytes → TftpWorld ms cl fs × Bool
  unfolding create_on_card create_kernel
  create_named w name none = create_kernel w name
  create_named w name (some path) = create_on_card w path

  unfoldable pub file_create : TftpWorld ms cl fs → Bytes → TftpWorld ms cl fs × Bool
  unfolding create_inject create_named
  file_create w name =
      if not (is_none w.server.mode)
      then (w, false)
      else if equal name inject_file_name
      then create_inject w
      else create_named w name (map_sd_path name)
