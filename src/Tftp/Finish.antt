-- ===== src/Tftp/Finish.antt =====
-- network-loader/tftpbootserver.cpp: `FileClose` and `UpdateStatus`, which end a transfer.
use rapi_bootloader.BootImage.{boot_image_with_defaults}
use rapi_bootloader.DefaultsBlock.{defaults_buffer_bytes}
use rapi_bootloader.Base.{true, false, not, Option, none, some, [], ◌∷◌, ltb, if◌then◌else◌, nul}
use rapi_bootloader.Circle.{MemorySystem, ChainLoader}
use rapi_bootloader.FatFs.{FatFs}
use rapi_bootloader.Memory.{write, c_string}
use rapi_bootloader.Tftp.Buffers.{trim_newlines}
use rapi_bootloader.Tftp.Transfer.{flush_write_buf}
use rapi_bootloader.Tftp.{
  Mode, mode_none, mode_kernel, mode_inject, mode_sd_write, mode_sd_read, Status,
  status_write_completed, status_write_aborted, status_other, TftpWorld,
}

module _ (ms : MemorySystem) (cl : ChainLoader ms.Heap) (fs : FatFs) where
  open ms use {Heap}
  open cl use {Boot}
  open fs use {f_close}

  close_kernel : TftpWorld ms cl fs → TftpWorld ms cl fs
  close_kernel w = record w {
    server = record w.server { kernel_closed = ltb 0 w.server.current_offset; mode = mode_none };
  }

  close_inject : TftpWorld ms cl fs → TftpWorld ms cl fs
  close_inject w =
      let s = w.server in
      let fill = trim_newlines s.inject_text s.inject_fill in
      record w {
        server = record s {
          inject_fill = fill;
          inject_text = write s.inject_text fill (nul ∷ []);
          inject_pending = true;
          mode = mode_none;
        };
      }

  close_file : TftpWorld ms cl fs → TftpWorld ms cl fs
  close_file w = record w {
    card = f_close w.card w.server.file;
    server = record w.server { mode = mode_none };
  }

  close_in : Mode → TftpWorld ms cl fs → Option (TftpWorld ms cl fs)
  unfolding close_kernel close_inject close_file
  close_in mode_kernel w = some (close_kernel w)
  close_in mode_inject w = some (close_inject w)
  close_in mode_sd_write w = some (close_file (flush_write_buf ms cl fs w).0)
  close_in mode_sd_read w = some (close_file w)
  close_in mode_none w = none

  -- `none` is the failed assertion of the default branch. The result of the C function is TRUE.
  unfoldable pub file_close : TftpWorld ms cl fs → Option (TftpWorld ms cl fs)
  unfolding close_in
  file_close w = close_in w.server.mode w

  boot_staged : TftpWorld ms cl fs → TftpWorld ms cl fs
  boot_staged w =
      let s = w.server in
      let defaults =
        if s.inject_pending then some (c_string s.inject_text 0 defaults_buffer_bytes) else none in
      record w {
        machine =
            (boot_image_with_defaults cl w.machine s.kernel_buffer s.current_offset defaults).0;
        server = record s {
          kernel_closed = false;
          inject_pending = false;
          inject_fill = 0;
          inject_text = write s.inject_text 0 (nul ∷ []);
        };
      }

  status_when_closed : TftpWorld ms cl fs → Status → TftpWorld ms cl fs
  unfolding boot_staged
  status_when_closed w status_write_completed = boot_staged w
  status_when_closed w status_write_aborted = record w {
    server = record w.server { kernel_closed = false; current_offset = 0 };
  }
  status_when_closed w status_other = w

  unfoldable pub update_status : TftpWorld ms cl fs → Status → TftpWorld ms cl fs
  unfolding status_when_closed
  update_status w status = if not w.server.kernel_closed then w else status_when_closed w status
