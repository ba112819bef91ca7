-- ===== src/Tftp/Invariant.antt =====
-- The bounds that every operation of the TFTP server keeps.
use rapi_bootloader.DefaultsBlock.{defaults_buffer_bytes}
use rapi_bootloader.Base.{◌≤◌, ◌<◌, ◌≡◌, ◌≢◌, some, arith, length, Bytes}
use rapi_bootloader.Circle.{MemorySystem, ChainLoader}
use rapi_bootloader.FatFs.{FatFs}
use rapi_bootloader.Tftp.Buffers.{trim_newlines-le}
use rapi_bootloader.Tftp.Create.{file_open, file_create}
use rapi_bootloader.Tftp.Transfer.{flush_write_buf, file_write}
use rapi_bootloader.Tftp.Finish.{file_close, update_status}
use rapi_bootloader.Tftp.{mode_kernel, Status, write_buf_size, Server, TftpWorld}

-- What holds between two calls of the daemon: fills within their buffers, and a kernel transfer has
-- a buffer and an offset within it.
pub record IsBounded {File : Type 0} (s : Server File) : Type 0 where
  pub write_fill : s.write_buf_fill ≤ write_buf_size
  pub inject_room : s.inject_fill < defaults_buffer_bytes
  pub kernel_room :
      s.mode ≡ mode_kernel → (s.current_offset ≤ s.max_kernel_size) × (s.kernel_buffer ≢ 0)

module _ (ms : MemorySystem) (cl : ChainLoader ms.Heap) (fs : FatFs) where
  pub file_open-IsBounded :
      (w : TftpWorld ms cl fs) (name : Bytes)
      → IsBounded w.server
      → IsBounded (file_open ms cl fs w name).0.server
  unfolding file_open
  file_open-IsBounded w name h = ground arith

  pub file_create-IsBounded :
      (w : TftpWorld ms cl fs) (name : Bytes)
      → IsBounded w.server
      → IsBounded (file_create ms cl fs w name).0.server
  unfolding file_create
  file_create-IsBounded w name h = ground arith

  flush-IsBounded :
      (w : TftpWorld ms cl fs)
      → IsBounded w.server
      → IsBounded (flush_write_buf ms cl fs w).0.server
  unfolding flush_write_buf
  flush-IsBounded w h = ground arith

  pub file_write-IsBounded :
      (w : TftpWorld ms cl fs) (block : Bytes)
      → length block ≤ write_buf_size
      → IsBounded w.server
      → IsBounded (file_write ms cl fs w block).0.server
  unfolding file_write flush_write_buf
  file_write-IsBounded w block small h = ground arith

  pub file_close-IsBounded :
      (w w' : TftpWorld ms cl fs)
      → IsBounded w.server
      → file_close ms cl fs w ≡ some w'
      → IsBounded w'.server
  unfolding file_close flush_write_buf
  file_close-IsBounded w w' h e =
      ground (arith, trim_newlines-le w.server.inject_text w.server.inject_fill)

  pub update_status-IsBounded :
      (w : TftpWorld ms cl fs) (status : Status)
      → IsBounded w.server
      → IsBounded (update_status ms cl fs w status).server
  unfolding update_status
  update_status-IsBounded w status h = ground arith
