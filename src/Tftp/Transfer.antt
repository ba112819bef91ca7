-- ===== src/Tftp/Transfer.antt =====
-- network-loader/tftpbootserver.cpp: `FlushWriteBuf`, `FileRead` and `FileWrite`.
use rapi_bootloader.DefaultsBlock.{defaults_buffer_bytes}
use rapi_bootloader.Base.{
  ℕ, ◌+◌, ◌-◌, ◌%◌, ◌^◌, Bool, true, not, ◌&&◌, Option, none, some, ltb, ◌==◌, if◌then◌else◌,
  length, Bytes,
}
use rapi_bootloader.Circle.{MemorySystem, ChainLoader}
use rapi_bootloader.FatFs.{FatFs, is_ok}
use rapi_bootloader.Memory.{read, write}
use rapi_bootloader.Tftp.Buffers.{fnv1a}
use rapi_bootloader.Tftp.{
  Mode, mode_none, mode_kernel, mode_inject, mode_sd_write, mode_sd_read, write_buf_size, TftpWorld,
}

module _ (ms : MemorySystem) (cl : ChainLoader ms.Heap) (fs : FatFs) where
  open ms use {Heap}
  open cl use {Boot}
  open fs use {f_close, f_read, f_write}

  unfoldable pub flush_write_buf : TftpWorld ms cl fs → TftpWorld ms cl fs × Bool
  flush_write_buf w =
      let s = w.server in
      if s.write_buf_fill == 0
      then (w, true)
      else let (card, file, result, written) =
          f_write w.card s.file (read w.machine.memory s.write_buf s.write_buf_fill) in
        (
          record w { card = card; server = record s { file = file; write_buf_fill = 0 } },
          is_ok result && written == s.write_buf_fill,
        )

  read_in : Mode → TftpWorld ms cl fs → ℕ → TftpWorld ms cl fs × Option Bytes
  read_in mode_sd_read w count =
      let (card, file, result, bytes) = f_read w.card w.server.file count in
      let w' = record w { card = card; server = record w.server { file = file } } in
      (w', (if is_ok result then some bytes else none))
  read_in _ w count = (w, none)

  -- `none` is the result -1; otherwise the bytes put into the buffer, whose number is the result.
  unfoldable pub file_read : TftpWorld ms cl fs → ℕ → TftpWorld ms cl fs × Option Bytes
  unfolding read_in
  file_read w count = read_in w.server.mode w count

  write_kernel : TftpWorld ms cl fs → Bytes → TftpWorld ms cl fs × Option ℕ
  write_kernel w block =
      let s = w.server in
      if ltb s.max_kernel_size ((s.current_offset + length block) % 2 ^ 32)
      then (record w { server = record s { mode = mode_none } }, none)
      else (
        record w {
          machine = record w.machine {
            memory = write w.machine.memory (s.kernel_buffer + s.current_offset) block;
          };
          server = record s {
            kernel_hash = fnv1a s.kernel_hash block;
            current_offset = (s.current_offset + length block) % 2 ^ 32;
          };
        },
        some (length block),
      )

  write_inject : TftpWorld ms cl fs → Bytes → TftpWorld ms cl fs × Option ℕ
  write_inject w block =
      let s = w.server in
      if ltb (defaults_buffer_bytes - 1) (s.inject_fill + length block)
      then (record w { server = record s { mode = mode_none } }, none)
      else (
        record w {
          server = record s {
            inject_text = write s.inject_text s.inject_fill block;
            inject_fill = s.inject_fill + length block;
          };
        },
        some (length block),
      )

  -- A failed write ends the transfer and closes the file.
  fail_sd_write : TftpWorld ms cl fs → TftpWorld ms cl fs × Option ℕ
  fail_sd_write w = (
    record w { card = f_close w.card w.server.file; server = record w.server { mode = mode_none } },
    none,
  )

  append_sd_write : TftpWorld ms cl fs → Bytes → TftpWorld ms cl fs × Option ℕ
  append_sd_write w block =
      let s = w.server in
      (
        record w {
          machine = record w.machine {
            memory = write w.machine.memory (s.write_buf + s.write_buf_fill) block;
          };
          server = record s { write_buf_fill = s.write_buf_fill + length block };
        },
        some (length block),
      )

  write_sd : TftpWorld ms cl fs → Bytes → TftpWorld ms cl fs × Option ℕ
  unfolding fail_sd_write append_sd_write
  write_sd w block =
      let (flushed, done) = flush_write_buf w in
      if w.server.write_buf == 0
      then fail_sd_write w
      else if not (ltb write_buf_size (w.server.write_buf_fill + length block))
      then append_sd_write w block
      else if not done
      then fail_sd_write flushed
      else append_sd_write flushed block

  write_in : Mode → TftpWorld ms cl fs → Bytes → TftpWorld ms cl fs × Option ℕ
  unfolding write_kernel write_inject write_sd
  write_in mode_kernel w block = write_kernel w block
  write_in mode_inject w block = write_inject w block
  write_in mode_sd_write w block = write_sd w block
  write_in _ w block = (w, none)

  -- `none` is the result -1; otherwise the number of bytes taken.
  unfoldable pub file_write : TftpWorld ms cl fs → Bytes → TftpWorld ms cl fs × Option ℕ
  unfolding write_in
  file_write w block = write_in w.server.mode w block
