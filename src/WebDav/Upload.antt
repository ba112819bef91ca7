-- ===== src/WebDav/Upload.antt =====
-- network-loader/webdavserver.cpp: the body of a PUT on its way to the card.
use rapi_bootloader.Base.{
  ℕ, zero, suc, ◌-◌, Bool, true, false, not, ◌&&◌, Option, none, some, [], ◌++◌, ltb, ◌==◌,
  if◌then◌else◌, length, take, drop, Bytes,
}
use rapi_bootloader.WebDav.Receive.{recv_buf_size}
use rapi_bootloader.Sockets.{Sockets}
use rapi_bootloader.FatFs.{FatFs, is_ok}

abbrev pub write_buf_size : ℕ
write_buf_size = 1048576

module _ (fs : FatFs) where
  -- The open file and the write buffer up to its fill; no buffer before the first use.
  pub record Upload : Type 0 where
    pub card : fs.Card
    pub file : fs.File
    pub has_write_buf : Bool
    pub write_buf : Bytes

  -- `FlushPutBuf`
  unfoldable pub flush_put_buf : Upload → Upload × Bool
  flush_put_buf u =
      let w = fs.f_write u.card u.file u.write_buf in
      if length u.write_buf == 0 then (u, true) else (
        record u { card = w.0; file = w.1; write_buf = [] },
        is_ok w.2 && w.3 == length u.write_buf,
      )

  -- The loop of `WritePutChunk` on fuel: each turn takes a byte, so the length of the data is enough.
  unfoldable pub copy_chunk : ℕ → Upload → Bytes → Upload × Bool
  unfolding flush_put_buf
  copy_chunk zero u bytes = (u, true)
  copy_chunk (suc fuel) u bytes =
      let space = write_buf_size - length u.write_buf in
      let n = if ltb (length bytes) space then length bytes else space in
      let filled = record u { write_buf = u.write_buf ++ take n bytes } in
      let full = length filled.write_buf == write_buf_size in
      let flushed = flush_put_buf filled in
      let rest = copy_chunk fuel (if full then flushed.0 else filled) (drop n bytes) in
      if length bytes == 0
      then (u, true)
      else if full && not flushed.1
      then (flushed.0, false)
      else rest

  -- `WritePutChunk`, where `memory` says whether `new` has memory for the buffer.
  unfoldable pub write_put_chunk : Bool → Upload → Bytes → Upload × Bool
  unfolding copy_chunk
  write_put_chunk memory u bytes =
      if not u.has_write_buf && not memory
      then (u, false)
      else copy_chunk (length bytes) (record u { has_write_buf = true }) bytes

  module _ (sk : Sockets) (memory : Bool) where
    unfoldable pub take_received :
        (sk.Conn → Upload → ℕ → sk.Conn × Upload × Bool)
        → sk.Conn
        → Upload
        → ℕ
        → Option Bytes
        → sk.Conn × Upload × Bool
    unfolding write_put_chunk
    take_received loop conn u remaining none = (conn, u, false)
    take_received loop conn u remaining (some bytes) =
        let written = write_put_chunk memory u bytes in
        let rest = loop conn written.0 (remaining - length bytes) in
        if written.1 then rest else (conn, written.0, false)

    -- The loop of `DoPut` on fuel: each receive gives a byte, so the content length is enough.
    unfoldable pub receive_rest : ℕ → sk.Conn → Upload → ℕ → sk.Conn × Upload × Bool
    unfolding take_received
    receive_rest zero conn u remaining = (conn, u, true)
    receive_rest (suc fuel) conn u remaining =
        let n = if ltb remaining recv_buf_size then remaining else recv_buf_size in
        let received = sk.receive conn n in
        let after = take_received (receive_rest fuel) received.0 u remaining received.1 in
        if remaining == 0 then (conn, u, true) else after

    -- What came with the headers, as far as it belongs to the body, and then the rest.
    unfoldable pub receive_body : sk.Conn → Upload → Bytes → ℕ → sk.Conn × Upload × Bool
    unfolding receive_rest
    receive_body conn u body content_length =
        let buffered = take content_length body in
        let written =
          if ltb 0 (length buffered) then write_put_chunk memory u buffered else (u, true) in
        let remaining = content_length - length buffered in
        let rest = receive_rest remaining conn written.0 remaining in
        if written.1 then rest else (conn, written.0, false)

    -- The part of `DoPut` between opening and closing the file.
    unfoldable pub receive_file : sk.Conn → Upload → Bytes → ℕ → sk.Conn × Upload × Bool
    unfolding receive_body
    receive_file conn u body content_length =
        let (conn', u', ok) = receive_body conn u body content_length in
        let flushed = flush_put_buf u' in
        if ok then (conn', flushed.0, flushed.1) else (conn', u', false)
