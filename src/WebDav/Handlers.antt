-- ===== src/WebDav/Handlers.antt =====
-- network-loader/webdavserver.cpp: the handlers of the methods, and the worker that chooses one.
use rapi_bootloader.Base.{
  ℕ, zero, suc, ◌+◌, Bool, true, false, not, ◌&&◌, Option, none, some, [], ◌++◌, ◌==◌,
  if◌then◌else◌, length, take, drop, Bytes, codes, equal,
}
use rapi_bootloader.WebDav.Upload.{receive_file, Upload}
use rapi_bootloader.WebDav.Replies.{
  crlf, options_header, xml_start, get_header, propfind_entry, child_entries, send_simple_response,
}
use rapi_bootloader.WebDav.Request.{Request, parse_request}
use rapi_bootloader.WebDav.Volume.{Volume}
use rapi_bootloader.WebDav.{map_path}
use rapi_bootloader.WebDav.Receive.{recv_buf_size, Received, receive_headers}
use rapi_bootloader.Sockets.{Sockets}
use rapi_bootloader.FatFs.{
  FatFs, FResult, fr_ok, fr_no_file, fr_no_path, fr_denied, fr_exist, is_ok, fa_read,
  fa_write_create_always, make_parents,
}

module _ (fs : FatFs) (vol : Volume fs) (sk : Sockets) (format_u : ℕ → Bytes) (memory : Bool) where
  -- What a connection's worker changes.
  pub record DavWorld : Type 0 where
    pub conn : sk.Conn
    pub card : fs.Card

  abbrev pub reply : DavWorld → ℕ → Bytes → Bytes → DavWorld
  reply w status reason body = record w {
    conn = send_simple_response format_u sk w.conn status reason (codes "text/plain") body;
  }

  -- `DoOptions`
  unfoldable pub do_options : DavWorld → DavWorld
  do_options w = record w { conn = (sk.send w.conn options_header).0 }

  -- The multistatus document.
  unfoldable pub listing : fs.Card → Request → Bytes → Bool → ℕ → Bytes
  listing card r sd_path is_dir size =
      let dir = vol.f_opendir card sd_path in
      let base = r.path ++ (if equal r.path (codes "/") then [] else codes "/") in
      xml_start
      ++ propfind_entry format_u r.path is_dir size
      ++ (if is_dir && (not (r.depth == 0) && is_ok dir.0)
          then child_entries format_u base dir.1
          else [])
      ++ codes "</D:multistatus>"
      ++ crlf

  unfoldable pub send_listing : DavWorld → Request → Bytes → Bool → ℕ → DavWorld
  unfolding listing
  send_listing w r sd_path is_dir size = record w {
    conn =
        send_simple_response format_u sk w.conn 207 (codes "Multi-Status")
          (codes "text/xml; charset=\"utf-8\"") (listing w.card r sd_path is_dir size);
  }

  unfoldable pub propfind_at : DavWorld → Request → Option Bytes → DavWorld
  unfolding send_listing
  propfind_at w r none = reply w 403 (codes "Forbidden") (codes "Invalid path")
  propfind_at w r (some sd_path) =
      let stat = vol.f_stat w.card sd_path in
      if equal r.path (codes "/")
      then send_listing w r sd_path true 0
      else if is_ok stat.0
      then send_listing w r sd_path stat.1.is_dir stat.1.fsize
      else reply w 404 (codes "Not Found") (codes "Not found")

  -- `DoPropfind`
  unfoldable pub do_propfind : DavWorld → Request → DavWorld
  unfolding propfind_at
  do_propfind w r = propfind_at w r (map_path r.path)

  -- The loop that sends a file on fuel: each turn but the last reads a full buffer, so the size of
  -- the file is enough.
  unfoldable pub send_file : ℕ → DavWorld → fs.File → DavWorld × fs.File
  send_file zero w file = (w, file)
  send_file (suc fuel) w file =
      let got = fs.f_read w.card file recv_buf_size in
      let read = record w { card = got.0 } in
      let sent = sk.send w.conn got.3 in
      let next = if length got.3 == 0 then read else record read { conn = sent.0 } in
      let rest = send_file fuel next got.1 in
      if not (is_ok got.2)
      then (read, got.1)
      else if not (length got.3 == 0) && not sent.1
      then (next, got.1)
      else if length got.3 == recv_buf_size
      then rest
      else (next, got.1)

  unfoldable pub get_opened : Bool → DavWorld → fs.File → ℕ → DavWorld
  unfolding send_file
  get_opened head_only w file size =
      let sent = sk.send w.conn (get_header format_u size) in
      let replied = record w { conn = sent.0 } in
      let done =
        if sent.1 && not head_only
        then send_file (suc (fs.f_size file)) replied file
        else (replied, file) in
      record done.0 { card = fs.f_close done.0.card done.1 }

  unfoldable pub get_at : Bool → DavWorld → Option Bytes → DavWorld
  unfolding get_opened
  get_at head_only w none = reply w 403 (codes "Forbidden") (codes "Invalid path")
  get_at head_only w (some sd_path) =
      let stat = vol.f_stat w.card sd_path in
      let opened = fs.f_open w.card sd_path fa_read in
      if not (is_ok stat.0)
      then reply w 404 (codes "Not Found") (codes "Not found")
      else if stat.1.is_dir
      then reply w 405 (codes "Method Not Allowed")
          (codes "GET is for files -- PROPFIND lists collections")
      else if not (is_ok opened.1)
      then reply (record w { card = opened.0 }) 500 (codes "Internal Server Error")
          (codes "Cannot open file")
      else get_opened head_only (record w { card = opened.0 }) opened.2 stat.1.fsize

  -- `DoGet`
  unfoldable pub do_get : Bool → DavWorld → Request → DavWorld
  unfolding get_at
  do_get head_only w r = get_at head_only w (map_path r.path)

  -- The reply at the end of `DoPut`.
  unfoldable pub put_reply : DavWorld → Bool → Bool → DavWorld
  put_reply w ok existed =
      if not ok
      then reply w 500 (codes "Internal Server Error") (codes "Write failed")
      else if existed
      then reply w 204 (codes "No Content") []
      else reply w 201 (codes "Created") []

  unfoldable pub put_at : DavWorld → Request → Bytes → Option Bytes → DavWorld
  unfolding put_reply
  put_at w r body none = reply w 403 (codes "Forbidden") (codes "Invalid path")
  put_at w r body (some sd_path) =
      let card = make_parents fs w.card (take 4 sd_path) (drop 4 sd_path) in
      let existed = is_ok (vol.f_stat card sd_path).0 in
      let opened = fs.f_open card sd_path fa_write_create_always in
      let upload : Upload fs = record {
        card = opened.0;
        file = opened.2;
        has_write_buf = false;
        write_buf = [];
      } in
      let (conn, u, ok) = receive_file fs sk memory w.conn upload body r.content_length in
      if not (is_ok opened.1)
      then reply (record w { card = opened.0 }) 409 (codes "Conflict") (codes "Cannot create file")
      else put_reply (record { conn = conn; card = fs.f_close u.card u.file }) ok existed

  -- `DoPut`
  unfoldable pub do_put : DavWorld → Request → Bytes → DavWorld
  unfolding put_at
  do_put w r body = put_at w r body (map_path r.path)

  unfoldable pub delete_reply : DavWorld → FResult → DavWorld
  delete_reply w fr_ok = reply w 204 (codes "No Content") []
  delete_reply w fr_no_file = reply w 404 (codes "Not Found") (codes "Not found")
  delete_reply w fr_no_path = reply w 404 (codes "Not Found") (codes "Not found")
  delete_reply w fr_denied = reply w 409 (codes "Conflict") (codes "Directory not empty")
  delete_reply w _ = reply w 500 (codes "Internal Server Error") (codes "Delete failed")

  unfoldable pub delete_at : DavWorld → Request → Option Bytes → DavWorld
  unfolding delete_reply
  delete_at w r none = reply w 403 (codes "Forbidden") (codes "Cannot delete the DAV root")
  delete_at w r (some sd_path) =
      let removed = vol.f_unlink w.card sd_path in
      if equal r.path (codes "/")
      then reply w 403 (codes "Forbidden") (codes "Cannot delete the DAV root")
      else delete_reply (record w { card = removed.0 }) removed.1

  -- `DoDelete`
  unfoldable pub do_delete : DavWorld → Request → DavWorld
  unfolding delete_at
  do_delete w r = delete_at w r (map_path r.path)

  unfoldable pub mkcol_reply : DavWorld → FResult → DavWorld
  mkcol_reply w fr_ok = reply w 201 (codes "Created") []
  mkcol_reply w fr_exist = reply w 405 (codes "Method Not Allowed") (codes "Already exists")
  mkcol_reply w fr_no_path = reply w 409 (codes "Conflict") (codes "Parent does not exist")
  mkcol_reply w _ = reply w 500 (codes "Internal Server Error") (codes "MKCOL failed")

  unfoldable pub mkcol_at : DavWorld → Option Bytes → DavWorld
  unfolding mkcol_reply
  mkcol_at w none = reply w 403 (codes "Forbidden") (codes "Invalid path")
  mkcol_at w (some sd_path) =
      let made = fs.f_mkdir w.card sd_path in mkcol_reply (record w { card = made.0 }) made.1

  -- `DoMkcol`
  unfoldable pub do_mkcol : DavWorld → Request → DavWorld
  unfolding mkcol_at
  do_mkcol w r = mkcol_at w (map_path r.path)

  -- The choice of `Worker`.
  unfoldable pub dispatch : DavWorld → Request → Bytes → DavWorld
  dispatch w r body =
      if equal r.method (codes "OPTIONS")
      then do_options w
      else if equal r.method (codes "GET")
      then do_get false w r
      else if equal r.method (codes "HEAD")
      then do_get true w r
      else if equal r.method (codes "PUT")
      then do_put w r body
      else if equal r.method (codes "DELETE")
      then do_delete w r
      else if equal r.method (codes "MKCOL")
      then do_mkcol w r
      else if equal r.method (codes "PROPFIND")
      then do_propfind w r
      else reply w 501 (codes "Method Not Implemented") (codes "Unsupported method")

  unfoldable pub serve_parsed : DavWorld → Option Request → Bytes → DavWorld
  unfolding dispatch
  serve_parsed w none body = reply w 400 (codes "Bad Request") (codes "Malformed request")
  serve_parsed w (some r) body = dispatch w r body

  unfoldable pub serve_received : fs.Card → Received sk → DavWorld
  unfolding serve_parsed
  serve_received card (conn, buf, none) = record { conn = conn; card = card }
  serve_received card (conn, buf, some n) =
      serve_parsed (record { conn = conn; card = card }) (parse_request (take n buf))
        (drop (n + 4) buf)

  -- `Worker`
  unfoldable pub worker : DavWorld → DavWorld
  unfolding serve_received
  worker w = serve_received w.card (receive_headers sk w.conn)
