-- ===== src/WebDav/Refused.antt =====
-- A PUT whose write buffer cannot be allocated.
use rapi_bootloader.Base.{
  ℕ, zero, suc, ◌-◌, ◌<◌, ◌≡◌, refl, inl, inr, Bool, true, false, Option, none, some, [], arith,
  ltb, ◌==◌, if◌then◌else◌, Bool-cases, length, take, drop, Bytes, codes,
}
use rapi_bootloader.WebDav.Handlers.{DavWorld, reply, do_put, put_at, put_reply}
use rapi_bootloader.WebDav.Upload.{
  Upload, write_put_chunk, take_received, receive_rest, receive_body, receive_file,
}
use rapi_bootloader.WebDav.Receive.{recv_buf_size}
use rapi_bootloader.WebDav.Request.{Request}
use rapi_bootloader.WebDav.Volume.{Volume}
use rapi_bootloader.WebDav.{map_path}
use rapi_bootloader.Sockets.{Sockets}
use rapi_bootloader.FatFs.{FatFs, is_ok, make_parents, fa_write_create_always}

module _ (fs : FatFs) (sk : Sockets) (u : Upload fs) (fresh : u.has_write_buf ≡ false) where
  write_put_chunk_refused : (bytes : Bytes) → write_put_chunk fs false u bytes ≡ (u, false)
  unfolding write_put_chunk
  write_put_chunk_refused bytes = rw fresh refl

  -- The transfer failed, with the upload as it was when the file was opened.
  pub record Fails (done : sk.Conn × Upload fs × Bool) : Type 0 where
    pub as_opened : done.1 ≡ u
    pub refused : done.2 ≡ false

  take_received-Fails :
      (loop : sk.Conn → Upload fs → ℕ → sk.Conn × Upload fs × Bool) (conn : sk.Conn) (remaining : ℕ)
      (received : Option Bytes)
      → Fails (take_received fs sk false loop conn u remaining received)
  unfolding take_received
  take_received-Fails loop conn remaining none = record { as_opened = refl; refused = refl }
  take_received-Fails loop conn remaining (some bytes) =
      rw (write_put_chunk_refused bytes) (record { as_opened = refl; refused = refl })

  receive_rest-Fails :
      (fuel : ℕ) (conn : sk.Conn) (remaining : ℕ)
      → 0 < fuel
      → 0 < remaining
      → Fails (receive_rest fs sk false fuel conn u remaining)
  unfolding receive_rest
  receive_rest-Fails zero conn remaining pos more = absurd (omega (arith, pos))
  receive_rest-Fails (suc fuel) conn remaining pos more =
      let some_left : (remaining == 0) ≡ false = ground (arith, more) in
      let received =
        sk.receive conn (if ltb remaining recv_buf_size then remaining else recv_buf_size) in
      rw some_left
        (take_received-Fails (receive_rest fs sk false fuel) received.0 remaining received.1)

  receive_body-Fails :
      (conn : sk.Conn) (body : Bytes) (n : ℕ)
      → 0 < n
      → Fails (receive_body fs sk false conn u body n)
  unfolding receive_body
  receive_body-Fails conn body n pos =
      let buffered = take n body in
      elim (Bool-cases (ltb 0 (length buffered))) [
        | inl some_bytes ↦
            rw (some_bytes, write_put_chunk_refused buffered)
              (record { as_opened = refl; refused = refl })
        | inr nothing ↦
            let left : 0 < n - length buffered = ground (arith, nothing, pos) in
            rw nothing
              (receive_rest-Fails (n - length buffered) conn (n - length buffered) left left)
      ]

  pub receive_file-Fails :
      (conn : sk.Conn) (body : Bytes) (n : ℕ)
      → 0 < n
      → Fails (receive_file fs sk false conn u body n)
  unfolding receive_file
  receive_file-Fails conn body n pos =
      let fails = receive_body-Fails conn body n pos in
      rw (fails.refused) (record { as_opened = fails.as_opened; refused = refl })

module _ (fs : FatFs) (vol : Volume fs) (sk : Sockets) (format_u : ℕ → Bytes) where
  -- Where the write buffer cannot be allocated, a PUT of a path that maps to the card, whose file can
  -- be opened, with a content length that is not 0: whatever the connection brings, nothing is written
  -- to the file. It is closed as it was opened, and the reply is 500.
  pub do_put-refused :
      (w : DavWorld fs vol sk format_u false) (r : Request) (body path : Bytes)
      → let opened =
          fs.f_open
            (make_parents fs w.card (take 4 path) (drop 4 path))
            path
            fa_write_create_always in
        map_path r.path ≡ some path
        → is_ok opened.1 ≡ true
        → 0 < r.content_length
        → (conn : sk.Conn) × (do_put fs vol sk format_u false w r body
            ≡ reply fs vol sk format_u false
                (record { conn = conn; card = fs.f_close opened.0 opened.2 })
                500
                (codes "Internal Server Error")
                (codes "Write failed"))
  unfolding do_put put_at put_reply
  do_put-refused w r body path mapped opens pos =
      let opened =
        fs.f_open (make_parents fs w.card (take 4 path) (drop 4 path)) path
          fa_write_create_always in
      let upload : Upload fs = record {
        card = opened.0;
        file = opened.2;
        has_write_buf = false;
        write_buf = [];
      } in
      let fails = receive_file-Fails fs sk upload refl w.conn body r.content_length pos in
      let done = receive_file fs sk false w.conn upload body r.content_length in
      (done.0, rw (mapped, opens, fails.refused, fails.as_opened) refl)
