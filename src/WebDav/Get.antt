-- ===== src/WebDav/Get.antt =====
-- What a GET and a HEAD send.
use rapi_bootloader.Base.{
  ℕ, zero, suc, ◌<◌, ◌≡◌, sym, ap, ◌∙◌, subst, inl, inr, Bool, true, false, some, [], ◌++◌, arith,
  ◌==◌, Bool-cases, length, take, drop, length-take, take-drop, length-drop, take_all, Bytes,
}
use rapi_bootloader.WebDav.Written.{no_bytes}
use mathlib.Core.List.{append-nil, append_assoc}
use rapi_bootloader.WebDav.Replies.{get_header}
use rapi_bootloader.WebDav.Receive.{recv_buf_size}
use rapi_bootloader.WebDav.Handlers.{DavWorld, send_file, get_opened, get_at, do_get}
use rapi_bootloader.MenuLoader.Arming.{NeverFails}
use rapi_bootloader.MenuLoader.Staging.{ReadsInOrder}
use rapi_bootloader.WebDav.Request.{Request}
use rapi_bootloader.WebDav.Volume.{Volume}
use rapi_bootloader.WebDav.{map_path}
use rapi_bootloader.Sockets.{Sockets, SendsInOrder}
use rapi_bootloader.FatFs.{FatFs, is_ok, fa_read}

-- What a read of a full buffer says of the bytes that are left.
nothing_read :
    (got rest : Bytes) → got ≡ take recv_buf_size rest → (length got == 0) ≡ true → rest ≡ []
nothing_read got rest e h =
    let empty : length got ≡ 0 = ground (arith, h) in
    no_bytes rest (omega (arith, ap length e ∙ length-take recv_buf_size rest, empty))

last_read :
    (got rest : Bytes)
    → got ≡ take recv_buf_size rest
    → (length got == recv_buf_size) ≡ false
    → got ≡ rest
last_read got rest e h =
    e
    ∙ take_all recv_buf_size rest (ground (arith, ap length e ∙ length-take recv_buf_size rest, h))

full_read :
    (got rest : Bytes) (fuel : ℕ)
    → got ≡ take recv_buf_size rest
    → (length got == recv_buf_size) ≡ true
    → length rest < suc fuel
    → ((length got == 0) ≡ false) × (length (drop recv_buf_size rest) < fuel)
full_read got rest fuel e h enough =
    let count = ap length e ∙ length-take recv_buf_size rest in
    (ground (arith, h), ground (arith, count, h, enough, length-drop recv_buf_size rest))

module _ (fs : FatFs) (reading : ReadsInOrder fs) (vol : Volume fs) (sk : Sockets)
    (sending : SendsInOrder sk) (format_u : ℕ → Bytes) (memory : Bool)
    (reads_all : NeverFails fs reading)
    (sends_all : (c : sk.Conn) (bytes : Bytes) → (sk.send c bytes).1 ≡ true) where
  sent-send_file :
      (fuel : ℕ) (w : DavWorld fs vol sk format_u memory) (file : fs.File)
      → length (reading.rest w.card file) < fuel
      → sending.sent (send_file fs vol sk format_u memory fuel w file).0.conn
        ≡ sending.sent w.conn ++ reading.rest w.card file
  unfolding send_file
  sent-send_file zero w file enough = absurd (omega (arith, enough))
  sent-send_file (suc fuel) w file enough =
      let rest = reading.rest w.card file in
      let got = fs.f_read w.card file recv_buf_size in
      let ok = reads_all w.card file recv_buf_size in
      let (bytes, left) = reading.reads w.card file recv_buf_size ok in
      let whole = ap (λ bs. bs ++ drop recv_buf_size rest) bytes ∙ take-drop recv_buf_size rest in
      let sends = sends_all w.conn got.3 in
      let now = sending.sends w.conn got.3 sends in
      elim (Bool-cases (length got.3 == recv_buf_size)) [
        | inl full ↦
            let (some_bytes, less) = full_read got.3 rest fuel bytes full enough in
            let next : DavWorld fs vol sk format_u memory = record {
              conn = (sk.send w.conn got.3).0;
              card = got.0;
            } in
            let more =
              sent-send_file fuel next got.1 (subst (λ bs. length bs < fuel) (sym left) less) in
            rw (ok, some_bytes, sends, full)
              (more
                ∙ ap (λ bs. sending.sent next.conn ++ bs) left
                ∙ ap (λ (bs : Bytes). bs ++ drop recv_buf_size rest) now
                ∙ append_assoc (sending.sent w.conn) got.3 (drop recv_buf_size rest)
                ∙ ap (λ bs. sending.sent w.conn ++ bs) whole)
        | inr last ↦ elim (Bool-cases (length got.3 == 0)) [
          | inl none_left ↦
              rw (ok, none_left, last)
                (sym (
                  ap (λ bs. sending.sent w.conn ++ bs) (nothing_read got.3 rest bytes none_left)
                  ∙ append-nil (sending.sent w.conn)))
          | inr some_bytes ↦
              rw (ok, some_bytes, sends, last)
                (now ∙ ap (λ bs. sending.sent w.conn ++ bs) (last_read got.3 rest bytes last))
        ]
      ]

  -- If a path maps to a file of the card that can be opened, and neither reads nor sends fail, a GET
  -- sends a header with the file's size and then the file's bytes in order, no matter how long the
  -- file is, and a HEAD sends the same header and nothing else.
  pub sent-do_get :
      (w : DavWorld fs vol sk format_u memory) (r : Request) (path : Bytes)
      → map_path r.path ≡ some path
      → is_ok (vol.f_stat w.card path).0 ≡ true
      → (vol.f_stat w.card path).1.is_dir ≡ false
      → is_ok (fs.f_open w.card path fa_read).1 ≡ true
      → let opened = fs.f_open w.card path fa_read in
        let header = get_header format_u (vol.f_stat w.card path).1.fsize in
        (sending.sent (do_get fs vol sk format_u memory false w r).conn
          ≡ (sending.sent w.conn ++ header) ++ reading.rest opened.0 opened.2)
        × (sending.sent (do_get fs vol sk format_u memory true w r).conn
            ≡ sending.sent w.conn ++ header)
  unfolding do_get get_at get_opened
  sent-do_get w r path mapped stat file opens =
      let opened = fs.f_open w.card path fa_read in
      let header = get_header format_u (vol.f_stat w.card path).1.fsize in
      let headed = sending.sends w.conn header (sends_all w.conn header) in
      let replied : DavWorld fs vol sk format_u memory = record {
        conn = (sk.send w.conn header).0;
        card = opened.0;
      } in
      let body =
        sent-send_file (suc (fs.f_size opened.2)) replied opened.2
          (omega (arith, reading.sizes w.card path opens)) in
      (
        rw (mapped, stat, file, opens, get_opened, sends_all w.conn header)
            (body ∙ ap (λ bs. bs ++ reading.rest opened.0 opened.2) headed),
        rw (mapped, stat, file, opens, get_opened, sends_all w.conn header) headed,
      )
