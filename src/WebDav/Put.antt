-- ===== src/WebDav/Put.antt =====
-- A PUT, from the connection to the reply.
use rapi_bootloader.Base.{
  ℕ, ◌+◌, ◌≤◌, ◌≡◌, refl, sym, ap, ◌∙◌, subst, inl, inr, Bool, true, false, some, [], ◌++◌, arith,
  length, take, drop, take-append_short, drop-append_short, Bytes, codes, equal,
}
use rapi_bootloader.WebDav.Headers.{find_blank_place, receive_headers-Found}
use rapi_bootloader.WebDav.Receive.{recv_buf_size, find_blank, receive_headers}
use rapi_bootloader.WebDav.Handlers.{
  DavWorld, put_reply, put_at, do_put, dispatch, serve_parsed, serve_received, worker,
}
use rapi_bootloader.WebDav.Body.{contents-receive_file}
use rapi_bootloader.WebDav.Written.{WritesAll}
use rapi_bootloader.WebDav.Upload.{Upload, receive_file}
use rapi_bootloader.WebDav.Request.{Request, parse_request}
use rapi_bootloader.WebDav.Volume.{Volume}
use rapi_bootloader.WebDav.{map_path}
use rapi_bootloader.Sockets.{Sockets, Streams}
use rapi_bootloader.Tftp.SdWrite.{WritesAppend}
use rapi_bootloader.FatFs.{FatFs, is_ok, make_parents, fa_write_create_always}

take_beginning :
    (n : ℕ) (a b whole : Bytes) → n ≤ length a → a ++ b ≡ whole → take n a ≡ take n whole
take_beginning n a b whole h e = sym (take-append_short n a b h) ∙ ap (take n) e

drop_beginning :
    (n : ℕ) (a b whole : Bytes) → n ≤ length a → a ++ b ≡ whole → drop n a ++ b ≡ drop n whole
drop_beginning n a b whole h e = sym (drop-append_short n a b h) ∙ ap (drop n) e

module _ (fs : FatFs) (law : WritesAppend fs) (good : WritesAll fs law) (vol : Volume fs)
    (sk : Sockets) (stream : Streams sk) (format_u : ℕ → Bytes) where
  -- The card after the directories of a path, and whether the file was there.
  abbrev prepared : fs.Card → Bytes → fs.Card
  prepared card path = make_parents fs card (take 4 path) (drop 4 path)

  abbrev pub existed : fs.Card → Bytes → Bool
  existed card path = is_ok (vol.f_stat (prepared card path) path).0

  -- The file can be created, and is empty then.
  pub record Creates (card : fs.Card) (path : Bytes) : Type 0 where
    pub opens : is_ok (fs.f_open (prepared card path) path fa_write_create_always).1 ≡ true
    pub truncates :
        let opened = fs.f_open (prepared card path) path fa_write_create_always in
        law.contents opened.0 opened.2 ≡ []

  -- The world after a file with these bytes is closed and the reply sent.
  pub record Stored (path body : Bytes) (w w' : DavWorld fs vol sk format_u true) : Type 0 where
    pub card : fs.Card
    pub file : fs.File
    pub conn : sk.Conn
    pub stored : law.contents card file ≡ body
    pub replied :
        w'
        ≡ put_reply fs vol sk format_u true
            (record { conn = conn; card = fs.f_close card file })
            true
            (existed w.card path)

  do_put-Stored :
      (w : DavWorld fs vol sk format_u true) (r : Request) (body path : Bytes)
      → map_path r.path ≡ some path
      → Creates w.card path
      → stream.frame_buffer_size ≤ recv_buf_size
      → r.content_length ≤ length (body ++ stream.rest w.conn)
      → Stored path
          (take r.content_length (body ++ stream.rest w.conn))
          w
          (do_put fs vol sk format_u true w r body)
  unfolding do_put put_at
  do_put-Stored w r body path mapped creates frame there =
      let opened = fs.f_open (prepared w.card path) path fa_write_create_always in
      let upload : Upload fs = record {
        card = opened.0;
        file = opened.2;
        has_write_buf = false;
        write_buf = [];
      } in
      let (ok, stored) =
        contents-receive_file fs law good sk stream frame w.conn upload body r.content_length there
          refl in
      let done = receive_file fs sk true w.conn upload body r.content_length in
      record {
        card = done.1.card;
        file = done.1.file;
        conn = done.0;
        stored =
            stored
            ∙ ap (λ (bs : Bytes). bs ++ take r.content_length (body ++ stream.rest w.conn))
                creates.truncates;
        replied = rw (mapped, creates.opens, ok) refl;
      }

  worker-dispatch :
      (w : DavWorld fs vol sk format_u true) (i : ℕ) (r : Request)
      → find_blank 0 (take recv_buf_size (stream.rest w.conn)) ≡ some i
      → i + 4 + stream.frame_buffer_size ≤ recv_buf_size
      → parse_request (take i (stream.rest w.conn)) ≡ some r
      → let received = receive_headers sk w.conn in
        (worker fs vol sk format_u true w
          ≡ dispatch fs vol sk format_u true
              (record { conn = received.0; card = w.card })
              r
              (drop (i + 4) received.1))
        × (drop (i + 4) received.1 ++ stream.rest received.0 ≡ drop (i + 4) (stream.rest w.conn))
  unfolding worker serve_received serve_parsed
  worker-dispatch w i r blank early parsed =
      let found = receive_headers-Found sk stream w.conn in
      let received = receive_headers sk w.conn in
      let at : received.2 ≡ some i = found.found ∙ blank in
      let place = find_blank_place 0 i received.1 (found.searched ∙ at) in
      let kept : received.1 ++ stream.rest received.0 ≡ stream.rest w.conn = elim found.kept [
        | inl all ↦ all
        | inr (full, late) ↦ absurd (omega (arith, late i at, early))
      ] in
      let header =
        take_beginning i received.1 (stream.rest received.0) (stream.rest w.conn)
          (omega (arith, place)) kept in
      let parsed_there : parse_request (take i received.1) ≡ some r =
        ap parse_request header ∙ parsed in
      (
        rw (at, parsed_there) refl,
        drop_beginning (i + 4) received.1 (stream.rest received.0) (stream.rest w.conn)
            (omega (arith, place)) kept,
      )

  dispatch-do_put :
      (w : DavWorld fs vol sk format_u true) (r : Request) (body : Bytes)
      → r.method ≡ codes "PUT"
      → dispatch fs vol sk format_u true w r body ≡ do_put fs vol sk format_u true w r body
  unfolding dispatch equal
  dispatch-do_put w r body h = rw h refl

  -- For a connection that carries a stream, let its first blank line leave room for a frame of Circle
  -- in the receive buffer of 4096 bytes, let the bytes before it parse as a PUT of a path that maps to
  -- the card, and let as many bytes follow it as the content length says. If the file can be created,
  -- the write buffer can be allocated and the card refuses no write, the worker closes a file that
  -- holds exactly those bytes, however the stream is cut into segments, and replies 204 or 201 by
  -- whether the file was there before.
  pub worker-Stored :
      (w : DavWorld fs vol sk format_u true) (i : ℕ) (r : Request) (path : Bytes)
      → find_blank 0 (take recv_buf_size (stream.rest w.conn)) ≡ some i
      → i + 4 + stream.frame_buffer_size ≤ recv_buf_size
      → parse_request (take i (stream.rest w.conn)) ≡ some r
      → r.method ≡ codes "PUT"
      → map_path r.path ≡ some path
      → r.content_length ≤ length (drop (i + 4) (stream.rest w.conn))
      → Creates w.card path
      → Stored path
          (take r.content_length (drop (i + 4) (stream.rest w.conn)))
          w
          (worker fs vol sk format_u true w)
  worker-Stored w i r path blank early parsed method mapped there creates =
      let received = receive_headers sk w.conn in
      let body = drop (i + 4) received.1 in
      let (chosen, whole) = worker-dispatch w i r blank early parsed in
      let start : DavWorld fs vol sk format_u true = record { conn = received.0; card = w.card } in
      let put =
        do_put-Stored start r body path mapped creates (omega (arith, early))
          (subst (λ bs. r.content_length ≤ length bs) (sym whole) there) in
      record {
        card = put.card;
        file = put.file;
        conn = put.conn;
        stored = put.stored ∙ ap (take r.content_length) whole;
        replied = chosen ∙ dispatch-do_put start r body method ∙ put.replied;
      }
