-- ===== src/Tests/DavServer.antt =====
-- The WebDAV server over a connection that is the bytes to come and the bytes sent.
use rapi_bootloader.Base.{
  ℕ, zero, suc, ◌≤◌, ◌<◌, ◌≡◌, refl, ◌∙◌, ◌≢◌, ◌⊎◌, inl, inr, true, false, Option, none, some, [],
  ◌∷◌, ◌++◌, arith, ltb, leb, if◌then◌else◌, Bool-cases, length, take, drop, length-take, take-drop,
  take_all, Bytes, codes, equal, starts_with,
}
use mathlib.Core.List.{append-nil}
use rapi_bootloader.TextScan.{index_of}
use rapi_bootloader.BootMenu.{c_str}
use rapi_bootloader.WebDav.Replies.{crlf, get_header}
use rapi_bootloader.MenuLoader.Staging.{ReadsInOrder}
use rapi_bootloader.WebDav.Get.{sent-do_get}
use rapi_bootloader.WebDav.Confined.{IsConfined, worker-IsConfined}
use rapi_bootloader.WebDav.Put.{Stored, worker-Stored}
use rapi_bootloader.WebDav.Refused.{do_put-refused}
use rapi_bootloader.WebDav.Headers.{Found, receive_headers-Found}
use rapi_bootloader.WebDav.Receive.{recv_buf_size, find_blank, receive_headers}
use rapi_bootloader.WebDav.Handlers.{DavWorld, reply, do_get, do_put, worker}
use rapi_bootloader.WebDav.Request.{Request, parse_request}
use rapi_bootloader.WebDav.Volume.{Volume}
use rapi_bootloader.WebDav.{map_path, has_dot_dot, url_decode, skip_spaces}
use rapi_bootloader.Sockets.{Sockets, Streams, SendsInOrder}
use rapi_bootloader.Tests.Board.{card, card-WritesAppend}
use rapi_bootloader.FatFs.{FatFs, make_parents, fr_ok, fr_no_file, fr_no_path}

abbrev received : ℕ → Bytes → Option Bytes
received n [] = none
received n (c ∷ cs) = some (take n (c ∷ cs))

-- A frame has five bytes: with less room, what does not fit of the five is lost.
abbrev left_by : ℕ → Bytes → Bytes
left_by n bytes = if ltb n 5 then drop 5 bytes else drop n bytes

abbrev wire : Sockets
wire = record {
  Conn = Bytes × Bytes;
  receive = λ c n. ((left_by n c.0, c.1), received n c.0);
  send = λ c bytes. ((c.0, c.1 ++ bytes), true);
}

drop_all : (n : ℕ) (bytes : Bytes) → length bytes ≤ n → drop n bytes ≡ []
drop_all zero [] h = refl
drop_all (suc n) [] h = refl
drop_all zero (c ∷ cs) h = absurd (omega (arith, h))
drop_all (suc n) (c ∷ cs) h = drop_all n cs (omega (arith, h))

wire_ends :
    (n : ℕ) (bytes : Bytes) → bytes ≡ [] → (received n bytes ≡ none) × (left_by n bytes ≡ [])
wire_ends n [] h = elim (Bool-cases (ltb n 5)) [
  | inl less ↦ rw less (refl, drop_all 5 [] (omega arith))
  | inr room ↦ rw room (refl, drop_all n [] (omega arith))
]
wire_ends n (c ∷ cs) h = absurd (ground (arith, h))

wire_delivers :
    (n : ℕ) (whole : Bytes)
    → 0 < n
    → whole ≢ []
    → (bytes : Bytes) × (received n whole ≡ some bytes)
      × (0 < length bytes)
      × (length bytes ≤ n)
      × ((bytes ++ left_by n whole ≡ whole)
          ⊎ ((n < 5) × (length bytes ≡ n) × (bytes ≡ take n whole)))
wire_delivers n [] pos some_left = absurd (some_left refl)
wire_delivers n (c ∷ cs) pos some_left = (
  take n (c ∷ cs),
  refl,
  omega (arith, length-take n (c ∷ cs), pos),
  omega (arith, length-take n (c ∷ cs)),
  elim (Bool-cases (ltb n 5)) [
    | inr room ↦ inl (rw room (take-drop n (c ∷ cs)))
    | inl less ↦ elim (Bool-cases (leb n (length (c ∷ cs)))) [
      | inl long ↦ inr (ground (arith, less), ground (arith, long, length-take n (c ∷ cs)), refl)
      | inr short ↦
          let fits : length (c ∷ cs) ≤ n = ground (arith, short) in
          let nothing = drop_all 5 (c ∷ cs) (ground (arith, less, fits)) in
          inl (rw (less, nothing) (append-nil (take n (c ∷ cs)) ∙ take_all n (c ∷ cs) fits))
    ]
  ],
)

abbrev wire-Streams : Streams wire
wire-Streams = record {
  frame_buffer_size = 5;
  rest = λ c. c.0;
  ends = λ c n h. wire_ends n c.0 h;
  delivers = λ c n pos some_left. wire_delivers n c.0 pos some_left;
}

abbrev wire-SendsInOrder : SendsInOrder wire
wire-SendsInOrder = record { sent = λ c. c.1; sends = λ c bytes h. refl }

abbrev volume : Volume card
volume = record {
  f_stat = λ c path. (fr_no_file, record { fname = []; fsize = 0; is_dir = false });
  f_opendir = λ c path. (fr_no_path, []);
  f_unlink = λ c path. (c, fr_ok);
}

-- Numbers as one byte each.
abbrev one_byte : ℕ → Bytes
one_byte n = n ∷ []

abbrev header : Bytes
header = codes "PUT /a HTTP/1.1" ++ crlf ++ codes "Content-Length: 2"

abbrev stream : Bytes
stream = header ++ crlf ++ crlf ++ codes "hi"

abbrev upload : Request
upload = record { method = codes "PUT"; path = codes "/a"; content_length = 2; depth = 1 }

header_end : find_blank 0 (take recv_buf_size stream) ≡ some 34
unfolding find_blank starts_with
header_end = refl

header_parsed : parse_request (take 34 stream) ≡ some upload
unfolding parse_request c_str starts_with index_of url_decode skip_spaces
header_parsed = refl

upload_mapped : map_path (codes "/a") ≡ some (codes "SD:/a")
unfolding map_path has_dot_dot starts_with equal
upload_mapped = refl

receive_headers-Found_example : Found wire wire-Streams stream (receive_headers wire (stream, []))
receive_headers-Found_example = receive_headers-Found wire wire-Streams (stream, [])

abbrev connected : DavWorld card volume wire one_byte true
connected = record { conn = (stream, []); card = 0 }

worker-Stored_example :
    Stored card card-WritesAppend
      (λ c f bs. (refl, refl))
      volume
      wire
      wire-Streams
      one_byte
      (codes "SD:/a")
      (codes "hi")
      connected
      (worker card volume wire one_byte true connected)
worker-Stored_example =
    worker-Stored card card-WritesAppend (λ c f bs. (refl, refl)) volume wire wire-Streams one_byte
      connected 34 upload (codes "SD:/a") header_end (omega arith) header_parsed refl upload_mapped
      (omega arith) (record { opens = refl; truncates = refl })

-- The same connection where there is no memory for the write buffer.
abbrev without_memory : DavWorld card volume wire one_byte false
without_memory = record { conn = (stream, []); card = 0 }

do_put-refused_example :
    (conn : Bytes × Bytes) × (do_put card volume wire one_byte false without_memory upload
        (codes "hi")
      ≡ reply card volume wire one_byte false
          (record { conn = conn; card = make_parents card 0 (codes "SD:/") (codes "a") })
          500
          (codes "Internal Server Error")
          (codes "Write failed"))
do_put-refused_example =
    do_put-refused card volume wire one_byte without_memory upload (codes "hi") (codes "SD:/a")
      upload_mapped refl (omega arith)

worker-IsConfined_example :
    ((worker card volume wire one_byte true connected).card ≡ 0)
    ⊎ ((n : ℕ) × (r : Request) × (sd_path : Bytes) × ((receive_headers wire (stream, [])).2
          ≡ some n)
        × (parse_request (take n (receive_headers wire (stream, [])).1) ≡ some r)
        × (map_path r.path ≡ some sd_path)
        × IsConfined sd_path)
worker-IsConfined_example = worker-IsConfined card volume wire one_byte true connected

-- A card with one file, which is open at its start.
abbrev one_file : FatFs
one_file = record {
  Card = Bytes;
  File = Bytes;
  ff_max_lfn = 255;
  f_open = λ c path mode. (c, fr_ok, c);
  f_close = λ c f. c;
  f_size = λ f. length f;
  f_read = λ c f n. (c, drop n f, fr_ok, take n f);
  f_write = λ c f bs. (c, f, fr_ok, 0);
  f_mkdir = λ c path. (c, fr_ok);
}

abbrev one_file-ReadsInOrder : ReadsInOrder one_file
one_file-ReadsInOrder = record {
  rest = λ c f. f;
  reads = λ c f n ok. (refl, refl);
  sizes = λ c path ok. refl;
}

abbrev one_file_volume : Volume one_file
one_file_volume = record {
  f_stat = λ c path. (fr_ok, record { fname = []; fsize = length c; is_dir = false });
  f_opendir = λ c path. (fr_no_path, []);
  f_unlink = λ c path. (c, fr_ok);
}

abbrev asked : DavWorld one_file one_file_volume wire one_byte true
asked = record { conn = ([], []); card = codes "hello" }

sent-do_get_example :
    ((do_get one_file one_file_volume wire one_byte true false asked upload).conn.1
      ≡ get_header one_byte 5 ++ codes "hello")
    × ((do_get one_file one_file_volume wire one_byte true true asked upload).conn.1
        ≡ get_header one_byte 5)
sent-do_get_example =
    sent-do_get one_file one_file-ReadsInOrder one_file_volume wire wire-SendsInOrder one_byte true
      (λ c f n. refl) (λ c bytes. refl) asked upload (codes "SD:/a") upload_mapped refl refl refl
