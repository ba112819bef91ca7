-- ===== src/WebDav/Receive.antt =====
-- network-loader/webdavserver.cpp, `ReceiveHeaders`: the header block up to its blank line.
use rapi_bootloader.Base.{
  ℕ, zero, suc, ◌+◌, ◌-◌, Option, none, some, [], ◌∷◌, ◌++◌, ltb, leb, if◌then◌else◌, length, drop,
  Bytes, starts_with,
}
use rapi_bootloader.Sockets.{Sockets}

abbrev pub recv_buf_size : ℕ
recv_buf_size = 4096

abbrev pub blank_line : Bytes
blank_line = b'\r' ∷ b'\n' ∷ b'\r' ∷ b'\n' ∷ []

-- The place of the first blank line, counted from `i`.
unfoldable pub find_blank : ℕ → Bytes → Option ℕ
find_blank i [] = none
find_blank i (c ∷ cs) =
    let later = find_blank (i + 1) cs in if starts_with blank_line (c ∷ cs) then some i else later

-- The inner loop: the search begins three bytes before what has just come.
unfoldable pub search_new : Bytes → Bytes → Option ℕ
unfolding find_blank
search_new old new =
    let from = if leb 3 (length old) then length old - 3 else 0 in
    find_blank from (drop from (old ++ new))

module _ (sk : Sockets) where
  -- The connection, what the buffer holds, and the length of the header block.
  abbrev pub Received : Type 0
  Received = sk.Conn × Bytes × Option ℕ

  unfoldable pub after_search : (sk.Conn → Bytes → Received) → sk.Conn → Bytes → Option ℕ → Received
  after_search loop conn buf (some i) = (conn, buf, some i)
  after_search loop conn buf none = loop conn buf

  unfoldable pub after_receive :
      (sk.Conn → Bytes → Received) → sk.Conn → Bytes → Option Bytes → Received
  unfolding after_search
  after_receive loop conn buf none = (conn, buf, none)
  after_receive loop conn buf (some bytes) =
      after_search loop conn (buf ++ bytes) (search_new buf bytes)

  -- The loop on fuel: each receive gives a byte, so the buffer's size is enough.
  unfoldable pub receive_loop : ℕ → sk.Conn → Bytes → Received
  unfolding after_receive
  receive_loop zero conn buf = (conn, buf, none)
  receive_loop (suc fuel) conn buf =
      let received = sk.receive conn (recv_buf_size - length buf) in
      let after = after_receive (receive_loop fuel) received.0 buf received.1 in
      if ltb (length buf) recv_buf_size then after else (conn, buf, none)

  unfoldable pub receive_headers : sk.Conn → Received
  receive_headers conn = receive_loop recv_buf_size conn []
