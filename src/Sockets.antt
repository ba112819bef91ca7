-- ===== src/Sockets.antt =====
-- Circle's `CSocket` on an accepted connection, as the servers use it.
use rapi_bootloader.Base.{
  ℕ, ◌≤◌, ◌<◌, ◌≡◌, ◌≢◌, ◌⊎◌, Bool, true, Option, none, some, [], ◌++◌, length, take, Bytes,
}

-- `receive` asks for at most so many bytes; `none` is a result of 0 or less, for a connection that is
-- closed, broken or timed out. `send` says whether its result is not negative.
pub record Sockets : Type 1 where
  pub Conn : Type 0
  pub receive : Conn → ℕ → Conn × Option Bytes
  pub send : Conn → Bytes → Conn × Bool

-- The documented behaviour of a connection that carries a stream: a receive of at least one byte
-- gives the next bytes, at least one and at most as many as asked for, until the stream ends. With less
-- room than a frame takes, data may get lost: that of a frame which does not fit in the buffer it has
-- filled. What comes after a loss is left open.
pub record Streams (sk : Sockets) : Type 0 where
  pub frame_buffer_size : ℕ
  pub rest : sk.Conn → Bytes
  pub ends :
      (c : sk.Conn) (n : ℕ)
      → rest c ≡ []
      → ((sk.receive c n).1 ≡ none) × (rest (sk.receive c n).0 ≡ [])
  pub delivers :
      (c : sk.Conn) (n : ℕ)
      → 0 < n
      → rest c ≢ []
      → (bytes : Bytes) × ((sk.receive c n).1 ≡ some bytes)
        × (0 < length bytes)
        × (length bytes ≤ n)
        × ((bytes ++ rest (sk.receive c n).0 ≡ rest c)
            ⊎ ((n < frame_buffer_size) × (length bytes ≡ n) × (bytes ≡ take n (rest c))))

-- The documented behaviour of sending: what a connection has sent grows by the bytes of a send that
-- succeeds.
pub record SendsInOrder (sk : Sockets) : Type 0 where
  pub sent : sk.Conn → Bytes
  pub sends :
      (c : sk.Conn) (bytes : Bytes)
      → (sk.send c bytes).1 ≡ true
      → sent (sk.send c bytes).0 ≡ sent c ++ bytes
