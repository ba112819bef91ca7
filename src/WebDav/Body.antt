-- ===== src/WebDav/Body.antt =====
-- The body of a PUT, from the connection to the file.
use rapi_bootloader.Base.{
  ℕ, zero, suc, ◌-◌, ◌≤◌, ◌<◌, ◌≡◌, refl, sym, ap, ◌∙◌, ◌≢◌, ◌⊎◌, inl, inr, true, false, not, ◌&&◌,
  [], ◌++◌, arith, ltb, ◌==◌, if◌then◌else◌, Bool-cases, length, take, length-append, length-take,
  take-append, take-append_long, Bytes,
}
use mathlib.Core.List.{append-nil}
use rapi_bootloader.WebDav.Written.{
  WritesAll, Takes, no_bytes-Takes, Takes-trans, flushed, copy_chunk-Takes,
}
use rapi_bootloader.WebDav.Upload.{
  Upload, write_buf_size, write_put_chunk, receive_rest, take_received, receive_body, receive_file,
}
use rapi_bootloader.WebDav.Receive.{recv_buf_size}
use rapi_bootloader.Sockets.{Sockets, Streams}
use rapi_bootloader.Tftp.SdWrite.{WritesAppend}
use rapi_bootloader.FatFs.{FatFs}

some_left : (n : ℕ) (bytes : Bytes) → 0 < n → n ≤ length bytes → bytes ≢ []
some_left n bytes pos h none_left = omega (arith, pos, h, ap length none_left)

module _ (fs : FatFs) (law : WritesAppend fs) (good : WritesAll fs law) where
  write_put_chunk-Takes :
      (u : Upload fs) (bytes : Bytes)
      → length u.write_buf < write_buf_size
      → ((write_put_chunk fs true u bytes).1 ≡ true)
        × Takes fs law u (write_put_chunk fs true u bytes).0 bytes
  unfolding write_put_chunk
  write_put_chunk-Takes u bytes room =
      let (ok, t) =
        copy_chunk-Takes fs law good (length bytes) (record u { has_write_buf = true }) bytes
          (omega arith) room in
      let ready : (not u.has_write_buf && not true) ≡ false = ground arith in
      rw ready (ok, record { grown = t.grown; room = t.room })

  module _ (sk : Sockets) (stream : Streams sk)
      (frame : stream.frame_buffer_size ≤ recv_buf_size) where
    -- A receive that asks for no more than what remains leaves nothing of it behind: one with no room for
    -- a frame asks for all that remains.
    receive_some :
        (bytes after before : Bytes) (remaining : ℕ)
        → let n = if ltb remaining recv_buf_size then remaining else recv_buf_size in
          length bytes ≤ n
          → remaining ≤ length before
          → (bytes ++ after ≡ before)
            ⊎ ((n < stream.frame_buffer_size) × (length bytes ≡ n) × (bytes ≡ take n before))
          → (remaining - length bytes ≤ length after)
            × (bytes ++ take (remaining - length bytes) after ≡ take remaining before)
    receive_some bytes after before remaining few there (inl whole) =
        let fits : length bytes ≤ remaining = ground (arith, few) in
        (
          omega (arith, sym (length-append bytes after) ∙ ap length whole, there),
          sym (take-append_long remaining bytes after fits) ∙ ap (take remaining) whole,
        )
    receive_some bytes after before remaining few there (inr (short, filled, next)) =
        let n = if ltb remaining recv_buf_size then remaining else recv_buf_size in
        let all : n ≡ remaining = ground (arith, short, frame) in
        let none_left : remaining - length bytes ≡ 0 = omega (arith, filled, all) in
        (
          omega (arith, none_left),
          ap (λ k. bytes ++ take k after) none_left
              ∙ append-nil bytes
              ∙ next
              ∙ ap (λ k. take k before) all,
        )

    receive_rest-Takes :
        (fuel : ℕ) (conn : sk.Conn) (u : Upload fs) (remaining : ℕ)
        → remaining ≤ fuel
        → remaining ≤ length (stream.rest conn)
        → length u.write_buf < write_buf_size
        → let done = receive_rest fs sk true fuel conn u remaining in
          (done.2 ≡ true) × Takes fs law u done.1 (take remaining (stream.rest conn))
    unfolding receive_rest take_received
    receive_rest-Takes zero conn u remaining enough there room = (
      refl,
      no_bytes-Takes fs law u _ (omega (arith, enough, length-take remaining (stream.rest conn)))
          room,
    )
    receive_rest-Takes (suc fuel) conn u remaining enough there room =
        let n = if ltb remaining recv_buf_size then remaining else recv_buf_size in
        elim (Bool-cases (remaining == 0)) [
          | inl end ↦ rw end (
            refl,
            no_bytes-Takes fs law u _
                (ground (arith, end, length-take remaining (stream.rest conn))) room,
          )
          | inr more ↦
              let pos : 0 < remaining = ground (arith, more) in
              let asked : (0 < n) × (n ≤ remaining) = (ground (arith, pos), ground arith) in
              let (bytes, e, got, few, whole) =
                stream.delivers conn n asked.0 (some_left remaining _ pos there) in
              let conn' = (sk.receive conn n).0 in
              let (ok, t) = write_put_chunk-Takes u bytes room in
              let written = (write_put_chunk fs true u bytes).0 in
              let (left, split) =
                receive_some bytes (stream.rest conn') (stream.rest conn) remaining few there
                  whole in
              let (ok', t') =
                receive_rest-Takes fuel conn' written (remaining - length bytes)
                  (omega (arith, enough, got)) left t.room in
              rw (more, e, ok) (ok', Takes-trans fs law u written _ bytes _ _ t.grown split t')
        ]

    receive_body-Takes :
        (conn : sk.Conn) (u : Upload fs) (body : Bytes) (n : ℕ)
        → n ≤ length (body ++ stream.rest conn)
        → length u.write_buf < write_buf_size
        → let done = receive_body fs sk true conn u body n in
          (done.2 ≡ true) × Takes fs law u done.1 (take n (body ++ stream.rest conn))
    unfolding receive_body
    receive_body-Takes conn u body n there room =
        let buffered = take n body in
        let remaining = n - length buffered in
        let split = sym (take-append n body (stream.rest conn)) in
        let left : remaining ≤ length (stream.rest conn) =
          ground (arith, there, length-append body (stream.rest conn), length-take n body) in
        elim (Bool-cases (ltb 0 (length buffered))) [
          | inl some_bytes ↦
              let (ok, t) = write_put_chunk-Takes u buffered room in
              let written = (write_put_chunk fs true u buffered).0 in
              let (ok', t') =
                receive_rest-Takes remaining conn written remaining (omega arith) left t.room in
              rw (some_bytes, ok)
                (ok', Takes-trans fs law u written _ buffered _ _ t.grown split t')
          | inr nothing ↦
              let t = no_bytes-Takes fs law u buffered (ground (arith, nothing)) room in
              let (ok', t') =
                receive_rest-Takes remaining conn u remaining (omega arith) left room in
              rw nothing (ok', Takes-trans fs law u u _ buffered _ _ t.grown split t')
        ]

    -- Over a connection that still carries as many bytes as the content length says, counting those
    -- that came with the headers, all of the body goes to a card that refuses no write.
    pub contents-receive_file :
        (conn : sk.Conn) (u : Upload fs) (body : Bytes) (n : ℕ)
        → n ≤ length (body ++ stream.rest conn)
        → u.write_buf ≡ []
        → let done = receive_file fs sk true conn u body n in
          (done.2 ≡ true)
          × (law.contents done.1.card done.1.file
              ≡ law.contents u.card u.file ++ take n (body ++ stream.rest conn))
    unfolding receive_file
    contents-receive_file conn u body n there empty =
        let (ok, t) = receive_body-Takes conn u body n there (ground (arith, empty)) in
        let (done, moved, _) = flushed fs law good (receive_body fs sk true conn u body n).1 in
        rw ok (
          done,
          moved
              ∙ t.grown
              ∙ ap (λ bs. (law.contents u.card u.file ++ bs) ++ take n (body ++ stream.rest conn))
                  empty
              ∙ ap (λ (bs : Bytes). bs ++ take n (body ++ stream.rest conn))
                  (append-nil (law.contents u.card u.file)),
        )
