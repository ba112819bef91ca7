-- ===== src/WebDav/Headers.antt =====
-- The header block that `ReceiveHeaders` finds, against the stream that the connection carries.
use rapi_bootloader.Base.{
  ℕ, zero, suc, ◌+◌, ◌-◌, ◌≤◌, ◌<◌, ◌≡◌, refl, sym, ap, ◌∙◌, subst, ◌≢◌, ◌⊎◌, inl, inr, true, false,
  ◌&&◌, Option, none, some, [], ◌∷◌, ◌++◌, arith, ltb, leb, ◌==◌, if◌then◌else◌, Bool-cases,
  Option-cases, length, take, drop, length-append, take-append_long, take_all, Bytes, starts_with,
  starts_with-length,
}
use mathlib.Core.List.{append-nil, append_assoc}
use rapi_bootloader.Sockets.{Sockets, Streams}
use rapi_bootloader.WebDav.Receive.{
  recv_buf_size, blank_line, find_blank, search_new, receive_loop, receive_headers,
}

starts_with-append : (p s t : Bytes) → starts_with p s ≡ true → starts_with p (s ++ t) ≡ true
unfolding starts_with
starts_with-append [] s t h = refl
starts_with-append (x ∷ p) [] t h = absurd (ground (arith, h))
starts_with-append (x ∷ p) (c ∷ s) t h = ground (arith, starts_with-append p s t)

-- A test that fits in the first bytes does not see what comes behind them.
starts_with_long : (p s t : Bytes) → length p ≤ length s → starts_with p (s ++ t) ≡ starts_with p s
unfolding starts_with
starts_with_long [] s t h = refl
starts_with_long (x ∷ p) [] t h = absurd (omega (arith, h))
starts_with_long (x ∷ p) (c ∷ s) t h =
    ap (λ r. (x == c) && r) (starts_with_long p s t (omega (arith, h)))

find_blank-length : (i k : ℕ) (s : Bytes) → find_blank i s ≡ some k → 4 ≤ length s
unfolding find_blank
find_blank-length i k [] h = absurd (ground (arith, h))
find_blank-length i k (c ∷ s) h = elim (Bool-cases (starts_with blank_line (c ∷ s))) [
  | inl here ↦ starts_with-length blank_line (c ∷ s) here
  | inr later ↦ omega (arith, find_blank-length (i + 1) k s (ground (arith, later, h)))
]

-- What is found in a beginning is found in the whole.
find_blank-append :
    (i k : ℕ) (s t : Bytes) → find_blank i s ≡ some k → find_blank i (s ++ t) ≡ some k
unfolding find_blank
find_blank-append i k [] t h = absurd (ground (arith, h))
find_blank-append i k (c ∷ s) t h =
    let long = find_blank-length i k (c ∷ s) h in
    let same = starts_with_long blank_line (c ∷ s) t (omega (arith, long)) in
    elim (Bool-cases (starts_with blank_line (c ∷ s))) [
      | inl here ↦ ground (arith, here, same, h)
      | inr later ↦ ground (arith, later, same, h, find_blank-append (i + 1) k s t)
    ]

pub find_blank_place :
    (i k : ℕ) (s : Bytes) → find_blank i s ≡ some k → (i ≤ k) × (k + 4 ≤ i + length s)
unfolding find_blank
find_blank_place i k [] h = absurd (ground (arith, h))
find_blank_place i k (c ∷ s) h =
    let long = find_blank-length i k (c ∷ s) h in
    elim (Bool-cases (starts_with blank_line (c ∷ s))) [
      | inl here ↦ (ground (arith, here, h), ground (arith, here, h, long))
      | inr later ↦
          let p = find_blank_place (i + 1) k s (ground (arith, later, h)) in
          (omega (arith, p), omega (arith, p))
    ]

find_blank_cons :
    (i c : ℕ) (s : Bytes)
    → starts_with blank_line (c ∷ s) ≡ false
    → find_blank i (c ∷ s) ≡ find_blank (i + 1) s
unfolding find_blank
find_blank_cons i c s h = rw h

find_blank-none :
    (i c : ℕ) (s : Bytes)
    → find_blank i (c ∷ s) ≡ none
    → (starts_with blank_line (c ∷ s) ≡ false) × (find_blank (i + 1) s ≡ none)
unfolding find_blank
find_blank-none i c s h = (ground (arith, h), ground (arith, h))

-- Where the old bytes hold no blank line, the search that begins three bytes before the new ones
-- finds what a search of everything finds.
find_blank_skip :
    (i : ℕ) (old new : Bytes)
    → find_blank i old ≡ none
    → find_blank (i + (length old - 3)) (drop (length old - 3) (old ++ new))
      ≡ find_blank i (old ++ new)
find_blank_skip i [] new h = ap (λ j. find_blank j new) (omega arith)
find_blank_skip i (a ∷ []) new h = ap (λ j. find_blank j (a ∷ new)) (omega arith)
find_blank_skip i (a ∷ b ∷ []) new h = ap (λ j. find_blank j (a ∷ b ∷ new)) (omega arith)
find_blank_skip i (a ∷ b ∷ c ∷ []) new h = ap (λ j. find_blank j (a ∷ b ∷ c ∷ new)) (omega arith)
find_blank_skip i (a ∷ b ∷ c ∷ d ∷ old) new h =
    let (starts, none_later) = find_blank-none i a (b ∷ c ∷ d ∷ old) h in
    let from : length (a ∷ b ∷ c ∷ d ∷ old) - 3 ≡ suc (length (b ∷ c ∷ d ∷ old) - 3) =
      omega arith in
    let at : i + suc (length (b ∷ c ∷ d ∷ old) - 3) ≡ i + 1 + (length (b ∷ c ∷ d ∷ old) - 3) =
      omega arith in
    let long = starts_with_long blank_line (a ∷ b ∷ c ∷ d ∷ old) new (omega arith) in
    ap (λ n. find_blank (i + n) (drop n (a ∷ b ∷ c ∷ d ∷ (old ++ new)))) from
    ∙ ap (λ n. find_blank n (drop (length (b ∷ c ∷ d ∷ old) - 3) (b ∷ c ∷ d ∷ (old ++ new)))) at
    ∙ find_blank_skip (i + 1) (b ∷ c ∷ d ∷ old) new none_later
    ∙ sym (find_blank_cons i a (b ∷ c ∷ d ∷ (old ++ new)) (long ∙ starts))

search_new-find_blank :
    (old new : Bytes) → find_blank 0 old ≡ none → search_new old new ≡ find_blank 0 (old ++ new)
unfolding search_new
search_new-find_blank old new h =
    let from : (if leb 3 (length old) then length old - 3 else 0) ≡ 0 + (length old - 3) =
      ground arith in
    let same : length old - 3 ≡ 0 + (length old - 3) = omega arith in
    ap (λ n. find_blank n (drop n (old ++ new))) from
    ∙ sym (ap (λ n. find_blank (0 + (length old - 3)) (drop n (old ++ new))) same)
    ∙ find_blank_skip 0 old new h

find_blank_nil : find_blank 0 [] ≡ none
unfolding find_blank
find_blank_nil = refl

nothing_behind :
    (n : ℕ) (s t : Bytes) → length s ≤ n → (t ≡ []) ⊎ (n ≤ length s) → take n (s ++ t) ≡ s
nothing_behind n s t h end = take-append_long n s t h ∙ elim end [
  | inl none_left ↦
      ap (λ r. s ++ take (n - length s) r) none_left
      ∙ ap (λ r. s ++ r) (take_all _ [] (omega arith))
      ∙ append-nil s
  | inr full ↦
      let zero_left : n - length s ≡ 0 = omega arith in
      ap (λ k. s ++ take k t) zero_left ∙ append-nil s
]

-- What is found in the whole, and lies in a beginning, is found there.
find_blank_within :
    (i k : ℕ) (s t : Bytes)
    → find_blank i (s ++ t) ≡ some k
    → k + 4 ≤ i + length s
    → find_blank i s ≡ some k
unfolding find_blank
find_blank_within i k [] t h fits = absurd (omega (arith, find_blank_place i k t h, fits))
find_blank_within i k (c ∷ s) t h fits =
    let place = find_blank_place i k (c ∷ (s ++ t)) h in
    let same = starts_with_long blank_line (c ∷ s) t (omega (arith, place, fits)) in
    elim (Bool-cases (starts_with blank_line (c ∷ s))) [
      | inl here ↦ ground (arith, here, same, h)
      | inr later ↦
          let there : find_blank (i + 1) (s ++ t) ≡ some k = ground (arith, later, same, h) in
          rw later (find_blank_within (i + 1) k s t there (omega (arith, fits)))
    ]

find_blank_late :
    (k : ℕ) (s t : Bytes)
    → find_blank 0 s ≡ none
    → find_blank 0 (s ++ t) ≡ some k
    → length s < k + 4
find_blank_late k s t h here = elim (Bool-cases (ltb (length s) (k + 4))) [
  | inl late ↦ ground (arith, late)
  | inr early ↦
      let there = find_blank_within 0 k s t here (ground (arith, early)) in
      absurd (ground (arith, h, there))
]

take-length : (s t : Bytes) → take (length s) (s ++ t) ≡ s
take-length s t = nothing_behind (length s) s t (omega arith) (inr (omega arith))

nil-cases : (s : Bytes) → (s ≡ []) ⊎ (s ≢ [])
nil-cases [] = inl refl
nil-cases (c ∷ s) = inr (λ e. ground (arith, e))

module _ (sk : Sockets) (stream : Streams sk) where
  -- What the loop gives for a connection with these bytes before it. A receive that had no room for a
  -- frame can only have been the last, and filled the buffer.
  pub record Found (whole : Bytes) (r : sk.Conn × Bytes × Option ℕ) : Type 0 where
    pub found : r.2 ≡ find_blank 0 (take recv_buf_size whole)
    pub held : r.1 ≡ take (length r.1) whole
    pub kept :
        (r.1 ++ stream.rest r.0 ≡ whole)
        ⊎ ((length r.1 ≡ recv_buf_size)
            × ((i : ℕ) → r.2 ≡ some i → recv_buf_size < i + 4 + stream.frame_buffer_size))
    pub in_buffer : length r.1 ≤ recv_buf_size
    pub searched : find_blank 0 r.1 ≡ r.2

  nothing-Found :
      (conn : sk.Conn) (buf : Bytes)
      → find_blank 0 buf ≡ none
      → length buf ≤ recv_buf_size
      → (stream.rest conn ≡ []) ⊎ (recv_buf_size ≤ length buf)
      → Found (buf ++ stream.rest conn) (conn, buf, none)
  nothing-Found conn buf h fits end = record {
    found =
        sym (ap (find_blank 0) (nothing_behind recv_buf_size buf (stream.rest conn) fits end) ∙ h);
    held = sym (take-length buf (stream.rest conn));
    kept = inl refl;
    in_buffer = fits;
    searched = h;
  }

  something-Found :
      (conn : sk.Conn) (buf : Bytes) (i : ℕ)
      → find_blank 0 buf ≡ some i
      → length buf ≤ recv_buf_size
      → Found (buf ++ stream.rest conn) (conn, buf, some i)
  something-Found conn buf i h fits = record {
    found = sym (
        ap (find_blank 0) (take-append_long recv_buf_size buf (stream.rest conn) fits)
        ∙ find_blank-append 0 i buf _ h);
    held = sym (take-length buf (stream.rest conn));
    kept = inl refl;
    in_buffer = fits;
    searched = h;
  }

  receive_loop_full :
      (fuel : ℕ) (conn : sk.Conn) (buf : Bytes)
      → recv_buf_size ≤ length buf
      → receive_loop sk fuel conn buf ≡ (conn, buf, none)
  unfolding receive_loop
  receive_loop_full zero conn buf full = refl
  receive_loop_full (suc fuel) conn buf full =
      let no_room : ltb (length buf) recv_buf_size ≡ false = ground (arith, full) in rw no_room refl

  -- After a receive that had no room for a frame and filled the buffer.
  filled-Found :
      (rest : Bytes) (conn : sk.Conn) (buf bytes : Bytes)
      → let n = recv_buf_size - length buf in
        find_blank 0 buf ≡ none
        → length buf ≤ recv_buf_size
        → n < stream.frame_buffer_size
        → length bytes ≡ n
        → bytes ≡ take n rest
        → Found (buf ++ rest) (conn, buf ++ bytes, find_blank 0 (buf ++ bytes))
  filled-Found rest conn buf bytes h fits short filled next =
      let all : length (buf ++ bytes) ≡ recv_buf_size =
        omega (arith, length-append buf bytes, filled, fits) in
      let first : buf ++ bytes ≡ take recv_buf_size (buf ++ rest) =
        ap (λ bs. buf ++ bs) next ∙ sym (take-append_long recv_buf_size buf rest fits) in
      record {
        found = ap (find_blank 0) first;
        held = first ∙ sym (ap (λ n. take n (buf ++ rest)) all);
        kept = inr (all, λ i here. omega (arith, find_blank_late i buf bytes h here, short, fits));
        in_buffer = omega (arith, all);
        searched = refl;
      }

  receive_loop-Found :
      (fuel : ℕ) (conn : sk.Conn) (buf : Bytes)
      → find_blank 0 buf ≡ none
      → length buf ≤ recv_buf_size
      → recv_buf_size ≤ length buf + fuel
      → Found (buf ++ stream.rest conn) (receive_loop sk fuel conn buf)
  unfolding receive_loop
  receive_loop-Found zero conn buf h fits enough =
      nothing-Found conn buf h fits (inr (omega (arith, enough)))
  receive_loop-Found (suc fuel) conn buf h fits enough =
      elim (Bool-cases (ltb (length buf) recv_buf_size)) [
        | inr full ↦ rw full (nothing-Found conn buf h fits (inr (ground (arith, full))))
        | inl room ↦
            let n = recv_buf_size - length buf in
            let received = sk.receive conn n in
            elim (nil-cases (stream.rest conn)) [
              | inl ended ↦
                  let e = stream.ends conn n ended in
                  let none_left = append-nil buf in
                  rw (room, e.0, ended, none_left)
                    (subst (λ bs. Found bs (received.0, buf, none))
                      (ap (λ r. buf ++ r) e.1 ∙ none_left)
                      (nothing-Found received.0 buf h fits (inl e.1)))
              | inr more ↦
                  let (bytes, got, some_bytes, few, split) =
                    stream.delivers conn n (ground (arith, room)) more in
                  let longer = length-append buf bytes in
                  let searched = search_new-find_blank buf bytes h in
                  let fits' : length (buf ++ bytes) ≤ recv_buf_size =
                    omega (arith, longer, few, fits) in
                  elim (Option-cases (find_blank 0 (buf ++ bytes))) [
                    | inl still_none ↦
                        let search = searched ∙ still_none in
                        let loop = receive_loop sk fuel received.0 (buf ++ bytes) in
                        rw (room, got, search)
                          (elim split [
                            | inl kept ↦
                                subst (λ bs. Found bs loop)
                                  (append_assoc buf bytes (stream.rest received.0)
                                    ∙ ap (λ r. buf ++ r) kept)
                                  (receive_loop-Found fuel received.0 (buf ++ bytes) still_none
                                    fits' (omega (arith, longer, some_bytes, enough)))
                            | inr (short, filled, next) ↦
                                let full =
                                  receive_loop_full fuel received.0 (buf ++ bytes)
                                    (omega (arith, longer, filled, fits)) in
                                subst (Found (buf ++ stream.rest conn))
                                  (ap (λ (o : Option ℕ). (received.0, buf ++ bytes, o)) still_none
                                    ∙ sym full)
                                  (filled-Found (stream.rest conn) received.0 buf bytes h fits short
                                    filled next)
                          ])
                    | inr (i, here) ↦
                        let search = searched ∙ here in
                        rw (room, got, search)
                          (elim split [
                            | inl kept ↦
                                subst (λ bs. Found bs (received.0, buf ++ bytes, some i))
                                  (append_assoc buf bytes (stream.rest received.0)
                                    ∙ ap (λ r. buf ++ r) kept)
                                  (something-Found received.0 (buf ++ bytes) i here fits')
                            | inr (short, filled, next) ↦
                                subst
                                  (λ o.
                                    Found (buf ++ stream.rest conn) (received.0, buf ++ bytes, o))
                                  here
                                  (filled-Found (stream.rest conn) received.0 buf bytes h fits short
                                    filled next)
                          ])
                  ]
            ]
      ]

  -- For a connection that carries a stream, however it is cut into segments, ReceiveHeaders finds the
  -- first blank line among the first 4096 bytes of the stream, and fails exactly when they hold none.
  -- The buffer is not overrun and holds a beginning of the stream. No byte behind that is lost, unless
  -- the buffer is full and, where a blank line was found, leaves less room behind it than a frame takes.
  pub receive_headers-Found : (conn : sk.Conn) → Found (stream.rest conn) (receive_headers sk conn)
  unfolding receive_headers
  receive_headers-Found conn =
      receive_loop-Found recv_buf_size conn [] find_blank_nil (omega arith) (omega arith)
