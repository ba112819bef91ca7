-- ===== src/WebDav/Confined.antt =====
-- Which paths of the card a request can reach.
use rapi_bootloader.Base.{
  ℕ, ◌+◌, ◌≡◌, refl, sym, ap, ◌∙◌, subst, ◌⊎◌, inl, inr, Bool, true, false, not, none, some, List,
  [], ◌∷◌, ◌++◌, arith, leb, Bool-cases, Option-cases, length, take, drop, Bytes, codes, equal,
  starts_with,
}
use mathlib.Core.Option.{some-injective}
use rapi_bootloader.WebDav.Receive.{receive_headers}
use rapi_bootloader.WebDav.Handlers.{
  DavWorld, do_options, do_propfind, propfind_at, do_get, get_at, do_put, put_at, do_delete,
  delete_at, do_mkcol, mkcol_at, dispatch, serve_parsed, serve_received, worker,
}
use rapi_bootloader.BootMenu.{c_str}
use rapi_bootloader.WebDav.Request.{
  Request, parse_request, parse_request_lines, request_line, read_headers, read_header, is_uri,
  without_query, method_size, tokens, is_blank, is_line_end,
}
use rapi_bootloader.WebDav.Volume.{Volume}
use rapi_bootloader.WebDav.{map_path, has_dot_dot, url_decode}
use rapi_bootloader.Sockets.{Sockets}
use rapi_bootloader.FatFs.{FatFs}

map_path_cases :
    (path : Bytes)
    → ((has_dot_dot path ≡ true) × (map_path path ≡ none))
      ⊎ ((has_dot_dot path ≡ false)
          × ((map_path path ≡ some (codes "SD:/")) ⊎ (map_path path ≡ some (codes "SD:" ++ path))))
unfolding map_path
map_path_cases path = elim (Bool-cases (has_dot_dot path)) [
  | inl dots ↦ inl (dots, rw dots refl)
  | inr clear ↦ elim (Bool-cases (equal path (codes "/"))) [
    | inl root ↦ inr (clear, inl (rw (clear, root) refl))
    | inr more ↦ inr (clear, inr (rw (clear, more) refl))
  ]
]

-- A path on the card, below its root.
pub record IsConfined (sd_path : Bytes) : Type 0 where
  pub rooted : starts_with (codes "SD:/") sd_path ≡ true
  pub no_dots : has_dot_dot sd_path ≡ false

IsConfined-map_path :
    (path : Bytes)
    → starts_with (codes "/") path ≡ true
    → has_dot_dot path ≡ false
    → (sd_path : Bytes) × (map_path path ≡ some sd_path) × IsConfined sd_path
unfolding has_dot_dot starts_with
IsConfined-map_path path rooted clear = elim (map_path_cases path) [
  | inl (dots, _) ↦ absurd (ground (arith, dots, clear))
  | inr (_, mapped) ↦ elim mapped [
    | inl root ↦ (codes "SD:/", root, record { rooted = refl; no_dots = refl })
    | inr more ↦ (codes "SD:" ++ path, more, record { rooted = rooted; no_dots = clear })
  ]
]

path-read_headers : (r : Request) (lines : List Bytes) → (read_headers r lines).path ≡ r.path
unfolding read_headers read_header
path-read_headers r [] = refl
path-read_headers r (line ∷ lines) =
    let same : (read_header r line).path ≡ r.path = ground arith in
    path-read_headers (read_header r line) lines ∙ same

-- Decoding keeps a first slash.
decoded_root :
    (s : Bytes)
    → starts_with (codes "/") s ≡ true
    → starts_with (codes "/") (c_str (url_decode s)) ≡ true
unfolding starts_with url_decode c_str
decoded_root [] h = h
decoded_root (c ∷ []) h = ground (arith, h)
decoded_root (c ∷ d ∷ []) h = ground (arith, h)
decoded_root (c ∷ d ∷ e ∷ s) h = let slash : c ≡ b'/' = ground (arith, h) in rw slash refl

request_line_root :
    (words : List Bytes) (r : Request)
    → request_line words ≡ some r
    → starts_with (codes "/") r.path ≡ true
unfolding request_line is_uri
request_line_root [] r h = absurd (ground (arith, h))
request_line_root (method ∷ []) r h = absurd (ground (arith, h))
request_line_root (method ∷ uri ∷ words) r h =
    let cleared = without_query uri in
    elim (Bool-cases (leb method_size (length method))) [
      | inl long ↦ absurd (ground (arith, long, h))
      | inr short ↦ elim (Bool-cases (not (is_uri cleared))) [
        | inl bad ↦ absurd (ground (arith, short, bad, h))
        | inr good ↦
            let e = some-injective _ r (rw (short, good, request_line) at h) in
            subst (λ (q : Request). starts_with (codes "/") q.path ≡ true) e
              (decoded_root cleared (ground (arith, good)))
      ]
    ]

parse_request_lines_root :
    (lines : List Bytes) (r : Request)
    → parse_request_lines lines ≡ some r
    → starts_with (codes "/") r.path ≡ true
unfolding parse_request_lines
parse_request_lines_root [] r h = absurd (ground (arith, h))
parse_request_lines_root (line ∷ lines) r h =
    elim (Option-cases (request_line (tokens is_blank line))) [
      | inl refused ↦ absurd (ground (arith, refused, h))
      | inr (q, taken) ↦
          let e : read_headers q lines ≡ r = ground (arith, taken, h) in
          subst (λ p. starts_with (codes "/") p ≡ true)
            (sym (path-read_headers q lines) ∙ ap (λ (q : Request). q.path) e)
            (request_line_root (tokens is_blank line) q taken)
    ]

parse_request_root :
    (header : Bytes) (r : Request)
    → parse_request header ≡ some r
    → starts_with (codes "/") r.path ≡ true
unfolding parse_request
parse_request_root header r h = parse_request_lines_root (tokens is_line_end (c_str header)) r h

module _ (fs : FatFs) (vol : Volume fs) (sk : Sockets) (format_u : ℕ → Bytes) (memory : Bool) where
  -- A request for a path with ".." leaves the card as it is, whatever its method.
  card-dispatch :
      (w : DavWorld fs vol sk format_u memory) (r : Request) (body : Bytes)
      → map_path r.path ≡ none
      → (dispatch fs vol sk format_u memory w r body).card ≡ w.card
  unfolding dispatch do_options do_propfind propfind_at do_get get_at do_put put_at do_delete
      delete_at do_mkcol mkcol_at
  card-dispatch w r body refused = rw refused (ground arith)

  -- Whatever comes over a connection, and however it is escaped, its worker leaves the card as it is,
  -- or has parsed the bytes before the blank line as a request whose path maps to one on the card
  -- that begins with "SD:/" and has no "..".
  pub worker-IsConfined :
      (w : DavWorld fs vol sk format_u memory)
      → ((worker fs vol sk format_u memory w).card ≡ w.card)
        ⊎ ((n : ℕ) × (r : Request) × (sd_path : Bytes) × ((receive_headers sk w.conn).2 ≡ some n)
            × (parse_request (take n (receive_headers sk w.conn).1) ≡ some r)
            × (map_path r.path ≡ some sd_path)
            × IsConfined sd_path)
  unfolding worker serve_received serve_parsed
  worker-IsConfined w =
      let received = receive_headers sk w.conn in
      elim (Option-cases received.2) [
        | inl nothing ↦ inl (rw nothing refl)
        | inr (n, found) ↦ elim (Option-cases (parse_request (take n received.1))) [
          | inl malformed ↦ inl (rw (found, malformed) refl)
          | inr (r, parsed) ↦ elim (map_path_cases r.path) [
            | inl (dots, refused) ↦ inl (
                rw (found, parsed)
                  (card-dispatch (record { conn = received.0; card = w.card }) r
                    (drop (n + 4) received.1) refused))
            | inr (clear, _) ↦
                let rooted = parse_request_root (take n received.1) r parsed in
                let (sd_path, mapped, confined) = IsConfined-map_path r.path rooted clear in
                inr (n, r, sd_path, found, parsed, mapped, confined)
          ]
        ]
      ]
