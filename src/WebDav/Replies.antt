-- ===== src/WebDav/Replies.antt =====
-- network-loader/webdavserver.cpp: replies, and the entries of a listing.
use rapi_bootloader.Base.{
  ℕ, ◌-◌, Bool, not, ◌&&◌, ◌||◌, List, [], ◌∷◌, ◌++◌, ltb, ◌==◌, if◌then◌else◌, length, get_or,
  Bytes, codes, nul,
}
use rapi_bootloader.Sockets.{Sockets}
use rapi_bootloader.WebDav.Volume.{FilInfo}
use rapi_bootloader.WebDav.{xml_escaped}
use rapi_bootloader.FatFs.{FResult, is_ok}

abbrev pub crlf : Bytes
crlf = b'\r' ∷ b'\n' ∷ []

abbrev pub server_line : Bytes
server_line = codes "Server: pi-mame-chainloader-webdav/1.0" ++ crlf

abbrev pub close_line : Bytes
close_line = codes "Connection: close" ++ crlf ++ crlf

-- The header of `DoOptions`.
abbrev pub options_header : Bytes
options_header =
    codes "HTTP/1.1 200 OK"
    ++ crlf
    ++ server_line
    ++ codes "DAV: 1"
    ++ crlf
    ++ codes "Allow: OPTIONS, GET, HEAD, PUT, DELETE, MKCOL, PROPFIND"
    ++ crlf
    ++ codes "MS-Author-Via: DAV"
    ++ crlf
    ++ codes "Content-Length: 0"
    ++ crlf
    ++ close_line

abbrev pub xml_start : Bytes
xml_start =
    codes "<?xml version=\"1.0\" encoding=\"utf-8\"?>"
    ++ crlf
    ++ codes "<D:multistatus xmlns:D=\"DAV:\">"

-- `%u` and `%lu` of Circle's `CString::Format`.
module _ (format_u : ℕ → Bytes) where
  unfoldable pub simple_header : ℕ → Bytes → Bytes → ℕ → Bytes
  simple_header status reason content_type body_length =
      codes "HTTP/1.1 "
      ++ format_u status
      ++ codes " "
      ++ reason
      ++ crlf
      ++ server_line
      ++ codes "Content-Type: "
      ++ content_type
      ++ crlf
      ++ codes "Content-Length: "
      ++ format_u body_length
      ++ crlf
      ++ close_line

  -- The header of `DoGet`.
  unfoldable pub get_header : ℕ → Bytes
  get_header size =
      codes "HTTP/1.1 200 OK"
      ++ crlf
      ++ server_line
      ++ codes "Content-Type: application/octet-stream"
      ++ crlf
      ++ codes "Content-Length: "
      ++ format_u size
      ++ crlf
      ++ close_line

  -- What `AppendPropfindEntry` appends.
  unfoldable pub propfind_entry : Bytes → Bool → ℕ → Bytes
  propfind_entry href is_collection size =
      let needs_slash =
        is_collection && (length href == 0 || not (get_or href (length href - 1) nul == b'/')) in
      codes "<D:response><D:href>"
      ++ xml_escaped href
      ++ (if needs_slash then codes "/" else [])
      ++ codes "</D:href><D:propstat><D:prop>"
      ++ (if is_collection
          then codes "<D:resourcetype><D:collection/></D:resourcetype>"
          else codes "<D:resourcetype/><D:getcontentlength>"
            ++ format_u size
            ++ codes "</D:getcontentlength>")
      ++ codes "</D:prop><D:status>HTTP/1.1 200 OK</D:status></D:propstat></D:response>"

  -- The loop over the children of a collection, up to a failure or an empty name.
  unfoldable pub child_entries : Bytes → List (FResult × FilInfo) → Bytes
  unfolding propfind_entry
  child_entries base [] = []
  child_entries base ((result, child) ∷ children) =
      let rest = child_entries base children in
      if is_ok result && not (get_or child.fname 0 nul == nul)
      then propfind_entry (base ++ child.fname) child.is_dir child.fsize ++ rest
      else []

  module _ (sk : Sockets) where
    -- `SendSimpleResponse`, with an empty body where there is none.
    unfoldable pub send_simple_response : sk.Conn → ℕ → Bytes → Bytes → Bytes → sk.Conn
    unfolding simple_header
    send_simple_response conn status reason content_type body =
        let sent = sk.send conn (simple_header status reason content_type (length body)) in
        if sent.1 && ltb 0 (length body) then (sk.send sent.0 body).0 else sent.0
