-- ===== src/Tests/Requests.antt =====
-- A WebDAV request as a client sends it.
use rapi_bootloader.Base.{◌≡◌, some, arith, codes}
use rapi_bootloader.WebDav.Request.{parse_request}
use rapi_bootloader.WebDav.Request.Rendered.{render_request}
use rapi_bootloader.WebDav.Request.RoundTrip.{parse_request-render_request}

parse_request-render_request_example :
    parse_request (render_request (codes "PUT") (codes "a b.img") 70000 0)
    ≡ some (record {
      method = codes "PUT";
      path = codes "/a b.img";
      content_length = 70000;
      depth = 0;
    })
parse_request-render_request_example =
    parse_request-render_request b'P' (codes "UT") (codes "a b.img") 70000 0
      (omega arith, (omega arith, (omega arith, tt))) (omega arith)
      (
        (omega arith, omega arith),
        (
          (omega arith, omega arith),
          (
            (omega arith, omega arith),
            (
              (omega arith, omega arith),
              (
                (omega arith, omega arith),
                ((omega arith, omega arith), ((omega arith, omega arith), tt)),
              ),
            ),
          ),
        ),
      )
      (omega arith) (omega arith) (omega arith)
