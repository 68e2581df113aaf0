-- ===== src/Tests/RequestRuns.antt =====
-- test/request.test.c run on the model, and requests that a client can send to crash the server.
use ntu_computer_network.Base.{
  ◌≡◌, refl, List, [], ◌∷◌, ◌++◌, arith, Bytes, codes, null_pointer, Exec, ok, fault, ◌>>=◌, fetch,
  store, tolower, contains,
}
use ntu_computer_network.Headers
use ntu_computer_network.Headers.{set, Headers}
use ntu_computer_network.Tokens.{strtok, strspn, strcspn, cstring}
use ntu_computer_network.Headers.Ownership.{IsIntact}
use ntu_computer_network.Request.RoundTrip.{render, stored, request_parse-render}
use ntu_computer_network.Request.Line.{line_buffer}
use ntu_computer_network.Request.Crashes.{request_parse_no_colon}
use ntu_computer_network.Headers.Lookup.{pairs}
use ntu_computer_network.Request.{request_parse, Request}
use ntu_computer_network.Tokens.{Buffer}

abbrev get_buffer : Buffer
get_buffer =
    codes
      "GET /some/path HTTP/1.1\r\nHost: localhost:8080\r\nUser-Agent: test/7.68.0\r\nAccept: */*\r\n\r\n"
    ++ 0 ∷ []

abbrev post_buffer : Buffer
post_buffer =
    codes
      "POST /some/path HTTP/1.1\r\nHost: localhost:8080\r\nAccept: */*\r\n\r\nThis is the body of the request"
    ++ 0 ∷ []

abbrev fields_of : Exec Request → Exec (List (Bytes × Bytes) × Bytes × Bytes × Bytes)
fields_of m = do r ← m; ok (pairs r.headers.fields, r.method, r.path, r.body)

test_get :
    fields_of (request_parse get_buffer)
    ≡ ok (
      (codes "host", codes "localhost:8080")
          ∷ (codes "user-agent", codes "test/7.68.0")
          ∷ (codes "accept", codes "*/*")
          ∷ [],
      codes "GET",
      codes "/some/path",
      [],
    )
unfolding request_parse strtok set Headers.create fetch strspn contains strcspn store cstring
    tolower
test_get = refl

test_post :
    fields_of (request_parse post_buffer)
    ≡ ok (
      (codes "host", codes "localhost:8080") ∷ (codes "accept", codes "*/*") ∷ [],
      codes "POST",
      codes "/some/path",
      codes "This is the body of the request",
    )
unfolding request_parse strtok set Headers.create fetch strspn contains strcspn store cstring
    tolower
test_post = refl

abbrev parsed_or : Request → Exec Request → Request
parsed_or r (ok parsed) = parsed
parsed_or r (fault f) = r

abbrev no_request : Request
no_request = record { method = []; path = []; headers = Headers.create; body = [] }

abbrev get_request : Request
get_request =
    parsed_or no_request (request_parse (codes "GET / HTTP/1.1\r\nA: b\r\n\r\n" ++ 0 ∷ []))

-- A request without headers: the body is taken for a header line.
no_headers :
    fields_of (request_parse (codes "POST / HTTP/1.1\r\n\r\na: b" ++ 0 ∷ []))
    ≡ ok ((codes "a", codes "b") ∷ [], codes "POST", codes "/", [])
unfolding request_parse strtok set Headers.create fetch strspn contains strcspn store cstring
    tolower
no_headers = refl

abbrev two_fields : List (Bytes × Bytes)
two_fields = (codes "Host", codes "a:80") ∷ (codes "X", codes "y z") ∷ []

request_parse-render_example :
    (r : Request) × (request_parse (
        render (codes "GET") (codes "/p") (codes "HTTP/1.1") two_fields (codes "body")
        ++ 0 ∷ 65 ∷ [])
      ≡ ok r)
    × (r.method ≡ codes "GET")
    × (r.path ≡ codes "/p")
    × (pairs r.headers.fields ≡ stored two_fields)
    × (r.body ≡ codes "body")
    × IsIntact r.headers
unfolding contains
request_parse-render_example =
    request_parse-render (codes "GET") (codes "/p") (codes "HTTP/1.1") (codes "Host", codes "a:80")
      ((codes "X", codes "y z") ∷ []) (codes "body") (65 ∷ []) (ground arith) (ground arith)
      (ground arith) (ground arith) (ground arith)

request_parse_no_colon_example :
    request_parse (
      line_buffer
        (codes "GET")
        (codes "/")
        (codes "H")
        b' '
        b' '
        b'\r'
        (codes "foo" ++ b'\r' ∷ b'\n' ∷ 0 ∷ []))
    ≡ fault null_pointer
unfolding contains
request_parse_no_colon_example =
    request_parse_no_colon (codes "GET") (codes "/") (codes "H") (codes "foo") (ground arith)
      (ground arith) (ground arith) (ground arith) (0 ∷ [])
