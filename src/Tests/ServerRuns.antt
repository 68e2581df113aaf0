-- ===== src/Tests/ServerRuns.antt =====
-- The answers of the HTTP server on concrete requests.
use ntu_computer_network.Base.{
  ◌≡◌, ◌>>=◌, refl, Option, none, some, List, [], ◌∷◌, ◌++◌, arith, if◌then◌else◌, Bytes, codes,
  All, ok, fault, contains, decimal, bytes_eq,
}
use ntu_computer_network.Base.{digits, tolower}
use ntu_computer_network.Headers
use ntu_computer_network.Headers.Lookup.{pairs}
use ntu_computer_network.Headers.Ownership.{IsIntact, create-IsIntact, set-IsIntact}
use ntu_computer_network.Request.{Request, request_parse}
use ntu_computer_network.Request.RoundTrip.{render, render_fields, stored}
use ntu_computer_network.Response
use ntu_computer_network.Response.{Response, allocated, body_text}
use ntu_computer_network.Response.Wire.{wire_fields, wire, to_string-parse}
use ntu_computer_network.Middleware.{run_chain, World, main_middlewares}
use ntu_computer_network.Middleware.Pipeline.{logged, answer, not_found}
use ntu_computer_network.Middleware.ServeStatic.{has_dots, static_handler}
use ntu_computer_network.Middleware.ServeStatic.Confined.{static_handler-confined}
use ntu_computer_network.HttpServer.{
  receive_buffer, ServerConfig, SocketCall, write, close, stream, handle_client,
  server_config_create,
}
use ntu_computer_network.HttpServer.Stream.{IsPiece, written, stream-written}
use ntu_computer_network.HttpServer.Answers.{
  handle_client-answer, handle_client-request_parse, answer-short,
}
use ntu_computer_network.HttpServer.Service.{sent, handle_client-sent}
use ntu_computer_network.Middleware.Contract.{main_middlewares-IsSoundChain}
use ntu_computer_network.Middleware.Pipeline.{main_middlewares-answer}
use ntu_computer_network.Tokens.{strtok, strspn, strcspn, cstring}
use ntu_computer_network.Base.{length, ◌<◌, ◌*◌, Exec, fetch, store, ap, ◌∙◌, sym}

abbrev hello : Response
hello = record {
  status = 200;
  headers = Headers.set Headers.create (some (codes "X-A")) (some (codes "b c"));
  body = some (allocated (codes "hello"));
  body_stream = none;
}

hello-IsIntact : IsIntact hello.headers
hello-IsIntact = set-IsIntact (some (codes "X-A")) (some (codes "b c")) create-IsIntact

to_string-parse_example :
    (text : Bytes) × (back : Request) × (Response.to_string hello ≡ ok text)
    × (request_parse (text ++ 0 ∷ 7 ∷ []) ≡ ok back)
    × (back.path ≡ decimal 200)
    × (pairs back.headers.fields ≡ stored (wire_fields hello))
    × (back.body ≡ codes "hello")
unfolding wire wire_fields render render_fields Headers.set Headers.create decimal digits contains
    tolower
to_string-parse_example =
    to_string-parse hello (7 ∷ []) hello-IsIntact (ground arith) (ground arith) (omega arith)

abbrev world : World
world = record { request_id = 3; log = [] }

abbrev asked : Bytes → Request
asked path = record { method = codes "GET"; path = path; headers = Headers.create; body = [] }

abbrev noon : Bytes
noon = codes "Mon Dec  4 12:00:00 2023\n"

abbrev no_files : Bytes → Option Bytes
no_files path = none

abbrev same_file : Bytes → Option Bytes
same_file path = some (codes "text")

abbrev dots_only : Bytes → Option Bytes
dots_only path = if has_dots path then some (codes "secret") else none

static_handler-confined_example :
    static_handler dots_only world (asked (codes "/../x")) hello
    ≡ static_handler no_files world (asked (codes "/../x")) hello
static_handler-confined_example =
    static_handler-confined dots_only no_files world (asked (codes "/../x")) hello (λ path e. rw e)

stream-written_example :
    (calls : List SocketCall) × (stream 8 3 (codes "seven..") ≡ ok calls)
    × (written calls ≡ codes "seven..")
    × All (IsPiece 3) calls
stream-written_example = stream-written 8 3 (codes "seven..") (omega arith) (omega arith)

abbrev main_config : ServerConfig
main_config = record server_config_create { middlewares = main_middlewares noon }

handle_client-answer_example :
    (after : World) × (handle_client main_config world
        (render (codes "GET") (codes "/a") (codes "HTTP/1.1") ((codes "Host", codes "b") ∷ []) [])
      ≡ ok (after, write (wire (answer noon (codes "/a"))) ∷ close ∷ []))
    × (after.log ≡ (record { id = 3; method = codes "GET"; path = codes "/a" }) ∷ [])
unfolding wire wire_fields render render_fields Headers.set Headers.create decimal digits contains
    server_config_create answer not_found bytes_eq
handle_client-answer_example =
    handle_client-answer main_config world noon (codes "GET") (codes "/a") (codes "HTTP/1.1")
      (codes "Host", codes "b") [] [] refl (ground arith) (ground arith) (ground arith)
      (ground arith) tt (omega arith) (omega arith)

abbrev short_request : Bytes
short_request = codes "GET / HTTP/1.1\r\nnocolon\r\n\r\n"

handle_client-request_parse_example : handle_client main_config world short_request ≡ (
    request_parse (receive_buffer main_config.buffer_size short_request) >>= λ request.
    ok (logged world request, write (wire (answer noon request.path)) ∷ close ∷ []))
handle_client-request_parse_example =
    handle_client-request_parse main_config world noon short_request refl (omega arith)
      (omega arith)

abbrev small_config : ServerConfig
small_config = record main_config { buffer_size = 40 }

abbrev parsed_or : Request → Exec Request → Request
parsed_or r (ok parsed) = parsed
parsed_or r (fault f) = r

abbrev plain_text : Bytes
plain_text = codes "GET / HTTP/1.1\r\nA: b\r\n\r\n"

abbrev plain_request : Request
plain_request = parsed_or (asked []) (request_parse (receive_buffer 40 plain_text))

answers-fit :
    (after : World) (answered : Response)
    → run_chain (main_middlewares noon) world plain_request Response.create ≡ ok (after, answered)
    → length (wire answered) < 1024 * 1024
answers-fit after answered run =
    let same : answer noon plain_request.path ≡ answered =
      response_of (sym (main_middlewares-answer noon world plain_request) ∙ run) in
    rw (← same) (answer-short noon plain_request.path (omega arith))
  where
    response_of : {p q : World × Response} → ok p ≡ ok q → p.1 ≡ q.1
    response_of {p} {q} e = let same : p ≡ q = cc in ap (λ x. x.1) same

handle_client-sent_example :
    (after : World) × (answered : Response) × (calls : List SocketCall) × (run_chain
        (main_middlewares noon)
        world
        plain_request
        Response.create
      ≡ ok (after, answered))
    × (handle_client small_config world plain_text ≡ ok (after, calls ++ close ∷ []))
    × (written calls ≡ sent answered)
unfolding request_parse strtok Headers.set Headers.create fetch strspn contains strcspn store
    cstring tolower
handle_client-sent_example =
    handle_client-sent small_config (main_middlewares-IsSoundChain noon) world plain_text
      plain_request (omega arith) (omega arith) refl answers-fit
