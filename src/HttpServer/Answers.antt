-- ===== src/HttpServer/Answers.antt =====
-- A whole connection: from the bytes of a request to the bytes of the answer.
use ntu_computer_network.Base.{
  length-append, Fault, Exec-cases, ◌≤◌, ℕ, suc, ◌-◌, ◌*◌, ◌<◌, ◌≡◌, refl, ap, ◌∙◌, ◌≢◌, inl, inr,
  none, some, List, [], ◌∷◌, ◌++◌, arith, Bool-cases, Bytes, codes, length, replicate, All, ok,
  fault, ◌>>=◌, bytes_eq,
}
use ntu_computer_network.Headers.Ownership.{IsIntact, destroy-IsIntact}
use ntu_computer_network.Tokens.Words.{IsWord}
use ntu_computer_network.Request.{Request, request_parse, request_destroy}
use ntu_computer_network.Request.Owned.{request_parse-IsIntact}
use ntu_computer_network.Request.Line.{separators}
use ntu_computer_network.Request.Fields.{IsField}
use ntu_computer_network.Request.RoundTrip.{render_fields, render, request_parse-render}
use ntu_computer_network.Response
use ntu_computer_network.Response.{Response, Body, allocated}
use ntu_computer_network.Headers
use ntu_computer_network.Response.Wire.{wire, to_string-wire, length-wire}
use ntu_computer_network.Middleware.{html, World, run_chain, main_middlewares}
use ntu_computer_network.Middleware.Pipeline.{
  logged, answer, home_page, not_found, main_middlewares-answer, answer-IsIntact,
}
use ntu_computer_network.HttpServer.{
  ServerConfig, SocketCall, write, close, respond, receive_buffer, handle_client,
}

receive_buffer-nul :
    (n : ℕ) (text : Bytes)
    → length text < n
    → receive_buffer n text ≡ text ++ 0 ∷ replicate (n - length text - 1) 0
receive_buffer-nul n text h = ap (λ k. text ++ replicate k 0) (n-split)
  where
    n-split : n - length text ≡ suc (n - length text - 1)
    n-split = omega arith

answer_plain :
    (time_str path : Bytes)
    → (answer time_str path).body_stream ≡ none
      × ((text : Bytes) × ((answer time_str path).body ≡ some (allocated text)))
unfolding answer home_page not_found
answer_plain time_str path = elim (Bool-cases (bytes_eq path (codes "/"))) [
  | inl e ↦ rw e (refl, (_, refl))
  | inr e ↦ rw e (refl, (_, refl))
]

-- A response with a body of its own is freed without a fault.
destroy-allocated :
    (r : Response) (text : Bytes)
    → IsIntact r.headers
    → r.body ≡ some (allocated text)
    → (freed : List ℕ) × (Response.destroy r ≡ ok freed)
unfolding Response.destroy
destroy-allocated r text v e =
    let (freed, run, owners) = destroy-IsIntact v in (freed, rw (run, e, ◌>>=◌))

-- The steps of `handle_client`, each with what it gives.
pub handle_client_steps :
    (config : ServerConfig) (world world' : World) (received : Bytes) (request : Request)
    (response : Response) (calls : List SocketCall) (freed freed' : List ℕ)
    → 0 < length received
    → request_parse (receive_buffer config.buffer_size received) ≡ ok request
    → run_chain config.middlewares world request Response.create ≡ ok (world', response)
    → respond config.buffer_size response ≡ ok calls
    → Response.destroy response ≡ ok freed
    → request_destroy request ≡ ok freed'
    → handle_client config world received ≡ ok (world', calls ++ close ∷ [])
unfolding handle_client
handle_client_steps config world world' [] request response calls freed freed' some_bytes e1 e2 e3
      e4 e5 =
    elim some_bytes [ ]
handle_client_steps config world world' (c ∷ cs) request response calls freed freed' some_bytes e1
      e2 e3 e4 e5 =
    rw (e1, ◌>>=◌) (rw (e2, ◌>>=◌) (rw (e3, ◌>>=◌) (rw (e4, ◌>>=◌) (rw (e5, ◌>>=◌)))))

respond_text :
    (n : ℕ) (r : Response)
    → r.body_stream ≡ none
    → respond n r ≡ (Response.to_string r >>= λ text. ok (write text ∷ []))
unfolding respond
respond_text n r e = simp (e, respond)

respond-whole :
    (n : ℕ) (r : Response)
    → r.body_stream ≡ none
    → IsIntact r.headers
    → length (wire r) < 1024 * 1024
    → respond n r ≡ ok (write (wire r) ∷ [])
respond-whole n r e v h = respond_text n r e ∙ rw (to_string-wire r v h, ◌>>=◌)

length-render :
    (m p v : Bytes) (fs : List (Bytes × Bytes)) (body : Bytes)
    → IsWord separators m
    → 0 < length (render m p v fs body)
unfolding render
length-render [] p v fs body w = absurd w
length-render (c ∷ m) p v fs body w = omega arith

home_page-short :
    (time_str : Bytes) → length time_str ≤ 26 → length (wire (home_page time_str)) < 1000
unfolding home_page Headers.set Headers.create render_fields
home_page-short time_str h =
    omega (arith, length-wire (home_page time_str), length-append html time_str)

not_found-short : length (wire not_found) < 1000
unfolding not_found Headers.set Headers.create render_fields
not_found-short = omega (arith, length-wire not_found)

-- The answers fit the buffer of `response_to_string`: `asctime` gives 26 bytes at most.
pub answer-short :
    (time_str path : Bytes)
    → length time_str ≤ 26
    → length (wire (answer time_str path)) < 1024 * 1024
unfolding answer
answer-short time_str path h = elim (Bool-cases (bytes_eq path (codes "/"))) [
  | inl e ↦ rw e (omega (arith, home_page-short time_str h))
  | inr e ↦ rw e (omega (arith, not_found-short))
]

pub handle_client_fault :
    (config : ServerConfig) (world : World) (received : Bytes) (f : Fault)
    → 0 < length received
    → request_parse (receive_buffer config.buffer_size received) ≡ fault f
    → handle_client config world received ≡ fault f
unfolding handle_client
handle_client_fault config world [] f some_bytes e = elim some_bytes [ ]
handle_client_fault config world (c ∷ cs) f some_bytes e = rw (e, ◌>>=◌)

answered-handle_client :
    (config : ServerConfig) (world : World) (time_str received : Bytes) (request : Request)
    → config.middlewares ≡ main_middlewares time_str
    → 0 < length received
    → length time_str ≤ 26
    → request_parse (receive_buffer config.buffer_size received) ≡ ok request
    → handle_client config world received
      ≡ ok (logged world request, write (wire (answer time_str request.path)) ∷ close ∷ [])
unfolding request_destroy
answered-handle_client config world time_str received request chain some_bytes short run =
    let a = answer time_str request.path in
    let (no_stream, (own_text, own)) = answer_plain time_str request.path in
    let intact = answer-IsIntact time_str request.path in
    let (freed, run') = destroy-allocated a own_text intact own in
    let (freed', run'', owners) = destroy-IsIntact (request_parse-IsIntact _ request run) in
    handle_client_steps config world (logged world request) received request a (write (wire a) ∷ [])
      freed freed' some_bytes run (rw (chain, main_middlewares-answer time_str world request))
      (respond-whole config.buffer_size a no_stream intact
        (answer-short time_str request.path short))
      run' run''

-- A connection that sent something, behind the middlewares of `main`: `handle_client` does what
-- `request_parse` of the receive buffer says. Where that faults, the connection has the same fault.
-- Where it gives a request, whatever its bytes were, nothing faults: the logger has printed one line,
-- one answer is written, which is the home page for "/" and the page of status 404 for any other
-- path, and the socket is closed. The text of the time is no longer than `asctime` makes it.
pub handle_client-request_parse :
    (config : ServerConfig) (world : World) (time_str received : Bytes)
    → config.middlewares ≡ main_middlewares time_str
    → 0 < length received
    → length time_str ≤ 26
    → handle_client config world received ≡ (
        request_parse (receive_buffer config.buffer_size received) >>= λ request.
        ok (logged world request, write (wire (answer time_str request.path)) ∷ close ∷ []))
handle_client-request_parse config world time_str received chain some_bytes short =
    elim (Exec-cases (request_parse (receive_buffer config.buffer_size received))) [
      | inl (request, run) ↦
          answered-handle_client config world time_str received request chain some_bytes short run
          ∙ rw (run, ◌>>=◌)
      | inr (f, run) ↦ handle_client_fault config world received f some_bytes run ∙ rw (run, ◌>>=◌)
    ]

logged-line :
    {m p : Bytes} (world : World) (request : Request)
    → request.method ≡ m
    → request.path ≡ p
    → (logged world request).log
      ≡ world.log ++ (record { id = world.request_id; method = m; path = p }) ∷ []
unfolding logged
logged-line world request e e' = rw (e, e') refl

-- `handle_client` with the middlewares of `main`, on a well-formed request that fits the receive
-- buffer: it faults nowhere, writes one answer, which is the home page for "/" and the page of status
-- 404 for any other path, then closes the socket, and the logger has printed the request's line. The
-- request has at least one field and no NUL in its body, and the text of the time has the length that
-- `asctime` gives it at most.
pub handle_client-answer :
    (config : ServerConfig) (world : World) (time_str m p v : Bytes) (f : Bytes × Bytes)
    (fs : List (Bytes × Bytes)) (body : Bytes)
    → config.middlewares ≡ main_middlewares time_str
    → IsWord separators m
    → IsWord separators p
    → IsWord separators v
    → All IsField (f ∷ fs)
    → All (λ c. c ≢ 0) body
    → length (render m p v (f ∷ fs) body) < config.buffer_size
    → length time_str ≤ 26
    → (after : World) × (handle_client config world (render m p v (f ∷ fs) body)
        ≡ ok (after, write (wire (answer time_str p)) ∷ close ∷ []))
      × (after.log ≡ world.log ++ (record { id = world.request_id; method = m; path = p }) ∷ [])
handle_client-answer config world time_str m p v f fs body chain wm wp wv good plain fits short =
    let pad = replicate (config.buffer_size - length (render m p v (f ∷ fs) body) - 1) 0 in
    let (request, run, method, path, fields, text, intact) =
      request_parse-render m p v f fs body pad wm wp wv good plain in
    let served =
      answered-handle_client config world time_str (render m p v (f ∷ fs) body) request chain
        (length-render m p v (f ∷ fs) body wm) short
        (ap request_parse (receive_buffer-nul config.buffer_size _ fits) ∙ run) in
    (
      logged world request,
      served
          ∙ ap (λ q. ok (logged world request, write (wire (answer time_str q)) ∷ close ∷ [])) path,
      logged-line world request method path,
    )
