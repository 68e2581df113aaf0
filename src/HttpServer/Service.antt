-- ===== src/HttpServer/Service.antt =====
-- A connection behind any handlers that keep their contract: what goes out to the client.
use ntu_computer_network.Base.{
  ℕ, suc, ◌*◌, ◌<◌, ◌≡◌, ap, inl, inr, none, some, List, [], ◌∷◌, ◌++◌, arith, append-nil, Bytes,
  length, ok, ◌>>=◌, Option-cases,
}
use ntu_computer_network.Headers.Lookup.{pairs}
use ntu_computer_network.Headers.Ownership.{IsIntact, destroy-IsIntact}
use ntu_computer_network.Request.{Request, request_parse, request_destroy}
use ntu_computer_network.Request.Owned.{request_parse-IsIntact}
use ntu_computer_network.Request.RoundTrip.{render_fields}
use ntu_computer_network.Response
use ntu_computer_network.Response.{Response}
use ntu_computer_network.Response.Wire.{wire, to_string-wire, to_string-fields, length-fields}
use ntu_computer_network.Middleware.{World, run_chain}
use ntu_computer_network.Middleware.Contract.{
  IsSoundChain, create-IsOwned, destroy-IsOwned, run_chain-IsOwned,
}
use ntu_computer_network.HttpServer.{
  ServerConfig, SocketCall, write, close, respond, receive_buffer, handle_client,
}
use ntu_computer_network.HttpServer.Answers.{handle_client_steps}
use ntu_computer_network.HttpServer.Stream.{written, stream-written}

-- The bytes of a response: its text, or in stream mode the fields, without a status line, and the
-- file.
unfoldable pub sent : Response → Bytes
sent r = elim r.body_stream [
  | none ↦ wire r
  | some content ↦ render_fields (pairs r.headers.fields) ++ content
]

respond-sent :
    (n : ℕ) (r : Response)
    → 0 < n
    → IsIntact r.headers
    → length (wire r) < 1024 * 1024
    → (calls : List SocketCall) × (respond n r ≡ ok calls) × (written calls ≡ sent r)
unfolding respond sent written Response.to_string wire
respond-sent n r some_size v fits = elim (Option-cases r.body_stream) [
  | inl whole ↦
      rw whole (write (wire r) ∷ [], rw (to_string-wire r v fits, ◌>>=◌), append-nil (wire r))
  | inr (content, streams) ↦
      let (calls, run, all, pieces) =
        stream-written (suc (length content)) n content some_size (omega arith) in
      rw streams (
        write (render_fields (pairs r.headers.fields)) ∷ calls,
        rw (to_string-fields v (omega (arith, length-fields r)), ◌>>=◌) (rw (run, ◌>>=◌)),
        ap (λ t. render_fields (pairs r.headers.fields) ++ t) all,
      )
]

module _ (config : ServerConfig) (sound : IsSoundChain config.middlewares) where
  -- With handlers that keep their contract, on any bytes that `request_parse` accepts: the chain ends
  -- without a fault, and if the response fits the buffer it is printed in and the receive buffer is
  -- not empty, `handle_client` writes the bytes of that response and closes the socket.
  pub handle_client-sent :
      (world : World) (received : Bytes) (request : Request)
      → 0 < length received
      → 0 < config.buffer_size
      → request_parse (receive_buffer config.buffer_size received) ≡ ok request
      → ((after : World) (answered : Response)
          → run_chain config.middlewares world request Response.create ≡ ok (after, answered)
          → length (wire answered) < 1024 * 1024)
      → (after : World) × (answered : Response) × (calls : List SocketCall) × (run_chain
            config.middlewares world request Response.create
          ≡ ok (after, answered))
        × (handle_client config world received ≡ ok (after, calls ++ close ∷ []))
        × (written calls ≡ sent answered)
  unfolding request_destroy
  handle_client-sent world received request some_bytes some_size run fits =
      let (after, answered, run', v) =
        run_chain-IsOwned config.middlewares world request Response.create sound create-IsOwned in
      let (calls, run'', bytes) =
        respond-sent config.buffer_size answered some_size v.intact (fits after answered run') in
      let (freed, end) = destroy-IsOwned answered v in
      let (freed', end', owners) = destroy-IsIntact (request_parse-IsIntact _ request run) in
      (
        after,
        answered,
        calls,
        run',
        handle_client_steps config world after received request answered calls freed freed'
            some_bytes run run' run'' end end',
        bytes,
      )
