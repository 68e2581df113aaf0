-- ===== src/HttpServer.antt =====
-- src/http-server.c and src/http-server.h: the configuration, and what a worker does with a
-- connection. A socket is what is written to it, in order, and that it is closed.
pub mod Accept
pub mod Answers
pub mod Bounds
pub mod Service
pub mod Stream
use ntu_computer_network.Base.{
  ℕ, zero, suc, ◌-◌, ◌*◌, Bool, false, none, some, List, [], ◌∷◌, ◌++◌, Bytes, codes, length, take,
  drop, replicate, endless, Exec, ok, fault, ◌>>=◌,
}
use ntu_computer_network.Headers
use ntu_computer_network.Request.{request_parse, request_destroy}
use ntu_computer_network.Response
use ntu_computer_network.Response.{Response}
use ntu_computer_network.Middleware.{World, ServerMiddlewares, run_chain}

pub record ServerConfig : Type 0 where
  pub address : Bytes
  pub port : ℕ
  pub client_limit : ℕ
  pub worker_limit : ℕ
  pub buffer_size : ℕ
  pub middlewares : ServerMiddlewares
  pub debug : Bool

unfoldable pub server_config_create : ServerConfig
server_config_create = record {
  address = codes "0.0.0.0";
  port = 8080;
  client_limit = 4096 - 1;
  worker_limit = 4;
  buffer_size = 1024 * 1024;
  middlewares = [];
  debug = false;
}

pub data SocketCall : Type 0 where
  write : Bytes → SocketCall
  close : SocketCall

-- The loop over the body stream: what `fread` gives is written until it gives nothing. Each round
-- reads at most `size` bytes.
unfoldable pub stream : ℕ → ℕ → Bytes → Exec (List SocketCall)
stream zero size content = fault endless
stream (suc fuel) size content = elim (take size content) [
  | [] ↦ ok []
  | c ∷ cs ↦ stream fuel size (drop size content) >>= λ calls. ok (write (c ∷ cs) ∷ calls)
]

-- The writing of the response, in stream mode or at once.
unfoldable pub respond : ℕ → Response → Exec (List SocketCall)
unfolding stream
respond buffer_size response = elim response.body_stream [
  | some content ↦ do
    headers ← Headers.to_string response.headers
    calls ← stream (suc (length content)) buffer_size content
    ok (write headers ∷ calls)
  | none ↦ do text ← Response.to_string response; ok (write text ∷ [])
]

-- The buffer of `calloc` when `read` has put `received` at its start.
abbrev pub receive_buffer : ℕ → Bytes → List ℕ
receive_buffer buffer_size received = received ++ replicate (buffer_size - length received) 0

-- `handle_client` when `read` gives the bytes `received`; it gives none on a failure or when the
-- client has gone.
unfoldable pub handle_client : ServerConfig → World → Bytes → Exec (World × List SocketCall)
unfolding respond
handle_client config world [] = ok (world, close ∷ [])
handle_client config world (c ∷ cs) = do
  request ← request_parse (receive_buffer config.buffer_size (c ∷ cs))
  answered ← run_chain config.middlewares world request Response.create
  calls ← respond config.buffer_size answered.1
  _ ← Response.destroy answered.1
  _ ← request_destroy request
  ok (answered.0, calls ++ close ∷ [])
