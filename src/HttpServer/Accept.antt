-- ===== src/HttpServer/Accept.antt =====
-- The start of the server in http-server.c and its accept loop, over the pool: `server_create`,
-- `server_start` and `server_stop`. What the system calls give is an argument.
use ntu_computer_network.Base.{
  ◌≢◌, Address, ◌%◌, ◌^◌, ℕ, zero, suc, ◌+◌, ◌≡◌, Bool, true, false, Option, none, some, List, [],
  ◌∷◌, ◌++◌, Bytes, codes, length, if◌then◌else◌, ok,
}
use ntu_computer_network.Pool.{
  Worker, Phase, serving, freed, ThreadPool, thread_pool_create, thread_pool_push, Signal, Step,
  pushes, sleeps, takes, tests, returns, stop, stop_push, stop_pushed, joins, frees, Reach, start,
  next,
}
use ntu_computer_network.HttpServer.{ServerConfig}
pub mod Handing
pub mod Connections

-- `HandlerArg`, without the configuration, which is the same in all.
pub record HandlerArg : Type 0 where
  pub client_sockfd : ℕ

-- `Server` once it accepts: the socket it listens on, the pool, the arguments that have been
-- allocated, whose addresses are 1, 2 and so on, and `arg` of the accept loop between `accept` and
-- the end of `thread_pool_push`. For the theorems, the calls of `thread_pool_push` that came back
-- while the pool was running are counted.
pub record Server : Type 0 where
  pub sockfd : ℕ
  pub pool : ThreadPool
  pub args : List HandlerArg
  pub in_hand : Option ℕ
  pub handed : ℕ

-- The program goes on, or has printed an error and ended.
pub data Started {ℓ} (A : Type ℓ) : Type ℓ where
  exits : Bytes → Started A
  runs : A → Started A

-- `server_address`: `inet_addr` of the address, and `htons` of the port, an `int32_t`.
abbrev pub server_address : ServerConfig → Address
server_address config = record { host = config.address; port = config.port % 2 ^ 16 }

-- `server_create`, when `socket` gives a descriptor or fails, and `bind` works for an address or not:
-- the socket.
unfoldable pub server_create : ServerConfig → Option ℕ → (Address → Bool) → Started ℕ
server_create config none binds = exits (codes "Failed to create socket")
server_create config (some sockfd) binds =
    if binds (server_address config) then runs sockfd else exits (codes "Failed to bind socket")

abbrev pub opened : ServerConfig → ℕ → Server
opened config sockfd = record {
  sockfd = sockfd;
  pool = thread_pool_create config.worker_limit;
  args = [];
  in_hand = none;
  handed = 0;
}

-- `server_start` up to its loop, when `listen` works or not.
unfoldable pub server_start : ServerConfig → ℕ → Bool → Started Server
server_start config sockfd listens =
    if listens then runs (opened config sockfd) else exits (codes "Failed to listen")

-- Whether a step of the pool is a call of `thread_pool_push`.
abbrev pub is_push : {p q : ThreadPool} → Step p q → Bool
is_push (pushes _ _ _ _ _) = true
is_push (sleeps _ _ _ _) = false
is_push (takes _ _ _ _ _) = false
is_push (tests _ _ _ _) = false
is_push (returns _ _ _ _) = false
is_push (stop _) = false
is_push (stop_push _ _ _ _) = false
is_push (stop_pushed _) = false
is_push (joins _ _ _) = false
is_push (frees _) = false

-- A step of the accept loop, or of another thread. The only calls of `thread_pool_push` are those of the
-- loop; the signal handler stops the pool wherever the loop stands, after which nothing is accepted.
-- When it has interrupted the loop itself, the loop does not go on; when it runs in another thread,
-- the loop may still come to its call of `thread_pool_push`. That call's test and its enqueue are one
-- step, and it is not made on a pool that is freed.
pub data Serve (s : Server) : Server → Type 0 where
  accepts :
      (client_sockfd : ℕ)
      → s.pool.phase ≡ serving
      → s.in_hand ≡ none
      → Serve s (record s {
        args = s.args ++ (record { client_sockfd = client_sockfd }) ∷ [];
        in_hand = some (suc (length s.args));
      })
  hands_over :
      {r : ThreadPool} {ws : List Worker} (arg : ℕ)
      → s.pool.phase ≡ serving
      → s.in_hand ≡ some arg
      → thread_pool_push s.pool arg ≡ ok r
      → Signal r.workers ws
      → Serve s
          (record s { pool = record r { workers = ws }; in_hand = none; handed = suc s.handed })
  hands_late :
      {r : ThreadPool} (arg : ℕ)
      → s.pool.phase ≢ serving
      → s.pool.phase ≢ freed
      → s.in_hand ≡ some arg
      → thread_pool_push s.pool arg ≡ ok r
      → Serve s (record s { pool = r; in_hand = none })
  refuses : s.pool.phase ≡ serving → Serve s s
  works :
      {p : ThreadPool} (step : Step s.pool p)
      → is_push step ≡ false
      → Serve s (record s { pool = p })

pub data Serves (config : ServerConfig) : Server → Type 0 where
  opens : (sockfd : ℕ) → Serves config (opened config sockfd)
  goes_on : {s t : Server} → Serves config s → Serve s t → Serves config t
