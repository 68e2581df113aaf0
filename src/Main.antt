-- ===== src/Main.antt =====
-- src/main.c with what it frees on SIGINT and SIGTERM: `cleanup` and the functions that it calls,
-- `server_stop`, `server_destroy`, `thread_pool_destroy` behind its loops, `safe_queue_destroy`,
-- `server_middlewares_destroy` and `destroy_chat_server`. A block of memory is known by its kind and a
-- number; to free a block twice, or to read one that is freed, is a fault.
pub mod Frees
pub mod Cleanup
pub mod Start
use ntu_computer_network.Base.{
  ℕ, suc, ◌+◌, Bool, true, false, ◌||◌, ◌&&◌, Option, none, some, List, [], ◌∷◌, ◌==◌,
  if◌then◌else◌, Bytes, null_pointer, double_free, use_after_free, Exec, ok, fault, ◌>>=◌, or_fault,
}
use ntu_computer_network.Chat.{ChatClient, ChatServer}
use ntu_computer_network.Middleware.{ServerMiddleware, ServerMiddlewares}
use ntu_computer_network.Queue.{SafeQueue, lock}

pub record Block : Type 0 where
  pub kind : ℕ
  pub index : ℕ

-- The blocks of the chat: the server, its array, and the client with a socket and its name.
abbrev pub chat_block : Block
chat_block = record { kind = 0; index = 0 }

abbrev pub clients_block : Block
clients_block = record { kind = 1; index = 0 }

abbrev pub name_block : ℕ → Block
name_block socket = record { kind = 2; index = socket }

abbrev pub client_block : ℕ → Block
client_block socket = record { kind = 3; index = socket }

-- The blocks of the configuration: itself, its middlewares, their array, and the name of each.
abbrev pub config_block : Block
config_block = record { kind = 4; index = 0 }

abbrev pub middlewares_block : Block
middlewares_block = record { kind = 5; index = 0 }

abbrev pub middleware_array : Block
middleware_array = record { kind = 6; index = 0 }

abbrev pub middleware_name : ℕ → Block
middleware_name i = record { kind = 7; index = i }

-- The blocks of the server: itself, its pool, the threads, the queue and its cells.
abbrev pub server_block : Block
server_block = record { kind = 8; index = 0 }

abbrev pub pool_block : Block
pool_block = record { kind = 9; index = 0 }

abbrev pub threads_block : Block
threads_block = record { kind = 10; index = 0 }

abbrev pub queue_block : Block
queue_block = record { kind = 11; index = 0 }

abbrev pub data_block : Block
data_block = record { kind = 12; index = 0 }

unfoldable pub is_freed : Block → List Block → Bool
is_freed b [] = false
is_freed b (f ∷ fs) = (f.kind == b.kind && f.index == b.index) || is_freed b fs

-- `free` of a block, and a read of one.
unfoldable pub free : List Block → Block → Exec (List Block)
free freed b = if is_freed b freed then fault double_free else ok (b ∷ freed)

unfoldable pub touch : List Block → Block → Exec (Unit {0})
touch freed b = if is_freed b freed then fault use_after_free else ok tt

unfoldable pub free_clients : List Block → List ChatClient → Exec (List Block)
unfolding free
free_clients freed [] = ok freed
free_clients freed (c ∷ cs) = do
  named ← free freed (name_block c.socket)
  gone ← free named (client_block c.socket)
  free_clients gone cs

unfoldable pub destroy_chat_server : List Block → ChatServer → Exec (List Block)
unfolding free_clients touch
destroy_chat_server freed server = do
  _ ← touch freed chat_block
  gone ← free_clients freed server.clients
  array ← free gone clients_block
  free array chat_block

unfoldable pub free_names : List Block → ℕ → ServerMiddlewares → Exec (List Block)
unfolding free
free_names freed i [] = ok freed
free_names freed i (m ∷ ms) =
    free freed (middleware_name i) >>= λ named. free_names named (suc i) ms

unfoldable pub server_middlewares_destroy : List Block → ServerMiddlewares → Exec (List Block)
unfolding free_names touch
server_middlewares_destroy freed middlewares = do
  _ ← touch freed middlewares_block
  named ← free_names freed 0 middlewares
  array ← free named middleware_array
  free array middlewares_block

unfoldable pub safe_queue_destroy : List Block → SafeQueue → Exec (List Block)
unfolding free
safe_queue_destroy freed queue = do
  _ ← lock queue
  cells ← free freed data_block
  free cells queue_block

-- `thread_pool_destroy` behind its loops, which leave it the queue.
unfoldable pub thread_pool_free : List Block → SafeQueue → Exec (List Block)
unfolding safe_queue_destroy touch
thread_pool_free freed queue = do
  _ ← touch freed pool_block
  queued ← safe_queue_destroy freed queue
  threads ← free queued threads_block
  free threads pool_block

-- `server_stop`, whose pool is NULL until `server_start` creates it.
unfoldable pub server_stop : List Block → Option SafeQueue → Exec (List Block)
unfolding thread_pool_free
server_stop freed pool = do
  _ ← touch freed server_block
  queue ← or_fault pool null_pointer
  stopped ← thread_pool_free freed queue
  _ ← touch stopped config_block
  ok stopped

unfoldable pub server_destroy : List Block → Exec (List Block)
unfolding touch free
server_destroy freed = do
  _ ← touch freed server_block
  _ ← touch freed config_block
  free freed server_block

-- The three globals: the middlewares of the configuration, the pool of the server, and the chat.
pub record Globals : Type 0 where
  pub config : Option ServerMiddlewares
  pub server : Option (Option SafeQueue)
  pub chat_server : Option ChatServer

abbrev pub destroy_server : List Block → Option (Option SafeQueue) → Exec (List Block)
destroy_server freed none = ok freed
destroy_server freed (some pool) = server_stop freed pool >>= λ stopped. server_destroy stopped

abbrev pub destroy_config : List Block → Option ServerMiddlewares → Exec (List Block)
destroy_config freed none = ok freed
destroy_config freed (some middlewares) = do
  _ ← touch freed config_block
  emptied ← server_middlewares_destroy freed middlewares
  free emptied config_block

abbrev pub destroy_chat : List Block → Option ChatServer → Exec (List Block)
destroy_chat freed none = ok freed
destroy_chat freed (some server) = destroy_chat_server freed server

-- `cleanup`: the blocks that it has freed when it calls `exit`.
unfoldable pub cleanup : Globals → Exec (List Block)
unfolding server_stop server_destroy server_middlewares_destroy destroy_chat_server
cleanup g = do
  stopped ← destroy_server [] g.server
  emptied ← destroy_config stopped g.config
  destroy_chat emptied g.chat_server

-- How far `main` has come: before it allocates the chat, before `server_config_create`, before
-- `server_create`, before `thread_pool_create` in `server_start`, and in its accept loop. Between the
-- `malloc` of the chat and the end of `init_chat_server` its block is not set, and inside
-- `server_middlewares_add` a middleware is counted before it is set; both are left out.
pub data Stage : Type 0 where
  begun chat_ready config_ready server_ready serving : Stage

unfoldable pub globals_at : ChatServer → ServerMiddlewares → SafeQueue → Stage → Globals
globals_at chat middlewares queue begun = record {
  config = none;
  server = none;
  chat_server = none;
}
globals_at chat middlewares queue chat_ready = record {
  config = none;
  server = none;
  chat_server = some chat;
}
globals_at chat middlewares queue config_ready = record {
  config = some middlewares;
  server = none;
  chat_server = some chat;
}
globals_at chat middlewares queue server_ready = record {
  config = some middlewares;
  server = some none;
  chat_server = some chat;
}
globals_at chat middlewares queue serving = record {
  config = some middlewares;
  server = some (some queue);
  chat_server = some chat;
}
