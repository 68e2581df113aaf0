-- ===== src/Lib.antt =====
-- Two servers in C and what their correctness rests on: an HTTP server, whose thread pool hands
-- connections from a queue to workers that parse a request and answer it through a chain of
-- middlewares, and a chat server, which broadcasts the messages of its clients.
--
-- Files and the code they are about (paths from the root of the repository):
-- - Queue: src/queue.c. `SafeQueue` is the struct with `data` as the list `cells`; `create`,
--   `resize`, `enqueue` and `dequeue` are the `safe_queue_` functions. Queue/Ring has the invariant
--   and the abstract view of a ring, Queue/Resize, Queue/Refine and Queue/History the proofs.
--   Queue/Producers has the test of `safe_queue_enqueue` and its locked part as two steps of threads.
-- - Headers: src/headers.c. `set`, `get`, `delete`, `to_string` and `destroy` are the `headers_`
--   functions. A field carries the number of the call that allocated its strings, so freeing twice
--   and reading freed strings are faults.
-- - Tokens: `strtok` and the reading of strings, as the C standard defines them, on a buffer of
--   bytes that is cut up in place.
-- - Request: src/request.c, `request_parse` and `request_destroy`, on the bytes of the buffer.
--   Request/Bounds and Request/Overrun are about where it reads; Request/Threads is the request line
--   in two workers at once, which share the pointer that `strtok` keeps.
-- - Chat: src/chat-server.c. `add_chat_client`, `remove_chat_client` and `handle_message`, one round
--   of `handle_chat_client` with the `send` calls it makes as a list. Chat/Meaning says what a message
--   means, without the functions of the code.
-- - Response: src/response.c, `response_create`, `response_to_string` and `response_destroy`.
-- - Middleware: src/middleware.c, the loop of `handle_client` over the middlewares, and the handlers
--   of src/middlewares/. A handler takes and gives back a `World`, the counter of the logger and what
--   it has printed; the clock and the files are arguments.
-- - HttpServer: src/http-server.c, `server_config_create` and `handle_client`, which turns the bytes
--   that are read into the calls of `write` and `close` on the socket. Middleware/Contract is the
--   contract of a handler, which the handlers of `main` fill and HttpServer/Service takes.
-- - Pool: src/pool.c, the threads as a step relation: the loop of `thread_pool_worker`,
--   `thread_pool_push`, and the two loops of `thread_pool_destroy`, over the calls of Queue. Pool/Valid
--   and the modules of its moves have the invariant, Pool/Once, Pool/Destroy and Pool/Ends the proofs.
-- - HttpServer/Accept: `server_create`, `server_start` and its accept loop, over the steps of Pool.
--   Accept/Handing is about the connection between `accept` and the pool, Accept/Connections about all.
-- - Chat/Roster: the clients as a map from sockets to names, which the calls of chat-server.c implement.
-- - Chat/Config: `parse_chat_config_from_env`. Chat/Reach: the clients that join, leave and write.
-- - Chat/ClientThread: the loop of `handle_chat_client` to its end. Chat/Accept: `start_chat_server`,
--   `_start_chat_server` and the threads of the clients, as a step relation in which `add_chat_client`
--   unlocks the mutex before it reads what it returns. Chat/Room: the clients' threads inside their
--   messages, with `server_mutex` and one step for each `send`.
-- - Client: chat-client/src/chat-client.c, from the lines that are typed to the texts that are sent.
--   Client/Start: `main` from its arguments on, and the loop of `receive_message`.
-- - Main: src/main.c. Main/Start is `main` from the environment to the two servers that run; Main has
--   the stages of `main` and what `cleanup` frees at each, with `server_stop`, `server_destroy` and the
--   other functions that free.
-- - Base: bytes, arrays as lists, `size_t` with its wrap-around, and `Exec`, the result of code that
--   can fault; Base/Outcomes, for code that ends well unless it reads a null pointer. Tests: runs on
--   concrete inputs, and the theorems at such inputs.
--
-- The parts meet in these places: a request has headers, which it builds by `headers_set`, and a
-- response too; the chat, its client and the parser cut strings with the same `strtok`; `handle_client`
-- parses, runs the chain, prints the response and frees both; the accept loop pushes connections into
-- the pool, the pool calls the queue and relies only on what Queue/History says of it; what the chat
-- client sends is what the chat server receives.
--
-- Bounds and fuel: a `size_t` is a natural number below 2 ^ 64, its arithmetic taken modulo that. The
-- copying loop of the queue runs on its capacity plus one rounds and the header loop on one round for
-- each byte of the buffer plus one; to run out is the fault `endless`, and that it is never met is
-- part of the theorems. An access outside an array, a null pointer, a second free, a read of freed
-- memory and a lock of a mutex that the thread holds are faults of their own.
--
-- The steps of threads: in Pool a call of `enqueue` or `dequeue` is one step, though
-- `safe_queue_enqueue` tests the size before it locks, which Queue/Producers takes apart;
-- `pthread_cond_signal` wakes one sleeper, and none wakes by itself, as POSIX would allow; the task's
-- function can always return, so a worker that `read` keeps waiting for a silent client is not there.
-- A push behind the start of `thread_pool_destroy` is a step of HttpServer/Accept, in which `accept` and
-- `thread_pool_push` are two steps, with the stop of the server between them. In Chat/Room a client
-- joins and gets its thread in one step, which Chat/Accept takes apart, and `send` may block, which Chat/Room/Blocking is about. The
-- theorems on the pool are
-- for queues of at most 32 items, a quarter of the ring, since a shrinking ring makes a worker lock
-- the mutex that it holds.
--
-- Not modelled: that `malloc` fails; the frees of `request_destroy` but for the headers; a signal
-- inside `server_middlewares_add`; other workers that call `strtok` while one parses, but for the
-- request line in Request/Threads; sockets beyond the texts that are sent, and writes that are cut
-- short; `accept` of the chat when it fails, and `stop_chat_server`, which nothing calls; what the
-- other threads do while `cleanup` frees, which starts from the queue that the loops of
-- `thread_pool_destroy`, modelled in Pool, leave behind; debug output; the site in TypeScript and the
-- scripts.
pub mod Base
pub mod Queue
pub mod Headers
pub mod Tokens
pub mod Request
pub mod Chat
pub mod Client
pub mod HttpServer
pub mod Middleware
pub mod Pool
pub mod Response
pub mod Tests
pub mod Main
