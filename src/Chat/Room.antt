-- ===== src/Chat/Room.antt =====
-- The threads of the chat's clients inside their messages: the loop of `handle_chat_client`, where a
-- line is made before `server_mutex` is locked, one `send` is one step, and a change of a name takes
-- no mutex. The accepting thread and the thread of a client that leaves hold the mutex for a step.
pub mod Lines
pub mod Order
pub mod Blocking
pub mod Ends
use ntu_computer_network.Base.{
  ℕ, suc, ◌+◌, ◌≡◌, ◌≤◌, true, false, Option, none, some, List, [], ◌∷◌, ◌++◌, Bytes, length,
  get_elem?, map, Exec, ok, ◌==◌, if◌then◌else◌,
}
use ntu_computer_network.Chat.{
  broadcast_size, ChatClient, ChatServer, ChatServerConfig, Send, init_chat_server, add_chat_client,
  remove_chat_client, find_name, rename_prefix, strip_prefix, broadcast_text, print, handle_message,
}
use ntu_computer_network.Chat.Members.{has_socket}
use ntu_computer_network.Chat.Reaction.{up_to_nul}

-- Where the thread of a client stands: in `recv`, before the lock with the line it has made, or in
-- the loop over the clients.
pub data ThreadPhase : Type 0 where
  receiving sending : ThreadPhase
  composed : Bytes → ThreadPhase

pub record Thread : Type 0 where
  pub socket : ℕ
  pub phase : ThreadPhase

-- `server_mutex`, and what the thread that holds it sends: its line, to the client at an index.
pub data Mutex : Type 0 where
  unheld : Mutex
  held : (line : Bytes) (index : ℕ) → Mutex

-- A call of `send`: one of a broadcast, or an answer to the client itself.
pub data Sent : Type 0 where
  line_to : ℕ → Bytes → Sent
  answer : Send → Sent

-- For the theorems: a broadcast, with the clients there are when the mutex is locked for it.
pub record Broadcast : Type 0 where
  pub line : Bytes
  pub members : List ChatClient

-- The server, its threads, and the mutex. For the theorems, the calls of `send` so far are kept, and
-- the broadcasts in the order of the locks.
pub record Room : Type 0 where
  pub server : ChatServer
  pub threads : List Thread
  pub mutex : Mutex
  pub sent : List Sent
  pub history : List Broadcast

unfoldable pub empty_room : ChatServerConfig → Room
empty_room config = record {
  server = init_chat_server config;
  threads = [];
  mutex = unheld;
  sent = [];
  history = [];
}

-- A step of one of the threads. The accepting thread takes a client and starts its thread in one step:
-- `Chat.Accept.Race` is about what can come between the two. A call of `send` that does not come back,
-- since the client does not read, is no step: see Chat.Room.Blocking.
pub data Step (r : Room) : Room → Type 0 where
  joins :
      {after : ChatServer} (socket : ℕ)
      → r.mutex ≡ unheld
      → has_socket socket r.server.clients ≡ false
      → add_chat_client r.server socket ≡ ok after
      → Step r (record r {
        server = after;
        threads = r.threads ++ (record { socket = socket; phase = receiving }) ∷ [];
      })
  leaves :
      (before rest : List Thread) (socket : ℕ)
      → r.threads ≡ before ++ (record { socket = socket; phase = receiving }) ∷ rest
      → r.mutex ≡ unheld
      → Step r (record r { server = remove_chat_client r.server socket; threads = before ++ rest })
  renames :
      {after : ChatServer} {asked : Bytes} {calls : List Send} (before rest : List Thread)
      (socket : ℕ) (received : Bytes)
      → r.threads ≡ before ++ (record { socket = socket; phase = receiving }) ∷ rest
      → has_socket socket r.server.clients ≡ true
      → length received ≤ r.server.config.message_buffer_size
      → strip_prefix rename_prefix (up_to_nul received) ≡ some asked
      → handle_message r.server socket received ≡ ok (after, calls)
      → Step r (record r { server = after; sent = r.sent ++ map answer calls })
  composes :
      {name line : Bytes} (before rest : List Thread) (socket : ℕ) (received : Bytes)
      → r.threads ≡ before ++ (record { socket = socket; phase = receiving }) ∷ rest
      → length received ≤ r.server.config.message_buffer_size
      → strip_prefix rename_prefix (up_to_nul received) ≡ none
      → find_name socket r.server.clients ≡ some name
      → print (broadcast_size r.server.config) (broadcast_text name (up_to_nul received)) ≡ ok line
      → Step r (record r {
        threads = before ++ (record { socket = socket; phase = composed line }) ∷ rest;
      })
  locks :
      (before rest : List Thread) (socket : ℕ) (line : Bytes)
      → r.threads ≡ before ++ (record { socket = socket; phase = composed line }) ∷ rest
      → r.mutex ≡ unheld
      → Step r (record r {
        threads = before ++ (record { socket = socket; phase = sending }) ∷ rest;
        mutex = held line 0;
        history = r.history ++ (record { line = line; members = r.server.clients }) ∷ [];
      })
  sends :
      {client : ChatClient} (line : Bytes) (i : ℕ)
      → r.mutex ≡ held line i
      → get_elem? r.server.clients i ≡ some client
      → Step r
          (record r { mutex = held line (suc i); sent = r.sent ++ line_to client.socket line ∷ [] })
  unlocks :
      (before rest : List Thread) (socket : ℕ) (line : Bytes) (i : ℕ)
      → r.threads ≡ before ++ (record { socket = socket; phase = sending }) ∷ rest
      → r.mutex ≡ held line i
      → i ≡ length r.server.clients
      → Step r (record r {
        threads = before ++ (record { socket = socket; phase = receiving }) ∷ rest;
        mutex = unheld;
      })

pub data Reach (config : ChatServerConfig) : Room → Type 0 where
  opens : Reach config (empty_room config)
  goes_on : {r s : Room} → Reach config r → Step r s → Reach config s

-- What the client with a socket is sent by broadcasts, in order.
unfoldable pub lines_to : ℕ → List Sent → List Bytes
lines_to s [] = []
lines_to s (line_to t line ∷ more) = if t == s then line ∷ lines_to s more else lines_to s more
lines_to s (answer send ∷ more) = lines_to s more

-- The broadcasts at which the client was there.
unfoldable pub heard : ℕ → List Broadcast → List Bytes
heard s [] = []
heard s (b ∷ bs) = if has_socket s b.members then b.line ∷ heard s bs else heard s bs
