-- ===== src/Chat/Accept.antt =====
-- The accept loop of chat-server.c and the threads of its clients. The call of `add_chat_client` is
-- two steps: what it does under the mutex, and the read of the last slot that it returns, behind it.
-- A thread stands for its pointer to a client, which is given by the socket of the client; it is
-- followed as long as that client is in the list, since its pointer dangles afterwards.
pub mod Sockets
pub mod Threads
pub mod Race
use ntu_computer_network.Base.{
  ℕ, ◌+◌, ◌≡◌, Bool, true, false, Option, none, some, List, [], ◌∷◌, ◌++◌, Bytes, length, ◌==◌,
  if◌then◌else◌, out_of_bounds, Exec, ok, fault, ◌≤◌,
}
use ntu_computer_network.Chat.{
  ChatClient, ChatServer, ChatServerConfig, Send, init_chat_server, add_chat_client,
  remove_chat_client, handle_message,
}
use ntu_computer_network.Chat.Members.{has_socket}

-- `server->clients[server->client_count - 1]`
unfoldable pub last_client : List ChatClient → Exec ChatClient
last_client [] = fault out_of_bounds
last_client (c ∷ []) = ok c
last_client (c ∷ d ∷ ds) = last_client (d ∷ ds)

-- Where `_start_chat_server` stands: in `accept`, or between the unlocking and the `return` of
-- `add_chat_client` for a socket.
pub data AcceptPhase : Type 0 where
  accepting : AcceptPhase
  unlocked : ℕ → AcceptPhase

-- The server, its accepting thread, and the sockets of the clients that the other threads serve.
pub record Listening : Type 0 where
  pub server : ChatServer
  pub phase : AcceptPhase
  pub threads : List ℕ

-- `start_chat_server`, when `listen` works or not, on the thread that it is given or that calls it.
unfoldable pub start_chat_server : Bool → ChatServer → Option Listening
start_chat_server listens server =
    if listens then some (record { server = server; phase = accepting; threads = [] }) else none

-- A step of one of the threads.
pub data Step (l : Listening) : Listening → Type 0 where
  accepts :
      {after : ChatServer} (socket : ℕ)
      → l.phase ≡ accepting
      → has_socket socket l.server.clients ≡ false
      → add_chat_client l.server socket ≡ ok after
      → Step l (record l { server = after; phase = unlocked socket })
  spawns :
      {client : ChatClient} (socket : ℕ)
      → l.phase ≡ unlocked socket
      → last_client l.server.clients ≡ ok client
      → Step l (record l { phase = accepting; threads = l.threads ++ client.socket ∷ [] })
  says :
      {after : ChatServer} (before rest : List ℕ) (socket : ℕ) (received : Bytes)
      (calls : List Send)
      → l.threads ≡ before ++ socket ∷ rest
      → has_socket socket l.server.clients ≡ true
      → length received ≤ l.server.config.message_buffer_size
      → handle_message l.server socket received ≡ ok (after, calls)
      → Step l (record l { server = after })
  leaves :
      (before rest : List ℕ) (socket : ℕ)
      → l.threads ≡ before ++ socket ∷ rest
      → has_socket socket l.server.clients ≡ true
      → Step l (record l { server = remove_chat_client l.server socket; threads = before ++ rest })

-- No client leaves between the unlocking and the `return`.
abbrev pub IsQuiet : {l m : Listening} → Step l m → Type 0
IsQuiet (accepts _ _ _ _) = Unit
IsQuiet (spawns _ _ _) = Unit
IsQuiet (says _ _ _ _ _ _ _ _ _) = Unit
IsQuiet {l} (leaves _ _ _ _ _) = l.phase ≡ accepting

-- The states that are reached by steps that are quiet.
pub data QuietReach (config : ChatServerConfig) : Listening → Type 0 where
  listens :
      {l : Listening}
      → start_chat_server true (init_chat_server config) ≡ some l
      → QuietReach config l
  goes_on :
      {l m : Listening}
      → QuietReach config l
      → (step : Step l m) → IsQuiet step
      → QuietReach config m
