-- ===== src/Chat.antt =====
-- src/chat-server.c and src/chat-server.h: the clients of the chat and what a message does.
-- `clients` is the array up to `client_count`. No two clients have one socket, so the socket stands
-- for the pointer that a client's thread holds.
pub mod Accept
pub mod ClientThread
pub mod Config
pub mod Leaving
pub mod Members
pub mod Names
pub mod Reaction
pub mod Room
pub mod Meaning
pub mod Messages
pub mod Reach
pub mod Roster
use ntu_computer_network.Base.{
  decimal, ℕ, ◌+◌, ◌-◌, Option, none, some, List, [], ◌∷◌, ◌++◌, ltb, ◌==◌, if◌then◌else◌, Bytes,
  codes, length, replicate, out_of_bounds, use_after_free, Exec, ok, fault, ◌>>=◌, add_size,
  or_fault,
}
use ntu_computer_network.Tokens.{strtok, string_at}

pub record ChatClient : Type 0 where
  pub name : Bytes
  pub socket : ℕ

pub record ChatServerConfig : Type 0 where
  pub max_name_length : ℕ
  pub max_clients : ℕ
  pub message_buffer_size : ℕ
  pub server_port : ℕ

pub record ChatServer : Type 0 where
  pub clients : List ChatClient
  pub client_increment : ℕ
  pub config : ChatServerConfig

unfoldable pub init_chat_server : ChatServerConfig → ChatServer
init_chat_server config = record { clients = []; client_increment = 0; config = config }

-- `sprintf` into a buffer of `limit` bytes; the terminating NUL must fit too.
abbrev pub print : ℕ → Bytes → Exec Bytes
print limit text = if ltb (length text) limit then ok text else fault out_of_bounds

-- `%03zu`
abbrev pub pad_to : ℕ → Bytes → Bytes
pad_to width text = replicate (width - length text) b'0' ++ text

abbrev pub default_name : ℕ → Bytes
default_name n = codes "Client #" ++ pad_to 3 (decimal n)

unfoldable pub add_chat_client : ChatServer → ℕ → Exec ChatServer
add_chat_client server socket = do
  name ← print server.config.max_name_length (default_name server.client_increment)
  ok (record server {
    clients = server.clients ++ (record { name = name; socket = socket }) ∷ [];
    client_increment = add_size server.client_increment 1;
  })

-- The slots from `i` on when `clients[i]` is overwritten by the last one, and the count reduced.
abbrev pub last_first : ChatClient → List ChatClient → List ChatClient
last_first c [] = c ∷ []
last_first c (d ∷ ds) = elim (last_first d ds) [ [] ↦ [] | l ∷ init ↦ l ∷ c ∷ init ]

abbrev pub fill_hole : List ChatClient → List ChatClient
fill_hole [] = []
fill_hole (d ∷ ds) = last_first d ds

-- The searching loop of `remove_chat_client`.
unfoldable pub remove_socket : ℕ → List ChatClient → List ChatClient
remove_socket socket [] = []
remove_socket socket (c ∷ cs) =
    if c.socket == socket then fill_hole cs else c ∷ remove_socket socket cs

unfoldable pub remove_chat_client : ChatServer → ℕ → ChatServer
remove_chat_client server socket = record server { clients = remove_socket socket server.clients }

-- `client->name`, through the pointer of the client's thread.
unfoldable pub find_name : ℕ → List ChatClient → Option Bytes
find_name socket [] = none
find_name socket (c ∷ cs) = if c.socket == socket then some c.name else find_name socket cs

unfoldable pub set_name : ℕ → Bytes → List ChatClient → List ChatClient
set_name socket name [] = []
set_name socket name (c ∷ cs) =
    if c.socket == socket then record c { name = name } ∷ cs else c ∷ set_name socket name cs

-- `send(socket, text, ...)`
pub record Send : Type 0 where
  pub socket : ℕ
  pub text : Bytes

abbrev pub rename_prefix : Bytes
rename_prefix = codes "/rename "

-- `strncmp(buffer, prefix, strlen(prefix)) == 0`, and the string behind the prefix
unfoldable pub strip_prefix : Bytes → Bytes → Option Bytes
strip_prefix [] text = some text
strip_prefix (p ∷ ps) [] = none
strip_prefix (p ∷ ps) (c ∷ cs) = if p == c then strip_prefix ps cs else none

-- `strtok(new_name, "\n")`, and the string that is then at `new_name`
unfoldable pub cut_name : Bytes → Exec Bytes
cut_name new_name = do t ← strtok (new_name ++ 0 ∷ []) 0 (codes "\n"); string_at t.buffer 0

unfoldable pub rename : ChatServer → ℕ → Bytes → Exec (ChatServer × List Send)
unfolding cut_name
rename server socket text = cut_name text >>= λ new_name.
    if ltb server.config.max_name_length (length new_name)
    then ok (server, record { socket = socket; text = codes "Server: Name too long." } ∷ [])
    else ok (
      record server { clients = set_name socket new_name server.clients },
      record { socket = socket; text = codes "Server: Name changed." } ∷ [],
    )

abbrev pub send_all : Bytes → List ChatClient → List Send
send_all text [] = []
send_all text (c ∷ cs) = record { socket = c.socket; text = text } ∷ send_all text cs

abbrev pub broadcast_text : Bytes → Bytes → Bytes
broadcast_text name text = name ++ (codes ": " ++ text)

-- The size of `broadcast`, a sum of `size_t`.
abbrev pub broadcast_size : ChatServerConfig → ℕ
broadcast_size config = add_size (add_size config.message_buffer_size config.max_name_length) 3

unfoldable pub broadcast : ChatServer → ℕ → Bytes → Exec (ChatServer × List Send)
broadcast server socket text = do
  name ← or_fault (find_name socket server.clients) use_after_free
  line ← print (broadcast_size server.config) (broadcast_text name text)
  ok (server, send_all line server.clients)

-- What `recv` gives, with a NUL behind it, in the array of `message_buffer_size + 1` bytes, a sum of
-- `size_t`: the string in it, which ends at its first NUL.
unfoldable pub stored_text : ChatServerConfig → Bytes → Exec Bytes
stored_text config received =
    if ltb (length received) (add_size config.message_buffer_size 1)
    then string_at (received ++ 0 ∷ []) 0
    else fault out_of_bounds

-- One round of `handle_chat_client` on a message.
unfoldable pub handle_message : ChatServer → ℕ → Bytes → Exec (ChatServer × List Send)
unfolding rename broadcast strip_prefix
handle_message server socket received = do
  text ← stored_text server.config received
  elim (strip_prefix rename_prefix text) [
    | some new_name ↦ rename server socket new_name
    | none ↦ broadcast server socket text
  ]

-- `handle_chat_client` on the messages that `recv` gives until it gives none, when no other thread
-- runs: the server behind it and what has been sent.
unfoldable pub handle_chat_client : ChatServer → ℕ → List Bytes → Exec (ChatServer × List Send)
unfolding handle_message remove_chat_client
handle_chat_client server socket [] = ok (remove_chat_client server socket, [])
handle_chat_client server socket (received ∷ messages) = do
  after ← handle_message server socket received
  end ← handle_chat_client after.0 socket messages
  ok (end.0, after.1 ++ end.1)
