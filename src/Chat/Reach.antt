-- ===== src/Chat/Reach.antt =====
-- The chat as a whole: any sequence of clients that join, leave and write, from the start on.
use ntu_computer_network.Base.{
  ℕ, ◌≤◌, ◌≡◌, refl, ◌∙◌, inl, inr, false, List, arith, ltb, Bool-cases, Option-cases, Bytes,
  length, ok, Exec, or_fault, >>=-eq-ok,
}
use ntu_computer_network.Chat.{
  stored_text, ChatServer, ChatServerConfig, Send, init_chat_server, add_chat_client,
  remove_chat_client, find_name, set_name, rename_prefix, strip_prefix, cut_name, rename,
  broadcast_text, broadcast, handle_message, print,
}
use ntu_computer_network.Chat.Leaving.{remove_chat_client-IsValid}
use ntu_computer_network.Chat.Members.{has_socket, IsValid, add_chat_client-IsValid}
use ntu_computer_network.Chat.Messages.{set_name-keeps}

-- What happens to a server under its mutex. `accept` gives a socket that is not open.
pub data Step : ChatServer → ChatServer → Type 0 where
  joins :
      {server after : ChatServer} (socket : ℕ)
      → has_socket socket server.clients ≡ false
      → add_chat_client server socket ≡ ok after
      → Step server after
  leaves : {server : ChatServer} (socket : ℕ) → Step server (remove_chat_client server socket)
  says :
      {server after : ChatServer} (socket : ℕ) (received : Bytes) (calls : List Send)
      → handle_message server socket received ≡ ok (after, calls)
      → Step server after

pub data Reach (config : ChatServerConfig) : ChatServer → Type 0 where
  start : Reach config (init_chat_server config)
  next : {server after : ChatServer} → Reach config server → Step server after → Reach config after

-- What a step keeps.
pub record Keeps (server after : ChatServer) : Type 0 where
  pub valid : IsValid after
  pub same_config : after.config ≡ server.config

-- The record that a step returns.
returned-Keeps :
    {server s after : ChatServer} {sent calls : List Send}
    → Keeps server s
    → ◌≡◌ {A = Exec (ChatServer × List Send)} (ok (s, sent)) (ok (after, calls))
    → Keeps server after
returned-Keeps {server} {s} {after} k e = let same : s ≡ after = cc in rw (← same) k

renamed-Keeps :
    (server : ChatServer) (socket : ℕ) (name : Bytes)
    → IsValid server
    → length name ≤ server.config.max_name_length
    → Keeps server (record server { clients = set_name socket name server.clients })
renamed-Keeps server socket name v h =
    let (distinct, short, same) =
      set_name-keeps server.config.max_name_length socket name server.clients h v.distinct
        v.short in
    record {
      valid = record { room = v.room; distinct = distinct; short = short };
      same_config = refl;
    }

pub ltb-false : (a b : ℕ) → ltb a b ≡ false → b ≤ a
ltb-false a b e = ground arith

rename-Keeps :
    {server after : ChatServer} (socket : ℕ) (text : Bytes) (calls : List Send)
    → IsValid server
    → rename server socket text ≡ ok (after, calls)
    → Keeps server after
unfolding rename
rename-Keeps {server} socket text calls v e =
    let (name, cut, run) = >>=-eq-ok (cut_name text) _ e in
    elim (Bool-cases (ltb server.config.max_name_length (length name))) [
      | inl long ↦ returned-Keeps (record { valid = v; same_config = refl }) (rw long at run)
      | inr short ↦
          returned-Keeps
            (renamed-Keeps server socket name v
              (ltb-false server.config.max_name_length (length name) short))
            (rw short at run)
    ]

broadcast-Keeps :
    {server after : ChatServer} (socket : ℕ) (text : Bytes) (calls : List Send)
    → IsValid server
    → broadcast server socket text ≡ ok (after, calls)
    → Keeps server after
unfolding broadcast
broadcast-Keeps {server} socket text calls v e =
    let (name, found, run) = >>=-eq-ok (or_fault (find_name socket server.clients) _) _ e in
    let (line, printed, run') = >>=-eq-ok (print _ (broadcast_text name text)) _ run in
    returned-Keeps (record { valid = v; same_config = refl }) run'

pub handle_message-Keeps :
    {server after : ChatServer} (socket : ℕ) (received : Bytes) (calls : List Send)
    → IsValid server
    → handle_message server socket received ≡ ok (after, calls)
    → Keeps server after
unfolding handle_message
handle_message-Keeps {server} socket received calls v e =
    let (text, read, run) = >>=-eq-ok (stored_text server.config received) _ e in
    elim (Option-cases (strip_prefix rename_prefix text)) [
      | inl other ↦ broadcast-Keeps socket text calls v (rw other at run)
      | inr (name, given) ↦ rename-Keeps socket name calls v (rw given at run)
    ]

removed-config :
    (server : ChatServer) (socket : ℕ) → (remove_chat_client server socket).config ≡ server.config
unfolding remove_chat_client
removed-config server socket = refl

Step-Keeps : {server after : ChatServer} → IsValid server → Step server after → Keeps server after
Step-Keeps v (joins {server} {after} socket fresh run) =
    let (after', run', clients, same, valid) = add_chat_client-IsValid socket v fresh in
    let equal : after' ≡ after = cc in rw (← equal) (record { valid = valid; same_config = same })
Step-Keeps v (leaves {server} socket) = record {
  valid = (remove_chat_client-IsValid socket v).0;
  same_config = removed-config server socket;
}
Step-Keeps v (says socket received calls run) = handle_message-Keeps socket received calls v run

pub init-IsValid :
    (config : ChatServerConfig) → 29 ≤ config.max_name_length → IsValid (init_chat_server config)
unfolding init_chat_server
init-IsValid config room = record { room = room; distinct = tt; short = tt }

-- Whatever clients join, leave and write, from the start of the server on, when the configuration
-- allows names of 29 bytes: no two clients have one socket, and every name fits the limit of the
-- configuration, which does not change.
pub Reach-IsValid :
    {config : ChatServerConfig} {server : ChatServer}
    → 29 ≤ config.max_name_length
    → Reach config server
    → IsValid server × (server.config ≡ config)
unfolding init_chat_server
Reach-IsValid {config} room start = (init-IsValid config room, refl)
Reach-IsValid room (next before step) =
    let (valid, same) = Reach-IsValid room before in
    let k = Step-Keeps valid step in (k.valid, k.same_config ∙ same)
