-- ===== src/Main/Start/Up.antt =====
-- What `main` brings up.
use ntu_computer_network.Pool.{thread_pool_create}
use ntu_computer_network.HttpServer.{server_config_create}
use ntu_computer_network.Base.{
  refl, arith, Option-cases, inl, inr, Bool-cases, Address, if◌then◌else◌, Option, ◌≡◌, none, some,
  ℕ, [], codes, ok, ◌>>=◌,
}
use ntu_computer_network.Chat.{init_chat_server}
use ntu_computer_network.Chat.Accept.{Listening, start_chat_server, accepting}
use ntu_computer_network.Chat.Config.{parse_chat_config_from_env, main_chat_config}
use ntu_computer_network.HttpServer.Accept.{Started, exits, runs, server_create, server_start}
use ntu_computer_network.Main.Start.{Machine, Running, http_config, main}

-- The environment sets nothing of the chat.
pub record IsUnset (m : Machine) : Type 0 where
  pub clients : m.getenv (codes "CHAT_SERVER_MAX_CLIENTS") ≡ none
  pub buffer : m.getenv (codes "CHAT_SERVER_MESSAGE_BUFFER_SIZE") ≡ none
  pub name : m.getenv (codes "CHAT_SERVER_MAX_NAME_LENGTH") ≡ none
  pub port : m.getenv (codes "CHAT_SERVER_PORT") ≡ none

-- An address of this machine.
abbrev any : ℕ → Address
any port = record { host = codes "0.0.0.0"; port = port }

-- The chat with nobody in it.
abbrev quiet_chat : Listening
quiet_chat = record {
  server = record {
    clients = [];
    client_increment = 0;
    config = record {
      max_name_length = 32;
      max_clients = 256;
      message_buffer_size = 1024;
      server_port = 30001;
    };
  };
  phase = accepting;
  threads = [];
}

-- The two servers as they stand when both accept.
abbrev started : Machine → ℕ → Running
started m sockfd = record {
  chat_at = if m.binds (any 30001) then some (any 30001) else none;
  chat = quiet_chat;
  config = http_config m;
  server = record {
    sockfd = sockfd;
    pool = thread_pool_create 4;
    args = [];
    in_hand = none;
    handed = 0;
  };
}

abbrev http_up : Machine → Option ℕ → Started Running
http_up m none = exits (codes "Failed to create socket")
http_up m (some sockfd) =
    if m.binds (any 8080)
    then (if m.listens then runs (started m sockfd) else exits (codes "Failed to listen"))
    else exits (codes "Failed to bind socket")

-- When the environment sets nothing of the chat, `main` brings up a chat that asks for port 30001, and
-- an HTTP server on port 8080 with four workers, or ends with the message for the first system call
-- that fails, `bind` for the chat aside.
main-started :
    {m : Machine}
    → IsUnset m
    → main m
      ≡ ok (
          if m.chat_listens
          then http_up m m.new_socket
          else exits (codes "Failed to start chat server.\n"))
unfolding main parse_chat_config_from_env start_chat_server init_chat_server server_create
    server_start main_chat_config server_config_create
main-started {m} u =
    rw (u.clients, u.buffer, u.name, u.port, ◌>>=◌)
      (elim (Bool-cases m.chat_listens) [
        | inr off ↦ rw off refl
        | inl on ↦ rw on (elim (Option-cases m.new_socket) [
          | inl failed ↦ ground (arith, failed)
          | inr (sockfd, made) ↦ ground (arith, made)
        ])
      ])
