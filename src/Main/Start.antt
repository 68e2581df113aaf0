-- ===== src/Main/Start.antt =====
-- `main` in src/main.c from the environment to the two servers that run. What the system calls give
-- is an argument; the signals are in Main.
pub mod Up
use ntu_computer_network.Base.{
  Address, if◌then◌else◌, ℕ, Bool, true, false, Option, none, some, Bytes, codes, Exec, ok, ◌>>=◌,
}
use ntu_computer_network.Chat.{ChatServerConfig, ChatServer, init_chat_server}
use ntu_computer_network.Chat.Accept.{Listening, start_chat_server}
use ntu_computer_network.Chat.Config.{parse_chat_config_from_env, main_chat_config}
use ntu_computer_network.Middleware.{main_middlewares}
use ntu_computer_network.HttpServer.{ServerConfig, server_config_create}
use ntu_computer_network.HttpServer.Accept.{
  Server, Started, exits, runs, server_create, server_start,
}

-- The environment, whether `bind` works for an address, whether `listen` works for the chat, what
-- `socket` gives for the HTTP server, whether `listen` works for it, and the text of the time that the
-- home page shows.
pub record Machine : Type 0 where
  pub getenv : Bytes → Option Bytes
  pub binds : Address → Bool
  pub chat_listens : Bool
  pub new_socket : Option ℕ
  pub listens : Bool
  pub time_str : Bytes

-- The two servers, each in its loop. The chat listens on an address that is bound; on `none`, where
-- `bind` has not worked, `listen` takes a port that is free.
pub record Running : Type 0 where
  pub chat_at : Option Address
  pub chat : Listening
  pub config : ServerConfig
  pub server : Server

abbrev is_set : Option Bytes → Bool
is_set none = false
is_set (some text) = true

-- The configuration that `main` fills in.
abbrev pub http_config : Machine → ServerConfig
http_config m = record server_config_create {
  middlewares = main_middlewares m.time_str;
  debug = is_set (m.getenv (codes "DEBUG"));
}

-- `server->address` of `init_chat_server`; the port of the configuration is an `in_port_t`.
abbrev pub chat_address : ChatServerConfig → Address
chat_address config = record { host = codes "0.0.0.0"; port = config.server_port }

-- What `bind` in `start_chat_server` does, of which the result is not looked at.
abbrev pub chat_bound : Machine → ChatServerConfig → Option Address
chat_bound m config = if m.binds (chat_address config) then some (chat_address config) else none

abbrev listen_http : Machine → Listening → Started ℕ → Started Running
listen_http m chat (exits text) = exits text
listen_http m chat (runs sockfd) = elim (server_start (http_config m) sockfd m.listens) [
  | exits text ↦ exits text
  | runs server ↦ runs (record {
    chat_at = chat_bound m chat.server.config;
    chat = chat;
    config = http_config m;
    server = server;
  })
]

abbrev start_http : Machine → Option Listening → Started Running
start_http m none = exits (codes "Failed to start chat server.\n")
start_http m (some chat) = listen_http m chat (server_create (http_config m) m.new_socket m.binds)

unfoldable pub main : Machine → Exec (Started Running)
main m = do
  chat_config ← parse_chat_config_from_env m.getenv main_chat_config
  ok (start_http m (start_chat_server m.chat_listens (init_chat_server chat_config)))
