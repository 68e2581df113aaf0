-- ===== src/Tests/ChatRuns.antt =====
-- The chat of chat-server.c with two clients.
use ntu_computer_network.Base.{◌≡◌, refl, true, some, [], ◌∷◌, arith, if◌then◌else◌, codes, ok}
use ntu_computer_network.Chat.{
  handle_chat_client, ChatServer, ChatServerConfig, default_name, add_chat_client,
}
use ntu_computer_network.Base.{Bytes, Option, none, bytes_eq}
use ntu_computer_network.Chat.Config.{
  parse_chat_config_from_env, main_chat_config, parse_chat_config_from_env-decimal,
}
use ntu_computer_network.Chat.Members.{has_socket, IsValid}
use ntu_computer_network.Base.{decimal, digits}
use ntu_computer_network.Chat.{init_chat_server}
use ntu_computer_network.Base.{◌+◌, suc}
use ntu_computer_network.Chat.Accept.{
  Listening, accepting, Step, QuietReach, listens, goes_on, accepts, spawns, last_client,
  start_chat_server,
}
use ntu_computer_network.Chat.Accept.Threads.{served, awaited, is_client, threads_served}
use ntu_computer_network.Chat.ClientThread.{conversation, IsGone, handle_chat_client-conversation}
use ntu_computer_network.Chat.Accept.Race.{wrong_thread}

abbrev small_config : ChatServerConfig
small_config = record {
  max_name_length = 29;
  max_clients = 4;
  message_buffer_size = 64;
  server_port = 8081;
}

abbrev two_clients : ChatServer
two_clients = record {
  clients =
      (record { name = codes "ann"; socket = 5 })
      ∷ (record { name = codes "bob"; socket = 6 })
      ∷ [];
  client_increment = 2;
  config = small_config;
}

two_clients-IsValid : IsValid two_clients
two_clients-IsValid = record {
  room = omega arith;
  distinct = (refl, (refl, tt));
  short = (omega arith, (omega arith, tt));
}

abbrev one_client : ChatServer
one_client = record {
  clients = (record { name = default_name 0; socket = 4 }) ∷ [];
  client_increment = 1;
  config = small_config;
}

abbrev env : Bytes → Option Bytes
env name =
    if bytes_eq name (codes "CHAT_SERVER_MAX_CLIENTS")
    then some (codes "4")
    else if bytes_eq name (codes "CHAT_SERVER_MESSAGE_BUFFER_SIZE")
    then some (codes "64")
    else if bytes_eq name (codes "CHAT_SERVER_MAX_NAME_LENGTH")
    then some (codes "29")
    else if bytes_eq name (codes "CHAT_SERVER_PORT")
    then some (codes "8081")
    else none

parse_chat_config_from_env-decimal_example :
    parse_chat_config_from_env env main_chat_config ≡ ok small_config
unfolding bytes_eq decimal digits
parse_chat_config_from_env-decimal_example =
    parse_chat_config_from_env-decimal env main_chat_config 4 64 29 8081 refl refl refl refl
      (omega arith) (omega arith) (omega arith) (omega arith)

abbrev one_thread : Listening
one_thread = record { server = one_client; phase = accepting; threads = 4 ∷ [] }

one_accepted : QuietReach small_config one_thread
unfolding add_chat_client init_chat_server decimal digits start_chat_server last_client
one_accepted =
    goes_on (goes_on (listens refl) (accepts 4 refl refl refl) tt) (spawns 4 refl refl) tt

threads_served_example : served 4 (4 ∷ []) + awaited 4 accepting ≡ is_client one_client 4
threads_served_example = threads_served (omega arith) one_accepted 4

abbrev two_threads : Listening
two_threads = record { server = two_clients; phase = accepting; threads = 5 ∷ 6 ∷ [] }

wrong_thread_example :
    (joined : Listening) × (left : Listening) × (m : Listening) × Step two_threads joined
    × Step joined left
    × Step left m
    × (m.phase ≡ accepting)
    × (has_socket 7 m.server.clients ≡ true)
    × (served 7 m.threads ≡ served 7 two_threads.threads)
    × (served 6 m.threads ≡ suc (served 6 two_threads.threads))
wrong_thread_example =
    wrong_thread (record { name = codes "ann"; socket = 5 })
      (record { name = codes "bob"; socket = 6 }) [] [] (6 ∷ []) 7 two_clients-IsValid refl refl
      refl refl

handle_chat_client-conversation_example :
    (handle_chat_client two_clients 6 (codes "/rename carl\n" ∷ codes "hi" ∷ [])
      ≡ ok (conversation two_clients 6 (codes "/rename carl\n" ∷ codes "hi" ∷ [])))
    × IsGone two_clients 6 (conversation two_clients 6 (codes "/rename carl\n" ∷ codes "hi" ∷ [])).0
handle_chat_client-conversation_example =
    handle_chat_client-conversation two_clients 6 (codes "/rename carl\n" ∷ codes "hi" ∷ [])
      two_clients-IsValid refl (omega arith) (omega arith, (omega arith, tt))
