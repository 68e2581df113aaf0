-- ===== src/Tests/ClientRuns.antt =====
-- The chat client, and the client against the server, on concrete lines.
use ntu_computer_network.Base.{
  ℕ, zero, suc, ◌≡◌, refl, some, [], ◌∷◌, ◌++◌, arith, ◌==◌, if◌then◌else◌, Bytes, codes,
  length-replicate, replicate, take, All, out_of_bounds, ok, fault, ◌>>=◌, contains,
}
use ntu_computer_network.Tokens.Laws.{IsPlain}
use ntu_computer_network.Tokens.Words.{IsWord}
use ntu_computer_network.Chat.{
  ChatServer, ChatServerConfig, find_name, handle_message, strip_prefix,
}
use ntu_computer_network.Chat.Members.{IsValid}
use ntu_computer_network.Chat.Messages.{reply}
use ntu_computer_network.Chat.Reaction.{up_to_nul}
use ntu_computer_network.Chat.Meaning.{handle_message-meaning, meaning, told}
use ntu_computer_network.Client.{talk, run_client, receive_message}
use ntu_computer_network.Client.Talks.{first_text-renames, long_line_overflows}

abbrev room_config : ChatServerConfig
room_config = record {
  max_name_length = 32;
  max_clients = 256;
  message_buffer_size = 1024;
  server_port = 30001;
}

abbrev room : ChatServer
room = record {
  clients =
      (record { name = codes "ann"; socket = 5 })
      ∷ (record { name = codes "bob"; socket = 6 })
      ∷ [];
  client_increment = 2;
  config = room_config;
}

room-IsValid : IsValid room
room-IsValid = record {
  room = omega arith;
  distinct = (refl, (refl, tt));
  short = (omega arith, (omega arith, tt));
}

-- A message of two lines and a NUL: only what stands before the first line end becomes the name.
abbrev odd_message : Bytes
odd_message = codes "/rename \nzed\nrest" ++ 0 ∷ codes "more"

handle_message-meaning_example :
    handle_message room 6 odd_message ≡ ok (meaning room 6 (up_to_nul odd_message))
handle_message-meaning_example =
    handle_message-meaning 6 odd_message room-IsValid refl (omega arith) (omega arith)

first_text-renames_example :
    (text : Bytes) × (run_client 1 [] [] (codes "carl" ++ b'\n' ∷ codes "hi\n")
      ≡ (talk 1 [] (codes "hi\n") >>= λ texts. ok (text ∷ texts)))
    × (after : ChatServer) × (handle_message room 6 text
        ≡ ok (after, reply 6 (codes "Server: Name changed.")))
    × ((t : ℕ)
        → find_name t after.clients
          ≡ (if 6 == t then some (codes "carl") else find_name t room.clients))
unfolding contains
first_text-renames_example =
    first_text-renames 6 1 [] [] (codes "carl") (codes "hi\n") room-IsValid refl (ground arith)
      (omega arith) (omega arith) (omega arith) (omega arith)

abbrev long_line : Bytes
long_line = b'a' ∷ replicate 1021 b'a'

All-replicate : (n : ℕ) → All (IsPlain (codes "\n")) (replicate n b'a')
unfolding contains
All-replicate zero = tt
All-replicate (suc n) = (((λ e. omega arith), refl), All-replicate n)

long_line-IsWord : IsWord (codes "\n") long_line
long_line-IsWord = All-replicate 1022

long_line_overflows_example :
    (talk 1 [] (long_line ++ b'\n' ∷ [])
      ≡ (talk 0 long_line [] >>= λ texts. ok (long_line ∷ texts)))
    × (handle_message room 5 long_line
        ≡ ok (room, told (codes "ann" ++ (codes ": " ++ long_line)) room.clients))
    × (receive_message (take 1024 (codes "ann" ++ (codes ": " ++ long_line))) ≡ fault out_of_bounds)
unfolding find_name strip_prefix
long_line_overflows_example =
    long_line_overflows 5 0 [] (codes "ann") long_line [] room-IsValid refl refl long_line-IsWord
      refl (omega (arith, length-replicate {A = ℕ} 1021 b'a')) (omega arith) (omega arith)
      (omega (arith, length-replicate {A = ℕ} 1021 b'a'))
