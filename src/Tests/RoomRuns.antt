-- ===== src/Tests/RoomRuns.antt =====
-- Two clients of the chat, and a line that one of them sends.
use ntu_computer_network.Base.{
  ◌++◌, ◌==◌, Bool, bytes_eq, ℕ, ok, List, ◌≡◌, refl, [], ◌∷◌, arith, codes, Bytes, decimal, digits,
  fetch,
}
use ntu_computer_network.Chat.{
  ChatServer, ChatServerConfig, add_chat_client, init_chat_server, default_name, find_name,
  strip_prefix,
}
use ntu_computer_network.Chat.Meaning.{asked_name}
use ntu_computer_network.Chat.Reaction.{up_to_nul}
use ntu_computer_network.Chat.Room.{
  Thread, sending, held, composed, Room, Reach, opens, goes_on, joins, composes, locks, sends,
  unlocks, lines_to, heard, unheld, receiving, empty_room, line_to,
}
use ntu_computer_network.Chat.Roster.{
  Event, join, leave, say, perform_all, roster_of, blank, write_book, write_all, AllDue,
}
use ntu_computer_network.Chat.Roster.Refine.{perform_all-roster}
use ntu_computer_network.Chat.Room.Ends.{broadcast_ends}
use ntu_computer_network.Chat.Room.Blocking.{Moves, moves, stays, broadcast_stops}
use ntu_computer_network.Chat.Room.Order.{broadcasts_ordered}

abbrev room_config : ChatServerConfig
room_config = record {
  max_name_length = 29;
  max_clients = 4;
  message_buffer_size = 64;
  server_port = 8081;
}

abbrev both : ChatServer
both = record {
  clients =
      (record { name = default_name 0; socket = 5 })
      ∷ (record { name = default_name 1; socket = 6 })
      ∷ [];
  client_increment = 2;
  config = room_config;
}

abbrev spoken : Bytes
spoken = codes "Client #000: hi\n"

abbrev bob_receives : List Thread
bob_receives = (record { socket = 6; phase = receiving }) ∷ []

-- The line has come to the first of the two clients.
abbrev half_said : Room
half_said = record {
  server = both;
  threads = (record { socket = 5; phase = sending }) ∷ bob_receives;
  mutex = held spoken 1;
  sent = line_to 5 spoken ∷ [];
  history = (record { line = spoken; members = both.clients }) ∷ [];
}

half_said-Reach : Reach room_config half_said
unfolding empty_room init_chat_server add_chat_client decimal digits find_name fetch strip_prefix
    up_to_nul
half_said-Reach =
    goes_on
      (goes_on
        (goes_on (goes_on (goes_on opens (joins 5 refl refl refl)) (joins 6 refl refl refl)) (
          composes {name = default_name 0} {line = spoken} [] bob_receives 5 (codes "hi\n") refl
            (omega arith) refl refl refl))
        (locks [] bob_receives 5 spoken refl refl))
      (sends spoken 0 refl refl)

abbrev said : Room
said = record half_said {
  threads = (record { socket = 5; phase = receiving }) ∷ bob_receives;
  mutex = unheld;
  sent = line_to 5 spoken ∷ line_to 6 spoken ∷ [];
}

said-Reach : Reach room_config said
said-Reach =
    goes_on (goes_on half_said-Reach (sends spoken 1 refl refl))
      (unlocks [] bob_receives 5 spoken 2 refl refl refl)

broadcasts_ordered_example : lines_to 6 said.sent ≡ heard 6 said.history
broadcasts_ordered_example = broadcasts_ordered (omega arith) said-Reach refl 6

-- The first client does not read any more.
abbrev only_second : ℕ → Bool
only_second s = s == 6

broadcast_ends_example :
    (s : Room) × Moves only_second half_said s
    × (s.mutex ≡ unheld)
    × (s.server ≡ both)
    × (s.history ≡ half_said.history)
    × (s.sent ≡ line_to 5 spoken ∷ line_to 6 spoken ∷ [])
broadcast_ends_example =
    broadcast_ends only_second spoken 1 (omega arith) half_said-Reach refl (refl, tt)

-- At the first of the two clients.
abbrev to_first : Room
to_first = record half_said { mutex = held spoken 0; sent = [] }

abbrev first_sends : List Thread
first_sends = (record { socket = 5; phase = sending }) ∷ []

abbrev waiting_line : Bytes
waiting_line = codes "Client #001: yo\n"

-- While the broadcast is at the first client, the second one makes a line.
abbrev meanwhile : Room
meanwhile = record to_first {
  threads = first_sends ++ (record { socket = 6; phase = composed waiting_line }) ∷ [];
}

composed_meanwhile : Moves only_second to_first meanwhile
unfolding decimal digits find_name strip_prefix up_to_nul
composed_meanwhile =
    moves
      (composes {name = default_name 1} {line = waiting_line} first_sends [] 6 (codes "yo\n") refl
        (omega arith) refl refl refl)
      tt stays

broadcast_stops_example :
    (meanwhile.mutex ≡ held spoken 0) × (meanwhile.history ≡ half_said.history)
broadcast_stops_example =
    broadcast_stops only_second spoken 0 (record { name = default_name 0; socket = 5 }) refl refl
      refl composed_meanwhile

-- Two clients join, the first one takes a name, and the second one leaves.
abbrev events : List Event
events = join 5 ∷ join 6 ∷ say 5 (codes "/rename ann\n") ∷ leave 6 ∷ []

events-AllDue : AllDue room_config blank events
unfolding AllDue write_book asked_name bytes_eq up_to_nul
events-AllDue = (refl, (refl, ((refl, omega arith), (tt, tt))))

perform_all-roster_example :
    (after : ChatServer) × (perform_all (init_chat_server room_config) events ≡ ok after)
    × (roster_of after ≡ (write_all 29 blank events).roster)
perform_all-roster_example =
    perform_all-roster room_config events (omega arith) (omega arith) events-AllDue
