-- ===== src/Tests/SessionRuns.antt =====
-- A session of the chat client, with two lines that are typed.
use ntu_computer_network.Base.{
  ◌≡◌, refl, true, some, List, [], ◌∷◌, ◌++◌, arith, Bytes, codes, decimal, All, ok, ◌>>=◌,
  contains,
}
use ntu_computer_network.Chat.{ChatServer, find_name, strip_prefix, handle_message}
use ntu_computer_network.Chat.Members.{IsValid}
use ntu_computer_network.Chat.Meaning.{told}
use ntu_computer_network.Client.{talk}
use ntu_computer_network.Client.Start.{Network, connected, main, receive_all}
use ntu_computer_network.Client.Start.Session.{typed, IsLine, main-typed, typed_line_shown}

abbrev local : Network
local = record { new_socket = some 3; connects = λ _ _ _. true }

abbrev two_lines : List Bytes
two_lines = codes "hi" ∷ codes "bye" ∷ []

two_lines-All : All IsLine two_lines
unfolding contains
two_lines-All = ground arith

main-typed_example :
    main local
      (codes "./client" ∷ codes "127.0.0.1" ∷ decimal 30001 ∷ [])
      4
      []
      []
      (codes "ann" ++ b'\n' ∷ typed two_lines)
    ≡ ok (
      connected 3,
      codes "/rename ann" ∷ codes "hi" ∷ codes "bye" ∷ codes "bye" ∷ codes "bye" ∷ [],
    )
unfolding contains
main-typed_example =
    main-typed local (codes "./client") (codes "127.0.0.1") [] 30001 3 2 [] [] (codes "ann")
      (codes "hi") (codes "bye" ∷ []) (omega arith) refl refl (ground arith) (omega arith)
      two_lines-All

abbrev two_members : ChatServer
two_members = record {
  clients =
      (record { name = codes "ann"; socket = 5 })
      ∷ (record { name = codes "bob"; socket = 6 })
      ∷ [];
  client_increment = 2;
  config = record {
    max_name_length = 32;
    max_clients = 256;
    message_buffer_size = 1024;
    server_port = 30001;
  };
}

two_members-IsValid : IsValid two_members
two_members-IsValid = record {
  room = omega arith;
  distinct = (refl, (refl, tt));
  short = (omega arith, (omega arith, tt));
}

typed_line_shown_example :
    (talk 2 [] (codes "hi\nbye\n")
      ≡ (talk 1 (codes "hi") (codes "bye\n") >>= λ texts. ok (codes "hi" ∷ texts)))
    × (handle_message two_members 6 (codes "hi")
        ≡ ok (two_members, told (codes "bob: hi") two_members.clients))
    × (receive_all (codes "bob: hi" ∷ [])
        ≡ (receive_all [] >>= λ lines. ok (codes "bob: hi\n" ∷ lines)))
unfolding contains find_name strip_prefix
typed_line_shown_example =
    typed_line_shown 6 1 [] (codes "bob") (codes "hi") (codes "bye\n") [] two_members-IsValid refl
      refl (ground arith) ((ground arith, omega arith)) refl (omega arith) (omega arith)
      (omega arith)
