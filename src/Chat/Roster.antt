-- ===== src/Chat/Roster.antt =====
-- The members of the chat as a map from sockets to names, which forgets the order of `clients`: what
-- the functions of chat-server.c promise of it, one call of a thread after the other.
pub mod Names
pub mod Refine
use ntu_computer_network.Base.{
  decimal, codes, ◌++◌, ℕ, ◌≡◌, ◌≤◌, Bool, true, false, Option, none, some, List, [], ◌∷◌, Bytes,
  length, ltb, ◌==◌, if◌then◌else◌, Exec, ok, ◌>>=◌, add_size,
}
use ntu_computer_network.Chat.{
  ChatServer, ChatServerConfig, find_name, default_name, add_chat_client, remove_chat_client,
  handle_message, rename_prefix, strip_prefix,
}
use ntu_computer_network.Chat.Meaning.{asked_name}
use ntu_computer_network.Chat.Reaction.{up_to_nul}

-- A client joins or leaves, or `recv` gives bytes of a client.
pub data Event : Type 0 where
  join leave : ℕ → Event
  say : ℕ → Bytes → Event

unfoldable pub perform : ChatServer → Event → Exec ChatServer
perform server (join s) = add_chat_client server s
perform server (leave s) = ok (remove_chat_client server s)
perform server (say s received) = handle_message server s received >>= λ after. ok (after.0)

unfoldable pub perform_all : ChatServer → List Event → Exec ChatServer
unfolding perform
perform_all server [] = ok server
perform_all server (e ∷ es) = perform server e >>= λ after. perform_all after es

abbrev pub Roster : Type 0
Roster = ℕ → Option Bytes

-- The view of a server.
abbrev pub roster_of : ChatServer → Roster
roster_of server t = find_name t server.clients

-- The map with another entry at a socket.
abbrev pub entry : ℕ → Option Bytes → Roster → Roster
entry s name roster t = if s == t then name else roster t

-- The map, and how many clients have joined so far.
pub record Book : Type 0 where
  pub roster : Roster
  pub given : ℕ

abbrev pub blank : Book
blank = record { roster = λ s. none; given = 0 }

abbrev pub take_name : ℕ → Book → ℕ → Bytes → Book
take_name limit book s name =
    if ltb limit (length name)
    then book
    else record book { roster = entry s (some name) book.roster }

-- The name of the client that joins as number `n`, in three digits at least.
unfoldable pub first_name : ℕ → Bytes
first_name n =
    codes "Client #"
    ++ ((if ltb n 10 then codes "00" else if ltb n 100 then codes "0" else []) ++ decimal n)

-- What an event does to the map, for names up to a limit.
unfoldable pub write_book : ℕ → Book → Event → Book
write_book limit book (join s) = record {
  roster = entry s (some (first_name book.given)) book.roster;
  given = add_size book.given 1;
}
write_book limit book (leave s) = record book { roster = entry s none book.roster }
write_book limit book (say s received) = elim (asked_name (up_to_nul received)) [
  | none ↦ book
  | some name ↦ take_name limit book s name
]

unfoldable pub write_all : ℕ → Book → List Event → Book
unfolding write_book
write_all limit book [] = book
write_all limit book (e ∷ es) = write_all limit (write_book limit book e) es

abbrev pub is_member : Option Bytes → Bool
is_member none = false
is_member (some name) = true

-- A client joins with a socket that no member has, and only members say something, which fits the
-- buffer.
abbrev pub IsDue : ChatServerConfig → Book → Event → Type 0
IsDue config book (join s) = is_member (book.roster s) ≡ false
IsDue config book (leave s) = Unit
IsDue config book (say s received) =
    (is_member (book.roster s) ≡ true) × (length received ≤ config.message_buffer_size)

unfoldable pub AllDue : ChatServerConfig → Book → List Event → Type 0
AllDue config book [] = Unit
AllDue config book (e ∷ es) =
    IsDue config book e × AllDue config (write_book config.max_name_length book e) es
