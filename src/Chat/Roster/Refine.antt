-- ===== src/Chat/Roster/Refine.antt =====
-- The chat implements the map from sockets to names.
use mathlib.Core.Path.{fun_ext}
use ntu_computer_network.Base.{
  decimal, length-decimal_one, length-decimal_two, length-decimal_more, ◌-◌, ℕ, ◌≡◌, ◌≤◌, refl, ap,
  sym, ◌∙◌, inl, inr, Bool, true, false, none, some, List, [], ◌∷◌, arith, ◌==◌, Bool-cases,
  Option-cases, Bytes, length, ok, ◌>>=◌, >>=-eq-ok, ltb, if◌then◌else◌, add_size,
}
use ntu_computer_network.Chat.{
  ChatClient, ChatServer, ChatServerConfig, init_chat_server, print, default_name, add_chat_client,
  remove_chat_client, find_name, rename_prefix, strip_prefix,
}
use ntu_computer_network.Chat.Members.{has_socket, IsSized, IsValid, add_chat_client-IsValid}
use ntu_computer_network.Chat.Leaving.{remove_chat_client-IsValid}
use ntu_computer_network.Chat.Meaning.{asked-strip_prefix}
use ntu_computer_network.Chat.Messages.{find_name-set_name}
use ntu_computer_network.Chat.Names.{name_of}
use ntu_computer_network.Chat.Reaction.{reaction, renaming, up_to_nul, handle_message-reaction}
use ntu_computer_network.Chat.Reach.{handle_message-Keeps, init-IsValid}
use ntu_computer_network.Chat.Roster.{
  first_name, Event, join, leave, say, perform, perform_all, roster_of, Book, blank, write_book,
  write_all, is_member, IsDue, AllDue,
}
use ntu_computer_network.Chat.Roster.Names.{find_name-append, find_name-remove_socket}

-- A server that shows the map of a book.
record Shows (config : ChatServerConfig) (server : ChatServer) (book : Book) : Type 0 where
  valid : IsValid server
  same_config : server.config ≡ config
  same_roster : roster_of server ≡ book.roster
  same_given : server.client_increment ≡ book.given

is_member-has_socket : (s : ℕ) (cs : List ChatClient) → is_member (find_name s cs) ≡ has_socket s cs
unfolding find_name
is_member-has_socket s [] = refl
is_member-has_socket s (c ∷ cs) = ground (arith, is_member-has_socket s cs)

membership :
    {config : ChatServerConfig} {server : ChatServer} {book : Book} (s : ℕ) {b : Bool}
    → Shows config server book
    → is_member (book.roster s) ≡ b
    → has_socket s server.clients ≡ b
membership {server = server} s shows e =
    sym (is_member-has_socket s server.clients) ∙ ap (λ r. is_member (r s)) shows.same_roster ∙ e

ok-same : {s t : ChatServer} → ok s ≡ ok t → s ≡ t
ok-same e = cc

add_chat_client-given :
    (server : ChatServer) {after : ChatServer} (s : ℕ)
    → add_chat_client server s ≡ ok after
    → after.client_increment ≡ add_size server.client_increment 1
unfolding add_chat_client
add_chat_client-given server s e =
    let (name, printed, run) = >>=-eq-ok (print _ (default_name server.client_increment)) _ e in
    ap (λ x. x.client_increment) (sym (ok-same run))

default_name-first_name : (n : ℕ) → default_name n ≡ first_name n
unfolding first_name
default_name-first_name n = elim (Bool-cases (ltb n 10)) [
  | inl one ↦ rw (one, length-decimal_one n (ground (arith, one)))
  | inr more ↦ elim (Bool-cases (ltb n 100)) [
    | inl two ↦ rw (more, two, length-decimal_two n (ground (arith, more)) (ground (arith, two)))
    | inr three ↦
        let long = length-decimal_more n (ground (arith, three)) in
        let padded : 3 - length (decimal n) ≡ 0 = omega arith in rw (more, three, padded)
  ]
]

join-Shows :
    {config : ChatServerConfig} {server : ChatServer} {book : Book} (s : ℕ)
    → Shows config server book
    → is_member (book.roster s) ≡ false
    → (after : ChatServer) × (perform server (join s) ≡ ok after)
      × Shows config after (write_book config.max_name_length book (join s))
unfolding perform write_book
join-Shows {config} {server} {book} s shows new =
    let fresh = membership s shows new in
    let (after, run, clients, same, valid) = add_chat_client-IsValid s shows.valid fresh in
    (
      after,
      run,
      record {
        valid = valid;
        same_config = same ∙ shows.same_config;
        same_roster = fun_ext (λ t.
            ap (find_name t) clients
            ∙ find_name-append t server.clients
                (record { name = default_name server.client_increment; socket = s }) fresh
            ∙ ap (λ m. if s == t then some m else find_name t server.clients)
                (ap default_name shows.same_given ∙ default_name-first_name book.given)
            ∙ ap (λ r. if s == t then some (first_name book.given) else r t) shows.same_roster);
        same_given = add_chat_client-given server s run ∙ ap (λ n. add_size n 1) shows.same_given;
      },
    )

leave-Shows :
    {config : ChatServerConfig} {server : ChatServer} {book : Book} (s : ℕ)
    → Shows config server book
    → Shows config (remove_chat_client server s) (write_book config.max_name_length book (leave s))
unfolding remove_chat_client write_book
leave-Shows {config} {server} {book} s shows = record {
  valid = (remove_chat_client-IsValid s shows.valid).0;
  same_config = shows.same_config;
  same_roster = fun_ext (λ t.
      find_name-remove_socket s t server.clients shows.valid.distinct
      ∙ ap (λ r. if s == t then none else r t) shows.same_roster);
  same_given = shows.same_given;
}

-- What the reaction to a text does to the names.
reaction-roster :
    (server : ChatServer) (book : Book) (s : ℕ) (received : Bytes)
    → has_socket s server.clients ≡ true
    → roster_of server ≡ book.roster
    → roster_of (reaction server s (up_to_nul received)).0
      ≡ (write_book server.config.max_name_length book (say s received)).roster
unfolding reaction renaming write_book
reaction-roster server book s received member shown =
    elim (Option-cases (strip_prefix rename_prefix (up_to_nul received))) [
      | inl other ↦ rw (asked-strip_prefix (up_to_nul received), other, reaction, write_book) shown
      | inr (asked, given) ↦
          rw (asked-strip_prefix (up_to_nul received), given, reaction, write_book)
            (elim (Bool-cases (ltb server.config.max_name_length (length (name_of asked)))) [
              | inl long ↦ rw long shown
              | inr short ↦ rw short (
                  fun_ext (λ t.
                    find_name-set_name s (name_of asked) server.clients member t
                    ∙ ap (λ r. if s == t then some (name_of asked) else r t) shown))
            ])
    ]

-- No message counts as a client that joins.
reaction-given :
    (server : ChatServer) (book : Book) (s : ℕ) (received : Bytes)
    → server.client_increment ≡ book.given
    → (reaction server s (up_to_nul received)).0.client_increment
      ≡ (write_book server.config.max_name_length book (say s received)).given
unfolding reaction renaming write_book
reaction-given server book s received shown =
    elim (Option-cases (strip_prefix rename_prefix (up_to_nul received))) [
      | inl other ↦ rw (asked-strip_prefix (up_to_nul received), other, reaction, write_book) shown
      | inr (asked, given) ↦
          rw (asked-strip_prefix (up_to_nul received), given, reaction, write_book)
            (elim (Bool-cases (ltb server.config.max_name_length (length (name_of asked)))) [
              | inl long ↦ rw long shown
              | inr short ↦ rw short shown
            ])
    ]

say-Shows :
    {config : ChatServerConfig} {server : ChatServer} {book : Book} (s : ℕ) (received : Bytes)
    → IsSized config
    → Shows config server book
    → is_member (book.roster s) ≡ true
    → length received ≤ config.message_buffer_size
    → (after : ChatServer) × (perform server (say s received) ≡ ok after)
      × Shows config after (write_book config.max_name_length book (say s received))
unfolding perform
say-Shows {config} {server} {book} s received sized shows here fits =
    let member = membership s shows here in
    let after = reaction server s (up_to_nul received) in
    let run =
      handle_message-reaction s received shows.valid member (rw (shows.same_config) sized)
        (rw (shows.same_config) fits) in
    let k = handle_message-Keeps s received after.1 shows.valid run in
    (
      after.0,
      rw (run, ◌>>=◌),
      record {
        valid = k.valid;
        same_config = k.same_config ∙ shows.same_config;
        same_roster =
            reaction-roster server book s received member shows.same_roster
            ∙ ap (λ c. (write_book c.max_name_length book (say s received)).roster)
                shows.same_config;
        same_given =
            reaction-given server book s received shows.same_given
            ∙ ap (λ c. (write_book c.max_name_length book (say s received)).given)
                shows.same_config;
      },
    )

perform-Shows :
    {config : ChatServerConfig} {server : ChatServer} {book : Book} (e : Event)
    → IsSized config
    → Shows config server book
    → IsDue config book e
    → (after : ChatServer) × (perform server e ≡ ok after)
      × Shows config after (write_book config.max_name_length book e)
unfolding perform
perform-Shows (join s) sized shows due = join-Shows s shows due
perform-Shows {server = server} (leave s) sized shows due =
    (remove_chat_client server s, refl, leave-Shows s shows)
perform-Shows (say s received) sized shows due = say-Shows s received sized shows due.0 due.1

perform_all-Shows :
    (events : List Event) {config : ChatServerConfig} {server : ChatServer} {book : Book}
    → IsSized config
    → Shows config server book
    → AllDue config book events
    → (after : ChatServer) × (perform_all server events ≡ ok after)
      × Shows config after (write_all config.max_name_length book events)
unfolding perform_all write_all AllDue
perform_all-Shows [] {server = server} sized shows due = (server, refl, shows)
perform_all-Shows (e ∷ es) sized shows due =
    let (next, run, shows') = perform-Shows e sized shows due.0 in
    let (after, run', shows'') = perform_all-Shows es sized shows' due.1 in
    (after, rw (run, ◌>>=◌) run', shows'')

-- Any calls on a server that has just started, whose configuration allows names of 29 bytes and has
-- sizes that do not wrap:
-- when clients join with sockets that no member has, and only members say something, which fits the
-- receive buffer, no call faults, and behind them the clients are, as a map from sockets to names, just
-- what the events make of the empty map: "Client #" and the number of the joining, in three digits at least, for a client
-- that joins, no name for one that has left, and the name asked for, when it is not too long, for one
-- that has renamed itself.
pub perform_all-roster :
    (config : ChatServerConfig) (events : List Event)
    → 29 ≤ config.max_name_length
    → IsSized config
    → AllDue config blank events
    → (after : ChatServer) × (perform_all (init_chat_server config) events ≡ ok after)
      × (roster_of after ≡ (write_all config.max_name_length blank events).roster)
unfolding init_chat_server find_name
perform_all-roster config events room sized due =
    let begun : Shows config (init_chat_server config) blank = record {
      valid = init-IsValid config room;
      same_config = refl;
      same_roster = refl;
      same_given = refl;
    } in
    let (after, run, shows) = perform_all-Shows events sized begun due in
    (after, run, shows.same_roster)
