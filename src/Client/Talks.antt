-- ===== src/Client/Talks.antt =====
-- The chat client and the chat server together.
use ntu_computer_network.Base.{
  ℕ, zero, suc, ◌+◌, ◌≤◌, ◌≡◌, refl, ap, ◌∙◌, ◌≢◌, true, none, some, [], ◌∷◌, ◌++◌, arith, ◌==◌,
  if◌then◌else◌, lt→ltb, Bytes, codes, length, take, All, All-append, length-append, ok, fault,
  out_of_bounds, ◌>>=◌,
}
use ntu_computer_network.Tokens.Words.{IsWord, IsWord-All, IsPlain-nonzero}
use ntu_computer_network.Chat.{
  ChatServer, find_name, set_name, rename_prefix, strip_prefix, send_all, broadcast_text,
  handle_message,
}
use ntu_computer_network.Chat.Members.{has_socket, IsValid, not-ltb}
use ntu_computer_network.Chat.Messages.{
  reply, find_name-set_name, strip_prefix-append, handle_message-broadcast,
}
use ntu_computer_network.Chat.Members.{IsSized}
use ntu_computer_network.Chat.Meaning.{told, send_all-map}
use ntu_computer_network.Chat.Reaction.{
  handle_message-reaction, up_to_nul, up_to_nul-nonzero_text, reaction, renaming,
}
use ntu_computer_network.Client.{rename_user, talk, run_client, receive_message, max_name_length}
use ntu_computer_network.Client.Lines.{fgets-line, chomp-line, name_of-word, talk-line}

-- The first thing that the client sends, for a name that is typed and fits its array.
pub run_client-name :
    (rounds : ℕ) (username message name rest : Bytes)
    → IsWord (codes "\n") name
    → length name ≤ 48
    → run_client rounds username message (name ++ b'\n' ∷ rest)
      ≡ (talk rounds message rest >>= λ texts. ok ((rename_prefix ++ name) ∷ texts))
unfolding run_client rename_user
run_client-name rounds username message name rest w h =
    rw
      (
        fgets-line max_name_length username name rest (IsWord-All (codes "\n") name w)
            (omega arith),
        chomp-line name w,
        ◌>>=◌,
      )
      (rw (lt→ltb (length (rename_prefix ++ name)) 1077 (omega arith)))

reaction-rename :
    (server : ChatServer) (socket : ℕ) (name : Bytes)
    → IsWord (codes "\n") name
    → length name ≤ server.config.max_name_length
    → reaction server socket (up_to_nul (rename_prefix ++ name)) ≡ (
      record server { clients = set_name socket name server.clients },
      reply socket (codes "Server: Name changed."),
    )
unfolding reaction renaming
reaction-rename server socket name w allowed =
    let text = rename_prefix ++ name in
    let plain : All (λ c. c ≢ 0) text =
      All-append (λ c. c ≢ 0) rename_prefix name (omega arith)
        (IsPlain-nonzero (codes "\n") name (IsWord-All (codes "\n") name w)) in
    ap (reaction server socket) (up_to_nul-nonzero_text text plain)
    ∙ rw (reaction, strip_prefix-append rename_prefix name)
        (rw (
          name_of-word name w,
          renaming,
          not-ltb server.config.max_name_length (length name) allowed,
        ))

-- The first line that is typed, a name of 1 to 48 bytes without a NUL, is sent in the message that
-- makes the server take it: a valid server that serves the client, has a receive buffer of 64 bytes or
-- more and sizes that do not wrap, and gets this text in one piece, gives the client just this name,
-- when it is not longer than the server allows, and no other client's name changes.
pub first_text-renames :
    {server : ChatServer} (socket rounds : ℕ) (username message name rest : Bytes)
    → IsValid server
    → has_socket socket server.clients ≡ true
    → IsWord (codes "\n") name
    → length name ≤ 48
    → length name ≤ server.config.max_name_length
    → 64 ≤ server.config.message_buffer_size
    → IsSized server.config
    → (text : Bytes) × (run_client rounds username message (name ++ b'\n' ∷ rest)
        ≡ (talk rounds message rest >>= λ texts. ok (text ∷ texts)))
      × (after : ChatServer) × (handle_message server socket text
          ≡ ok (after, reply socket (codes "Server: Name changed.")))
      × ((t : ℕ)
          → find_name t after.clients
            ≡ (if socket == t then some name else find_name t server.clients))
first_text-renames {server} socket rounds username message name rest v member w short allowed room
      sized =
    (
      rename_prefix ++ name,
      run_client-name rounds username message name rest w short,
      record server { clients = set_name socket name server.clients },
      handle_message-reaction socket (rename_prefix ++ name) v member sized (omega arith)
          ∙ ap ok (reaction-rename server socket name w allowed),
      find_name-set_name socket name server.clients member,
    )

length-take : (n : ℕ) (xs : Bytes) → n ≤ length xs → length (take n xs) ≡ n
length-take zero xs h = refl
length-take (suc n) [] h = elim h [ ]
length-take (suc n) (x ∷ xs) h = ap suc (length-take n xs (omega arith))

-- A line of 1 to 1022 bytes without a NUL that is typed, and that does not start with "/rename ", is
-- sent as it is; a valid server that serves the client, has a receive buffer of 1022 bytes or more and
-- sizes that do not wrap, and gets the line in one piece, sends it to every client, behind the sender's
-- name. When that makes 1024 bytes or more, and `recv` fills the whole array of another client, this
-- client writes its NUL behind the end of the array.
pub long_line_overflows :
    {server : ChatServer} (socket rounds : ℕ) (old name text rest : Bytes)
    → IsValid server
    → has_socket socket server.clients ≡ true
    → find_name socket server.clients ≡ some name
    → IsWord (codes "\n") text
    → strip_prefix rename_prefix text ≡ none
    → length text ≤ 1022
    → 1022 ≤ server.config.message_buffer_size
    → IsSized server.config
    → 1024 ≤ length name + 2 + length text
    → (talk (suc rounds) old (text ++ b'\n' ∷ rest)
        ≡ (talk rounds text rest >>= λ texts. ok (text ∷ texts)))
      × (handle_message server socket text
          ≡ ok (server, told (name ++ (codes ": " ++ text)) server.clients))
      × (receive_message (take 1024 (name ++ (codes ": " ++ text))) ≡ fault out_of_bounds)
unfolding receive_message
long_line_overflows {server} socket rounds old name text rest v member found w other short room
      sized long =
    let plain = IsPlain-nonzero (codes "\n") text (IsWord-All (codes "\n") text w) in
    let (sender, here, run) =
      handle_message-broadcast socket text v member plain other sized (omega arith) in
    let same : sender ≡ name = cc in
    let full : length (take 1024 (broadcast_text name text)) ≡ 1024 =
      length-take 1024 (broadcast_text name text)
        (omega (arith, length-append name (codes ": " ++ text))) in
    (
      talk-line rounds old text rest w short,
      run
          ∙ ap (λ n. ok (server, send_all (broadcast_text n text) server.clients)) same
          ∙ ap (λ calls. ok (server, calls))
              (send_all-map (broadcast_text name text) server.clients),
      rw full,
    )
