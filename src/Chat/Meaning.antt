-- ===== src/Chat/Meaning.antt =====
-- What a message to the chat means, described without the functions of chat-server.c.
use ntu_computer_network.Base.{
  ℕ, ◌≤◌, ◌≡◌, refl, ap, sym, ◌∙◌, inl, inr, true, false, Option, none, some, List, [], ◌∷◌, ◌++◌,
  append-nil, arith, ltb, ◌==◌, ==_iff, if◌then◌else◌, Bool-cases, Option-cases, Bytes, codes,
  length, take, drop, map, bytes_eq, ok,
}
use ntu_computer_network.Chat.{
  ChatClient, ChatServer, Send, find_name, set_name, rename_prefix, strip_prefix, send_all,
  handle_message,
}
use ntu_computer_network.Chat.Members.{has_socket, IsDistinct, IsValid, IsSized}
use ntu_computer_network.Chat.Names.{name_of}
use ntu_computer_network.Chat.Reaction.{
  name_or_empty, reaction, renaming, up_to_nul, handle_message-reaction,
}

-- The name that a text asks for, if it starts with "/rename ".
unfoldable pub asked_name : Bytes → Option Bytes
asked_name text =
    if bytes_eq (take 8 text) (codes "/rename ") then some (name_of (drop 8 text)) else none

-- The name of the client with a socket.
unfoldable pub name_at : ℕ → List ChatClient → Bytes
name_at s [] = []
name_at s (c ∷ cs) = (if c.socket == s then c.name else []) ++ name_at s cs

abbrev pub renamed : ChatServer → ℕ → Bytes → ChatServer
renamed server s name = record server {
  clients = map (λ c. if c.socket == s then record c { name = name } else c) server.clients;
}

-- A text that is sent to each of some clients.
abbrev pub told : Bytes → List ChatClient → List Send
told text cs = map (λ (c : ChatClient). record { socket = c.socket; text = text }) cs

-- A text that asks for a name that is not too long gives the client this name, and tells it so; one
-- that asks for a longer name is refused; any other text goes to every client, behind the name.
unfoldable pub meaning : ChatServer → ℕ → Bytes → ChatServer × List Send
meaning server s text = elim (asked_name text) [
  | some name ↦
      if ltb server.config.max_name_length (length name)
      then (server, record { socket = s; text = codes "Server: Name too long." } ∷ [])
      else (renamed server s name, record { socket = s; text = codes "Server: Name changed." } ∷ [])
  | none ↦ (
    server,
    map (λ c. record { socket = c.socket; text = name_at s server.clients ++ (codes ": " ++ text) })
        server.clients,
  )
]

strip_prefix-take :
    (ps text : Bytes)
    → strip_prefix ps text
      ≡ (if bytes_eq (take (length ps) text) ps then some (drop (length ps) text) else none)
unfolding strip_prefix bytes_eq
strip_prefix-take [] text = refl
strip_prefix-take (p ∷ ps) [] = refl
strip_prefix-take (p ∷ ps) (c ∷ cs) = ground (arith, strip_prefix-take ps cs)

-- The test of the code is this one.
pub asked-strip_prefix :
    (text : Bytes)
    → asked_name text ≡ elim (strip_prefix rename_prefix text) as (λ _. Option Bytes) [
      | some asked ↦ some (name_of asked)
      | none ↦ none
    ]
unfolding asked_name
asked-strip_prefix text =
    rw (strip_prefix-take rename_prefix text)
      (elim (Bool-cases (bytes_eq (take 8 text) (codes "/rename "))) [
        | inl e ↦ rw e refl
        | inr e ↦ rw e refl
      ])

set_name-missing :
    (s : ℕ) (name : Bytes) (cs : List ChatClient)
    → has_socket s cs ≡ false
    → map (λ (c : ChatClient). if c.socket == s then record c { name = name } else c) cs ≡ cs
set_name-missing s name [] h = refl
set_name-missing s name (c ∷ cs) h =
    let other : (c.socket == s) ≡ false = ground arith in
    rw other (ap (λ l. c ∷ l) (set_name-missing s name cs (ground arith)))

set_name-map :
    (s : ℕ) (name : Bytes) (cs : List ChatClient)
    → IsDistinct cs
    → set_name s name cs
      ≡ map (λ (c : ChatClient). if c.socket == s then record c { name = name } else c) cs
unfolding set_name
set_name-map s name [] v = refl
set_name-map s name (c ∷ cs) v = elim (Bool-cases (c.socket == s)) [
  | inl e ↦ rw e (
      ap (λ l. record c { name = name } ∷ l)
        (sym (set_name-missing s name cs (rw ((==_iff c.socket s).0 e) at v.0))))
  | inr e ↦ rw e (ap (λ l. c ∷ l) (set_name-map s name cs v.1))
]

pub send_all-map : (text : Bytes) (cs : List ChatClient) → send_all text cs ≡ told text cs
send_all-map text [] = refl
send_all-map text (c ∷ cs) =
    ap (λ l. record { socket = c.socket; text = text } ∷ l) (send_all-map text cs)

name_at-missing : (s : ℕ) (cs : List ChatClient) → has_socket s cs ≡ false → name_at s cs ≡ []
unfolding name_at
name_at-missing s [] h = refl
name_at-missing s (c ∷ cs) h =
    let other : (c.socket == s) ≡ false = ground arith in
    rw other (name_at-missing s cs (ground arith))

name_at-find_name :
    (s : ℕ) (cs : List ChatClient) → IsDistinct cs → name_or_empty (find_name s cs) ≡ name_at s cs
unfolding name_at find_name
name_at-find_name s [] v = refl
name_at-find_name s (c ∷ cs) v = elim (Bool-cases (c.socket == s)) [
  | inl e ↦
      rw (e, name_at-missing s cs (rw ((==_iff c.socket s).0 e) at v.0)) (sym (append-nil c.name))
  | inr e ↦ rw e (name_at-find_name s cs v.1)
]

-- On a valid server the reaction to a text is its meaning.
pub reaction-meaning :
    (server : ChatServer) (s : ℕ) (text : Bytes)
    → IsDistinct server.clients
    → reaction server s text ≡ meaning server s text
unfolding reaction renaming meaning
reaction-meaning server s text v = elim (Option-cases (strip_prefix rename_prefix text)) [
  | inl other ↦
      rw (asked-strip_prefix text, other, reaction, meaning)
        (rw (send_all-map _ server.clients, name_at-find_name s server.clients v) refl)
  | inr (asked, given) ↦
      rw (asked-strip_prefix text, given, reaction, meaning)
        (rw (set_name-map s (name_of asked) server.clients v) refl)
]

-- A round of `handle_chat_client` on any bytes that fit the receive buffer, from a client of a valid
-- server whose sizes do not wrap: it returns, faults nowhere, and does what the text before the first NUL means.
-- One that starts with "/rename " gives the client the name behind it, or is refused when that is too
-- long; any other text is sent to every client once, behind the sender's name and ": ".
pub handle_message-meaning :
    {server : ChatServer} (socket : ℕ) (received : Bytes)
    → IsValid server
    → has_socket socket server.clients ≡ true
    → IsSized server.config
    → length received ≤ server.config.message_buffer_size
    → handle_message server socket received ≡ ok (meaning server socket (up_to_nul received))
handle_message-meaning {server} socket received v member sized h =
    handle_message-reaction socket received v member sized h
    ∙ ap ok (reaction-meaning server socket (up_to_nul received) v.distinct)
