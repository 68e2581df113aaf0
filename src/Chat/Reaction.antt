-- ===== src/Chat/Reaction.antt =====
-- What the chat does with any message, described without buffers and without `strtok`.
use ntu_computer_network.Base.{
  ℕ, ◌≤◌, ◌<◌, ◌≡◌, refl, ◌≢◌, inl, inr, true, Option, none, some, List, [], ◌∷◌, ◌++◌, arith, ltb,
  ◌==◌, if◌then◌else◌, lt→ltb, ne→==, ==→ne, Bool-cases, Option-cases, Bytes, codes, length, All,
  length-append, ok, ◌>>=◌,
}
use ntu_computer_network.Tokens.{cstring}
use ntu_computer_network.Chat.Members.{IsSized}
use ntu_computer_network.Chat.Messages.{stored_text-received}
use ntu_computer_network.Chat.{
  broadcast_size, ChatServer, Send, find_name, set_name, rename_prefix, strip_prefix, rename,
  send_all, broadcast_text, broadcast, handle_message,
}
use ntu_computer_network.Chat.Members.{has_socket, IsValid}
use ntu_computer_network.Chat.Messages.{reply, find_name-Fits}
use ntu_computer_network.Chat.Names.{name_of, cut_name-name_of}

-- The text of a message: what stands before its first NUL.
unfoldable pub up_to_nul : Bytes → Bytes
up_to_nul [] = []
up_to_nul (c ∷ cs) = if c == 0 then [] else c ∷ up_to_nul cs

unfoldable pub renaming : ChatServer → ℕ → Bytes → ChatServer × List Send
renaming server socket name =
    if ltb server.config.max_name_length (length name)
    then (server, reply socket (codes "Server: Name too long."))
    else (
      record server { clients = set_name socket name server.clients },
      reply socket (codes "Server: Name changed."),
    )

abbrev pub name_or_empty : Option Bytes → Bytes
name_or_empty none = []
name_or_empty (some name) = name

unfoldable pub reaction : ChatServer → ℕ → Bytes → ChatServer × List Send
unfolding renaming
reaction server socket text = elim (strip_prefix rename_prefix text) [
  | some asked ↦ renaming server socket (name_of asked)
  | none ↦ (
    server,
    send_all (broadcast_text (name_or_empty (find_name socket server.clients)) text) server.clients,
  )
]

cstring-up_to_nul : (received : Bytes) → cstring (received ++ 0 ∷ []) ≡ ok (up_to_nul received)
unfolding cstring up_to_nul
cstring-up_to_nul [] = refl
cstring-up_to_nul (c ∷ cs) = elim (Bool-cases (c == 0)) [
  | inl end ↦ rw end
  | inr more ↦ rw (more, cstring-up_to_nul cs)
]

up_to_nul-nonzero : (received : Bytes) → All (λ c. c ≢ 0) (up_to_nul received)
unfolding up_to_nul
up_to_nul-nonzero [] = tt
up_to_nul-nonzero (c ∷ cs) = elim (Bool-cases (c == 0)) [
  | inl end ↦ rw (end, All) tt
  | inr more ↦ rw (more, All) (==→ne c 0 more, up_to_nul-nonzero cs)
]

length-up_to_nul : (received : Bytes) → length (up_to_nul received) ≤ length received
unfolding up_to_nul
length-up_to_nul [] = omega arith
length-up_to_nul (c ∷ cs) = ground (arith, length-up_to_nul cs)

strip_prefix-nonzero :
    (ps text asked : Bytes)
    → All (λ c. c ≢ 0) text
    → strip_prefix ps text ≡ some asked
    → All (λ c. c ≢ 0) asked
unfolding strip_prefix
strip_prefix-nonzero [] text asked a e = let same : text ≡ asked = cc in rw (← same) a
strip_prefix-nonzero (p ∷ ps) [] asked a e = cc
strip_prefix-nonzero (p ∷ ps) (c ∷ cs) asked a e = elim (Bool-cases (p == c)) [
  | inl same ↦ strip_prefix-nonzero ps cs asked a.1 (rw same at e)
  | inr other ↦ absurd (ground (arith, e, other))
]

rename-renaming :
    (server : ChatServer) (socket : ℕ) (asked : Bytes)
    → All (λ c. c ≢ 0) asked
    → rename server socket asked ≡ ok (renaming server socket (name_of asked))
unfolding rename renaming
rename-renaming server socket asked a = rw (cut_name-name_of asked a, ◌>>=◌) (ground arith)

broadcast-sends :
    {server : ChatServer} (socket : ℕ) (text : Bytes)
    → IsValid server
    → has_socket socket server.clients ≡ true
    → IsSized server.config
    → length text ≤ server.config.message_buffer_size
    → broadcast server socket text
      ≡ ok (
        server,
        send_all
            (broadcast_text (name_or_empty (find_name socket server.clients)) text)
            server.clients,
      )
unfolding broadcast
broadcast-sends {server} socket text v member sized h =
    let (name, found, fits) =
      find_name-Fits server.config.max_name_length socket server.clients v.short member in
    let inside : length (broadcast_text name text) < broadcast_size server.config =
      omega (arith, length-append name (codes ": " ++ text)) in
    rw (found, ◌>>=◌) (rw (lt→ltb _ _ inside))

-- A message of a client of a valid server that fits the receive buffer has its reaction.
pub handle_message-reaction :
    {server : ChatServer} (socket : ℕ) (received : Bytes)
    → IsValid server
    → has_socket socket server.clients ≡ true
    → IsSized server.config
    → length received ≤ server.config.message_buffer_size
    → handle_message server socket received ≡ ok (reaction server socket (up_to_nul received))
unfolding handle_message reaction
handle_message-reaction {server} socket received v member sized h =
    rw (stored_text-received server.config received sized h, cstring-up_to_nul received, ◌>>=◌)
      (elim (Option-cases (strip_prefix rename_prefix (up_to_nul received))) [
        | inl other ↦
            rw (other, reaction)
              (broadcast-sends socket (up_to_nul received) v member sized
                (omega (arith, length-up_to_nul received)))
        | inr (asked, given) ↦
            rw (given, reaction)
              (rename-renaming server socket asked (
                strip_prefix-nonzero rename_prefix (up_to_nul received) asked
                  (up_to_nul-nonzero received) given))
      ])

-- A text without a NUL is the whole message.
pub up_to_nul-nonzero_text : (text : Bytes) → All (λ c. c ≢ 0) text → up_to_nul text ≡ text
unfolding up_to_nul
up_to_nul-nonzero_text [] a = refl
up_to_nul-nonzero_text (c ∷ cs) a = rw (ne→== c 0 a.0, up_to_nul-nonzero_text cs a.1)
