-- ===== src/Chat/Accept/Sockets.antt =====
-- The sockets of the clients: which of them a message leaves as they are, and the last one.
use ntu_computer_network.Base.{
  Exec, ok, >>=-eq-ok, or_fault, ℕ, ◌≡◌, refl, ◌∙◌, ap, sym, inl, inr, Option, none, some, List, [],
  ◌∷◌, ◌++◌, Bytes, length, ◌==◌, ok, Bool-cases, Option-cases, ltb,
}
use ntu_computer_network.Chat.{
  ChatServer, Send, print, broadcast_text, broadcast, cut_name, rename, stored_text, handle_message,
  find_name, ChatClient, ChatServer, set_name, strip_prefix, rename_prefix,
}
use ntu_computer_network.Chat.Members.{has_socket}
use ntu_computer_network.Chat.Names.{name_of}
use ntu_computer_network.Chat.Reaction.{reaction, renaming}
use ntu_computer_network.Chat.Accept.{last_client}

-- The socket of the last client.
unfoldable pub last_socket : List ChatClient → Option ℕ
last_socket [] = none
last_socket (c ∷ []) = some c.socket
last_socket (c ∷ d ∷ ds) = last_socket (d ∷ ds)

pub last_client-append : (cs : List ChatClient) (c : ChatClient) → last_client (cs ++ c ∷ []) ≡ ok c
unfolding last_client
last_client-append [] c = refl
last_client-append (d ∷ []) c = refl
last_client-append (d ∷ e ∷ cs) c = last_client-append (e ∷ cs) c

pub last_client-socket :
    (cs : List ChatClient) {c : ChatClient} {s : ℕ}
    → last_client cs ≡ ok c
    → last_socket cs ≡ some s
    → c.socket ≡ s
unfolding last_client last_socket
last_client-socket [] e e' = cc
last_client-socket (d ∷ []) {c} {s} e e' =
    let same : d ≡ c = cc in let at : d.socket ≡ s = cc in sym (ap (λ x. x.socket) same) ∙ at
last_client-socket (d ∷ c ∷ cs) e e' = last_client-socket (c ∷ cs) e e'

pub last_socket-append :
    (cs : List ChatClient) (c : ChatClient) → last_socket (cs ++ c ∷ []) ≡ some c.socket
unfolding last_socket
last_socket-append [] c = refl
last_socket-append (d ∷ []) c = refl
last_socket-append (d ∷ e ∷ cs) c = last_socket-append (e ∷ cs) c

-- The same sockets in the same order.
abbrev pub SameSockets : List ChatClient → List ChatClient → Type 0
SameSockets [] [] = Unit {0}
SameSockets [] (d ∷ ds) = ⊥
SameSockets (c ∷ cs) [] = ⊥
SameSockets (c ∷ cs) (d ∷ ds) = (c.socket ≡ d.socket) × SameSockets cs ds

pub SameSockets-refl : (cs : List ChatClient) → SameSockets cs cs
SameSockets-refl [] = tt
SameSockets-refl (c ∷ cs) = (refl, SameSockets-refl cs)

SameSockets-set_name :
    (s : ℕ) (name : Bytes) (cs : List ChatClient) → SameSockets cs (set_name s name cs)
unfolding set_name
SameSockets-set_name s name [] = tt
SameSockets-set_name s name (c ∷ cs) = elim (Bool-cases (c.socket == s)) [
  | inl e ↦ rw e (refl, SameSockets-refl cs)
  | inr e ↦ rw e (refl, SameSockets-set_name s name cs)
]

pub has_socket-SameSockets :
    (s : ℕ) (cs ds : List ChatClient) → SameSockets cs ds → has_socket s ds ≡ has_socket s cs
has_socket-SameSockets s [] [] h = refl
has_socket-SameSockets s [] (d ∷ ds) h = absurd h
has_socket-SameSockets s (c ∷ cs) [] h = absurd h
has_socket-SameSockets s (c ∷ cs) (d ∷ ds) h = rw (h.0, has_socket-SameSockets s cs ds h.1)

pub last_socket-SameSockets :
    (cs ds : List ChatClient) → SameSockets cs ds → last_socket ds ≡ last_socket cs
unfolding last_socket
last_socket-SameSockets [] [] h = refl
last_socket-SameSockets [] (d ∷ ds) h = absurd h
last_socket-SameSockets (c ∷ cs) [] h = absurd h
last_socket-SameSockets (c ∷ []) (d ∷ []) h = rw h.0
last_socket-SameSockets (c ∷ []) (d ∷ e ∷ ds) h = absurd h.1
last_socket-SameSockets (c ∷ b ∷ cs) (d ∷ []) h = absurd h.1
last_socket-SameSockets (c ∷ b ∷ cs) (d ∷ e ∷ ds) h = last_socket-SameSockets (b ∷ cs) (e ∷ ds) h.1

pub SameSockets-reaction :
    (server : ChatServer) (s : ℕ) (text : Bytes)
    → SameSockets server.clients (reaction server s text).0.clients
unfolding reaction renaming
SameSockets-reaction server s text = elim (Option-cases (strip_prefix rename_prefix text)) [
  | inl other ↦ rw (other, reaction) (SameSockets-refl server.clients)
  | inr (asked, given) ↦
      rw (given, reaction)
        (elim (Bool-cases (ltb server.config.max_name_length (length (name_of asked)))) [
          | inl long ↦ rw long (SameSockets-refl server.clients)
          | inr short ↦ rw short (SameSockets-set_name s (name_of asked) server.clients)
        ])
]

returned-SameSockets :
    {s after : ChatServer} {sent calls : List Send} (clients : List ChatClient)
    → SameSockets clients s.clients
    → ◌≡◌ {A = Exec (ChatServer × List Send)} (ok (s, sent)) (ok (after, calls))
    → SameSockets clients after.clients
returned-SameSockets {s} {after} clients k e = let same : s ≡ after = cc in rw (← same) k

rename-SameSockets :
    (server : ChatServer) {after : ChatServer} (socket : ℕ) (text : Bytes) (calls : List Send)
    → rename server socket text ≡ ok (after, calls)
    → SameSockets server.clients after.clients
unfolding rename
rename-SameSockets server socket text calls e =
    let (name, cut, run) = >>=-eq-ok (cut_name text) _ e in
    elim (Bool-cases (ltb server.config.max_name_length (length name))) [
      | inl long ↦
          returned-SameSockets {s = server} server.clients (SameSockets-refl server.clients)
            (rw long at run)
      | inr short ↦
          returned-SameSockets {s = record server { clients = set_name socket name server.clients }}
            server.clients (SameSockets-set_name socket name server.clients) (rw short at run)
    ]

broadcast-SameSockets :
    (server : ChatServer) {after : ChatServer} (socket : ℕ) (text : Bytes) (calls : List Send)
    → broadcast server socket text ≡ ok (after, calls)
    → SameSockets server.clients after.clients
unfolding broadcast
broadcast-SameSockets server socket text calls e =
    let (name, found, run) = >>=-eq-ok (or_fault (find_name socket server.clients) _) _ e in
    let (line, printed, run') = >>=-eq-ok (print _ (broadcast_text name text)) _ run in
    returned-SameSockets {s = server} server.clients (SameSockets-refl server.clients) run'

-- A message that is handled leaves the sockets as they are.
pub handle_message-SameSockets :
    (server : ChatServer) {after : ChatServer} (socket : ℕ) (received : Bytes) (calls : List Send)
    → handle_message server socket received ≡ ok (after, calls)
    → SameSockets server.clients after.clients
unfolding handle_message
handle_message-SameSockets server socket received calls e =
    let (text, read, run) = >>=-eq-ok (stored_text server.config received) _ e in
    elim (Option-cases (strip_prefix rename_prefix text)) [
      | inl other ↦ broadcast-SameSockets server socket text calls (rw other at run)
      | inr (name, given) ↦ rename-SameSockets server socket name calls (rw given at run)
    ]
